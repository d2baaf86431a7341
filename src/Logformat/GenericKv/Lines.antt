-- ===== src/Logformat/GenericKv/Lines.antt =====
-- internal/mapr/logformat/generickv.go: the lines on which MakeFields returns.
use dtail.Base.{
  ℕ, ◌<◌, ◌≡◌, refl, ap, ◌∙◌, inl, inr, Bool, true, false, not, List, [], ◌∷◌, Option, none, some,
  is_some, arith, length, any, Bytes, cut_byte, split, Option-cases,
}
use dtail.Logformat.Default.{Fields, DefaultParser, add_default_fields, add_key_value_field}
use dtail.Logformat.GenericKv.{add_all, make_fields, kv_loop-none, kv_loop-add_all}

-- Whether a token is no key=value pair.
abbrev pub no_pair : Bytes → Bool
no_pair token = not (is_some (cut_byte b'=' token))

add_key_value_field-is_some :
    (p : DefaultParser) (token : Bytes) (fields : Fields)
    → is_some (add_key_value_field p token fields) ≡ not (no_pair token)
unfolding add_key_value_field
add_key_value_field-is_some p token fields = ground arith

add_all-is_some :
    (p : DefaultParser) (tokens : List Bytes) (fields : Fields)
    → is_some (add_all p tokens fields) ≡ not (any no_pair tokens)
unfolding add_all
add_all-is_some p [] fields = refl
add_all-is_some p (token ∷ tokens) fields =
    elim (Option-cases (add_key_value_field p token fields)) [
      | inl stuck ↦ ground (arith, stuck, add_key_value_field-is_some p token fields)
      | inr (added, e) ↦
          ground
            (arith, e, add_key_value_field-is_some p token fields, add_all-is_some p tokens added)
    ]

nothing : {A : Type 0} (o : Option A) → is_some o ≡ false → o ≡ none
nothing none h = refl
nothing (some a) h = cc

-- On a line with a token that is no key=value pair, MakeFields does not return: no number of
-- rounds is enough.
pub make_fields-no_pair :
    (fuel : ℕ) (p : DefaultParser) (mapr_line : Bytes)
    → any no_pair (split mapr_line b'|') ≡ true
    → make_fields fuel p mapr_line ≡ none
unfolding make_fields
make_fields-no_pair fuel p mapr_line h =
    kv_loop-none fuel p mapr_line (add_default_fields p mapr_line []) (
      nothing (add_all p (split mapr_line b'|') (add_default_fields p mapr_line []))
        (add_all-is_some p (split mapr_line b'|') (add_default_fields p mapr_line []) ∙ ap not h))

-- On a line of key=value tokens only, MakeFields returns within one round more than the line has
-- bytes, with the default fields and then those of the tokens, in their order.
pub make_fields-pairs :
    (fuel : ℕ) (p : DefaultParser) (mapr_line : Bytes)
    → any no_pair (split mapr_line b'|') ≡ false
    → length mapr_line < fuel
    → (is_some (make_fields fuel p mapr_line) ≡ true)
      × (make_fields fuel p mapr_line
          ≡ add_all p (split mapr_line b'|') (add_default_fields p mapr_line []))
unfolding make_fields
make_fields-pairs fuel p mapr_line h lt =
    let defaults = add_default_fields p mapr_line [] in
    let same = kv_loop-add_all fuel p mapr_line defaults lt in
    (ap is_some same ∙ (add_all-is_some p (split mapr_line b'|') defaults ∙ ap not h), same)
