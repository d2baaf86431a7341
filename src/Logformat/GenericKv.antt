-- ===== src/Logformat/GenericKv.antt =====
-- internal/mapr/logformat/generickv.go: lines of key=value tokens.
pub mod Lines
use dtail.Base.{
  ℕ, zero, suc, ◌+◌, ◌-◌, ◌≤◌, ◌<◌, ◌≡◌, refl, sym, ap, ◌∙◌, inl, inr, Bool, true, false, not, ◌&&◌,
  ◌||◌, List, [], ◌∷◌, ◌++◌, append-nil, append_assoc, Bool-cases, Option-cases, split_onto, ◌==◌,
  Option, none, some, is_some, arith, length, any, if◌then◌else◌, Bytes, codes, cut_byte, split,
}
use dtail.Base.Maps.{lookup, insert}
use dtail.Mapr.Funcs.Stack.{rest_size, rest_size-cut_byte}
use dtail.Logformat.Scan.{scan-last, scan-more, split-last, split-more, shorter}
use dtail.Logformat.Default.{
  Fields, DefaultParser, scan_delimited_field, add_default_fields, add_key_value_field,
}

-- One round, on what the scan of the input returns. A token that is no key=value pair is
-- scanned again, since `continue` skips `start = next`.
abbrev pub kv_round :
    (Bytes → Fields → Option Fields)
    → DefaultParser
    → Bytes
    → Fields
    → Bytes × (Bytes × Bool)
    → Option Fields
kv_round loop p input fields (token, (next, done)) = elim (add_key_value_field p token fields) [
  | none ↦ loop input fields
  | some added ↦ elim done [ true ↦ some added | false ↦ loop next added ]
]

unfoldable pub kv_loop : ℕ → DefaultParser → Bytes → Fields → Option Fields
kv_loop zero p input fields = none
kv_loop (suc fuel) p input fields =
    kv_round (kv_loop fuel p) p input fields (scan_delimited_field input b'|')

-- MakeFields of genericKVParser, with a number of rounds to give up after.
unfoldable pub make_fields : ℕ → DefaultParser → Bytes → Option Fields
make_fields fuel p mapr_line = kv_loop fuel p mapr_line (add_default_fields p mapr_line [])

-- Each token's pair, one after the other, as long as each is one.
unfoldable pub add_all : DefaultParser → List Bytes → Fields → Option Fields
add_all p [] fields = some fields
add_all p (token ∷ tokens) fields = elim (add_key_value_field p token fields) [
  | none ↦ none
  | some added ↦ add_all p tokens added
]

-- The loop on a line, by its first token: the first is a pair, and the loop goes on behind it.
kv_loop-last :
    (fuel : ℕ) (p : DefaultParser) (input : Bytes) (fields : Fields)
    → cut_byte b'|' input ≡ none
    → kv_loop (suc fuel) p input fields ≡ elim (add_key_value_field p input fields) [
      | none ↦ kv_loop fuel p input fields
      | some added ↦ some added
    ]
unfolding kv_loop
kv_loop-last fuel p input fields h = rw (scan-last b'|' input h) refl

kv_loop-more :
    (fuel : ℕ) (p : DefaultParser) (input token rest : Bytes) (fields : Fields)
    → cut_byte b'|' input ≡ some (token, rest)
    → kv_loop (suc fuel) p input fields ≡ elim (add_key_value_field p token fields) [
      | none ↦ kv_loop fuel p input fields
      | some added ↦ kv_loop fuel p rest added
    ]
unfolding kv_loop
kv_loop-more fuel p input token rest fields h = rw (scan-more b'|' input token rest h) refl

add_all-stop :
    (p : DefaultParser) (token : Bytes) (tokens : List Bytes) (fields : Fields)
    → add_key_value_field p token fields ≡ none
    → add_all p (token ∷ tokens) fields ≡ none
unfolding add_all
add_all-stop p token tokens fields h = rw (h, add_all) refl

add_all-go :
    (p : DefaultParser) (token : Bytes) (tokens : List Bytes) (fields added : Fields)
    → add_key_value_field p token fields ≡ some added
    → add_all p (token ∷ tokens) fields ≡ add_all p tokens added
unfolding add_all
add_all-go p token tokens fields added h = rw (h, add_all) refl

all_added : (p : DefaultParser) (fields : Fields) → add_all p [] fields ≡ some fields
unfolding add_all
all_added p fields = refl

-- A loop that meets a token that is no pair never ends.
pub kv_loop-none :
    (fuel : ℕ) (p : DefaultParser) (input : Bytes) (fields : Fields)
    → add_all p (split input b'|') fields ≡ none
    → kv_loop fuel p input fields ≡ none
kv_loop-none zero p input fields h = unfold kv_loop in refl
kv_loop-none (suc fuel) p input fields h = elim (Option-cases (cut_byte b'|' input)) [
  | inl last ↦ elim (Option-cases (add_key_value_field p input fields)) [
    | inl stuck ↦
        kv_loop-last fuel p input fields last ∙ rw stuck (kv_loop-none fuel p input fields h)
    | inr (added, e) ↦ cc (
      sym h,
      ap (λ ts. add_all p ts fields) (split-last b'|' input last),
      add_all-go p input [] fields added e,
      all_added p added,
    )
  ]
  | inr ((token, rest), found) ↦ elim (Option-cases (add_key_value_field p token fields)) [
    | inl stuck ↦
        kv_loop-more fuel p input token rest fields found
        ∙ rw stuck (kv_loop-none fuel p input fields h)
    | inr (added, e) ↦
        kv_loop-more fuel p input token rest fields found
        ∙ rw e (
            kv_loop-none fuel p rest added (
              sym (add_all-go p token (split rest b'|') fields added e)
              ∙ (ap (λ ts. add_all p ts fields) (sym (split-more b'|' input token rest found))
                  ∙ h)))
  ]
]

-- With a round for each byte and one more, the loop is the pairs of the tokens, one after the
-- other.
pub kv_loop-add_all :
    (fuel : ℕ) (p : DefaultParser) (input : Bytes) (fields : Fields)
    → length input < fuel
    → kv_loop fuel p input fields ≡ add_all p (split input b'|') fields
kv_loop-add_all zero p input fields h = ground (arith, h)
kv_loop-add_all (suc fuel) p input fields h = elim (Option-cases (cut_byte b'|' input)) [
  | inl last ↦ elim (Option-cases (add_key_value_field p input fields)) [
    | inl stuck ↦
        let nothing =
          ap (λ ts. add_all p ts fields) (split-last b'|' input last)
          ∙ add_all-stop p input [] fields stuck in
        kv_loop-none (suc fuel) p input fields nothing ∙ sym nothing
    | inr (added, e) ↦
        kv_loop-last fuel p input fields last
        ∙ rw e (
            sym (
              ap (λ ts. add_all p ts fields) (split-last b'|' input last)
              ∙ (add_all-go p input [] fields added e ∙ all_added p added)))
  ]
  | inr ((token, rest), found) ↦ elim (Option-cases (add_key_value_field p token fields)) [
    | inl stuck ↦
        let nothing =
          ap (λ ts. add_all p ts fields) (split-more b'|' input token rest found)
          ∙ add_all-stop p token (split rest b'|') fields stuck in
        kv_loop-none (suc fuel) p input fields nothing ∙ sym nothing
    | inr (added, e) ↦
        kv_loop-more fuel p input token rest fields found
        ∙ rw e (
            kv_loop-add_all fuel p rest added (shorter b'|' input token rest fuel found h)
            ∙ sym (
                ap (λ ts. add_all p ts fields) (split-more b'|' input token rest found)
                ∙ add_all-go p token (split rest b'|') fields added e))
  ]
]
