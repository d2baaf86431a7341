-- ===== src/Logformat/Scan.antt =====
-- internal/mapr/logformat/delimited.go: a line scanned field by field is the line split.
use dtail.Base.{
  ℕ, suc, ◌≤◌, ◌<◌, ◌≡◌, refl, sym, ap, ◌∙◌, inl, inr, true, false, List, [], ◌∷◌, ◌++◌, append-nil,
  append_assoc, Option, none, some, arith, ◌==◌, Bool-cases, length, Bytes, cut_byte, split,
  split_onto,
}
use dtail.Mapr.Funcs.Stack.{rest_size, rest_size-cut_byte}
use dtail.Logformat.Default.{scan_delimited_field}

module _ (b : ℕ) where
  -- What a scan says of the whole line.
  abbrev pub tokens_by : Bytes → Bytes → Option (Bytes × Bytes) → List Bytes
  tokens_by cur s none = (cur ++ s) ∷ []
  tokens_by cur s (some (l, r)) = (cur ++ l) ∷ split_onto b [] r

  tokens_by-cons :
      (cur : Bytes) (c : ℕ) (s : Bytes) (found : Option (Bytes × Bytes))
      → tokens_by (cur ++ c ∷ []) s found
        ≡ tokens_by cur (c ∷ s) (elim found [ none ↦ none | some (l, r) ↦ some (c ∷ l, r) ])
  tokens_by-cons cur c s none = ap (λ x. x ∷ []) (append_assoc cur (c ∷ []) s)
  tokens_by-cons cur c s (some (l, r)) =
      ap (λ x. x ∷ split_onto b [] r) (append_assoc cur (c ∷ []) l)

  split_onto-cut_byte : (cur s : Bytes) → split_onto b cur s ≡ tokens_by cur s (cut_byte b s)
  unfolding split_onto cut_byte
  split_onto-cut_byte cur [] = ap (λ x. x ∷ []) (sym (append-nil cur))
  split_onto-cut_byte cur (c ∷ s) = elim (Bool-cases (c == b)) [
    | inl here ↦
        rw (here, split_onto, cut_byte) (ap (λ x. x ∷ split_onto b [] s) (sym (append-nil cur)))
    | inr other ↦
        rw (other, split_onto, cut_byte)
          (split_onto-cut_byte (cur ++ c ∷ []) s ∙ tokens_by-cons cur c s (cut_byte b s))
  ]

  pub scan-last :
      (input : Bytes) → cut_byte b input ≡ none → scan_delimited_field input b ≡ (input, ([], true))
  unfolding scan_delimited_field
  scan-last input h = rw (h, scan_delimited_field) refl

  pub scan-more :
      (input token rest : Bytes)
      → cut_byte b input ≡ some (token, rest)
      → scan_delimited_field input b ≡ (token, (rest, false))
  unfolding scan_delimited_field
  scan-more input token rest h = rw (h, scan_delimited_field) refl

  pub split-last : (s : Bytes) → cut_byte b s ≡ none → split s b ≡ s ∷ []
  unfolding split
  split-last s h = split_onto-cut_byte [] s ∙ ap (tokens_by [] s) h

  pub split-more : (s l r : Bytes) → cut_byte b s ≡ some (l, r) → split s b ≡ l ∷ split r b
  unfolding split
  split-more s l r h = split_onto-cut_byte [] s ∙ ap (tokens_by [] s) h

  pub shorter :
      (s l r : Bytes) (fuel : ℕ)
      → cut_byte b s ≡ some (l, r)
      → length s < suc fuel
      → length r < fuel
  shorter s l r fuel h lt =
      let size : suc (length r) ≤ length s = rw (sym (ap rest_size h)) (rest_size-cut_byte b s) in
      omega (arith, size)
