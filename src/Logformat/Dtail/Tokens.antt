-- ===== src/Logformat/Dtail/Tokens.antt =====
-- internal/mapr/logformat/default.go: the lines that MakeFields takes for mapreduce lines.
use dtail.Base.{
  ℕ, zero, suc, ◌+◌, ◌≤◌, ◌<◌, ◌≡◌, refl, sym, ap, ◌∙◌, inl, inr, Bool, true, false, List, [], ◌∷◌,
  Option, none, some, is_some, ◌&&◌, arith, ltb, ◌==◌, if◌then◌else◌, length, Bytes, codes,
  has_prefix, cut_byte, split, Option-cases,
}
use mathlib.Core.Path.{subst}
use dtail.Logformat.Scan.{scan-last, scan-more, split-last, split-more, shorter}
use dtail.Logformat.Default.{Fields, DefaultParser, add_key_value_field}
use dtail.Logformat.Dtail.{
  LineFields, skipped, parsed, unparsable, pair_fields, token_fields, ended, token_round,
  token_loop, make_line_fields,
}

-- The tokens from index `i` on, one after the other.
unfoldable pub over_tokens : DefaultParser → Bytes → ℕ → List Bytes → Fields → LineFields
over_tokens p mapr_line i [] fields = ended i fields
over_tokens p mapr_line i (token ∷ []) fields = elim (token_fields p mapr_line i token fields) [
  | skipped ↦ skipped
  | unparsable f ↦ unparsable f
  | parsed f ↦ ended i f
]
over_tokens p mapr_line i (token ∷ (next ∷ tokens)) fields =
    elim (token_fields p mapr_line i token fields) [
      | skipped ↦ skipped
      | unparsable f ↦ unparsable f
      | parsed f ↦ over_tokens p mapr_line (suc i) (next ∷ tokens) f
    ]

split-cons : (s : Bytes) → (t : Bytes) × (ts : List Bytes) × (split s b'|' ≡ t ∷ ts)
split-cons s = elim (Option-cases (cut_byte b'|' s)) [
  | inl last ↦ (s, [], split-last b'|' s last)
  | inr ((l, r), found) ↦ (l, split r b'|', split-more b'|' s l r found)
]

round-last :
    (loop : Bytes → Fields → Option LineFields) (p : DefaultParser) (mapr_line : Bytes) (i : ℕ)
    (token : Bytes) (fields : Fields)
    → token_round loop i (token_fields p mapr_line i token fields) ([], true)
      ≡ some (over_tokens p mapr_line i (token ∷ []) fields)
unfolding over_tokens
round-last loop p mapr_line i token fields = by_result (token_fields p mapr_line i token fields)
  where
    by_result :
        (r : LineFields)
        → token_round loop i r ([], true)
          ≡ some (elim r [ skipped ↦ skipped | unparsable f ↦ unparsable f | parsed f ↦ ended i f ])
    by_result skipped = refl
    by_result (unparsable f) = refl
    by_result (parsed f) = refl

round-cons :
    (loop : Bytes → Fields → Option LineFields) (p : DefaultParser) (mapr_line : Bytes) (i : ℕ)
    (token rest t : Bytes) (ts : List Bytes) (fields : Fields)
    → ((f : Fields) → loop rest f ≡ some (over_tokens p mapr_line (suc i) (t ∷ ts) f))
    → token_round loop i (token_fields p mapr_line i token fields) (rest, false)
      ≡ some (over_tokens p mapr_line i (token ∷ (t ∷ ts)) fields)
unfolding over_tokens
round-cons loop p mapr_line i token rest t ts fields h =
    by_result (token_fields p mapr_line i token fields)
  where
    by_result :
        (r : LineFields)
        → token_round loop i r (rest, false)
          ≡ some (elim r [
            | skipped ↦ skipped
            | unparsable f ↦ unparsable f
            | parsed f ↦ over_tokens p mapr_line (suc i) (t ∷ ts) f
          ])
    by_result skipped = refl
    by_result (unparsable f) = refl
    by_result (parsed f) = h f

round-more :
    (loop : Bytes → Fields → Option LineFields) (p : DefaultParser) (mapr_line : Bytes) (i : ℕ)
    (token rest : Bytes) (fields : Fields)
    → ((f : Fields) → loop rest f ≡ some (over_tokens p mapr_line (suc i) (split rest b'|') f))
    → token_round loop i (token_fields p mapr_line i token fields) (rest, false)
      ≡ some (over_tokens p mapr_line i (token ∷ split rest b'|') fields)
round-more loop p mapr_line i token rest fields h =
    let (t, ts, e) = split-cons rest in
    rw e (
      round-cons loop p mapr_line i token rest t ts fields
        (λ f. h f ∙ ap (λ vs. some (over_tokens p mapr_line (suc i) vs f)) e))

token_loop-over_tokens :
    (fuel : ℕ) (p : DefaultParser) (mapr_line : Bytes) (i : ℕ) (input : Bytes) (fields : Fields)
    → length input < fuel
    → token_loop fuel p mapr_line i input fields
      ≡ some (over_tokens p mapr_line i (split input b'|') fields)
unfolding token_loop
token_loop-over_tokens zero p mapr_line i input fields h = ground (arith, h)
token_loop-over_tokens (suc fuel) p mapr_line i input fields h =
    elim (Option-cases (cut_byte b'|' input)) [
      | inl last ↦
          rw (scan-last b'|' input last, split-last b'|' input last)
            (round-last (token_loop fuel p mapr_line (suc i)) p mapr_line i input fields)
      | inr ((token, rest), found) ↦
          rw (scan-more b'|' input token rest found, split-more b'|' input token rest found)
            (round-more (token_loop fuel p mapr_line (suc i)) p mapr_line i token rest fields (λ f.
              token_loop-over_tokens fuel p mapr_line (suc i) rest f
                (shorter b'|' input token rest fuel found h)))
    ]

-- MakeFields returns on every line: it goes over the parts of the line between the delimiters,
-- each with its index, up to the first that is not what its index asks for.
pub make_line_fields-over_tokens :
    (p : DefaultParser) (mapr_line : Bytes)
    → make_line_fields p mapr_line ≡ some (over_tokens p mapr_line 0 (split mapr_line b'|') [])
unfolding make_line_fields
make_line_fields-over_tokens p mapr_line =
    token_loop-over_tokens (suc (length mapr_line)) p mapr_line 0 mapr_line [] (omega arith)

-- What a token must look like by its index: the severity begins with INFO and the tenth token
-- with MAPREDUCE:, and what is behind them has an equals sign.
abbrev pub fits : ℕ → Bytes → Bool
fits i token =
    if i == 0
    then has_prefix token (codes "INFO")
    else if i == 9
    then has_prefix token (codes "MAPREDUCE:")
    else if ltb 9 i
    then is_some (cut_byte b'=' token)
    else true

abbrev pub all_fit : ℕ → List Bytes → Bool
all_fit i [] = true
all_fit i (token ∷ tokens) = fits i token && all_fit (suc i) tokens

abbrev is_parsed : LineFields → Bool
is_parsed (parsed f) = true
is_parsed _ = false

token_fields-fits :
    (p : DefaultParser) (mapr_line : Bytes) (i : ℕ) (token : Bytes) (fields : Fields)
    → is_parsed (token_fields p mapr_line i token fields) ≡ true
    → fits i token ≡ true
unfolding token_fields pair_fields add_key_value_field
token_fields-fits p mapr_line i token fields h = ground (arith, h)

-- What a list of tokens from index `i` on has if it is parsed.
abbrev pub Fit : ℕ → List Bytes → Type 0
Fit i tokens = (all_fit i tokens ≡ true) × (11 ≤ i + length tokens)

last-Fit :
    (p : DefaultParser) (mapr_line : Bytes) (i : ℕ) (token : Bytes) (fields : Fields)
    → is_parsed (over_tokens p mapr_line i (token ∷ []) fields) ≡ true
    → Fit i (token ∷ [])
unfolding over_tokens
last-Fit p mapr_line i token fields h =
    by_result (token_fields p mapr_line i token fields)
      (token_fields-fits p mapr_line i token fields) h
  where
    by_result :
        (r : LineFields)
        → (is_parsed r ≡ true → fits i token ≡ true)
        → is_parsed
            (elim r [ skipped ↦ skipped | unparsable f ↦ unparsable f | parsed f ↦ ended i f ])
          ≡ true
        → Fit i (token ∷ [])
    by_result skipped fit h = cc
    by_result (unparsable f) fit h = cc
    by_result (parsed f) fit h = (ground (arith, fit refl), ground (arith, h))

more-Fit :
    (p : DefaultParser) (mapr_line : Bytes) (i : ℕ) (token next : Bytes) (tokens : List Bytes)
    (fields : Fields)
    → ((f : Fields)
        → is_parsed (over_tokens p mapr_line (suc i) (next ∷ tokens) f) ≡ true
        → Fit (suc i) (next ∷ tokens))
    → is_parsed (over_tokens p mapr_line i (token ∷ (next ∷ tokens)) fields) ≡ true
    → Fit i (token ∷ (next ∷ tokens))
unfolding over_tokens
more-Fit p mapr_line i token next tokens fields ih h =
    by_result (token_fields p mapr_line i token fields)
      (token_fields-fits p mapr_line i token fields) h
  where
    by_result :
        (r : LineFields)
        → (is_parsed r ≡ true → fits i token ≡ true)
        → is_parsed (elim r [
          | skipped ↦ skipped
          | unparsable f ↦ unparsable f
          | parsed f ↦ over_tokens p mapr_line (suc i) (next ∷ tokens) f
        ])
          ≡ true
        → Fit i (token ∷ (next ∷ tokens))
    by_result skipped fit h = cc
    by_result (unparsable f) fit h = cc
    by_result (parsed f) fit h =
        let (rest, enough) = ih f h in (rw (fit refl) rest, omega (arith, enough))

over_tokens-Fit :
    (p : DefaultParser) (mapr_line : Bytes) (i : ℕ) (token : Bytes) (tokens : List Bytes)
    (fields : Fields)
    → is_parsed (over_tokens p mapr_line i (token ∷ tokens) fields) ≡ true
    → Fit i (token ∷ tokens)
over_tokens-Fit p mapr_line i token [] fields h = last-Fit p mapr_line i token fields h
over_tokens-Fit p mapr_line i token (next ∷ tokens) fields h =
    more-Fit p mapr_line i token next tokens fields
      (λ f. over_tokens-Fit p mapr_line (suc i) next tokens f) h

split-Fit :
    (p : DefaultParser) (mapr_line : Bytes) (tokens : List Bytes) (t : Bytes) (ts : List Bytes)
    → tokens ≡ t ∷ ts
    → is_parsed (over_tokens p mapr_line 0 tokens []) ≡ true
    → Fit 0 tokens
split-Fit p mapr_line tokens t ts e h =
    subst (λ x. Fit 0 x) (sym e)
      (over_tokens-Fit p mapr_line 0 t ts []
        (ap (λ x. is_parsed (over_tokens p mapr_line 0 x [])) (sym e) ∙ h))

-- A line that the parser takes for a mapreduce line has at least eleven tokens, the first begins
-- with INFO, the tenth with MAPREDUCE:, and each one behind has an equals sign.
pub make_line_fields-Fit :
    (p : DefaultParser) (mapr_line : Bytes) (fields : Fields)
    → make_line_fields p mapr_line ≡ some (parsed fields)
    → Fit 0 (split mapr_line b'|')
make_line_fields-Fit p mapr_line fields h =
    let (t, ts, e) = split-cons mapr_line in
    split-Fit p mapr_line (split mapr_line b'|') t ts e (
      ap (λ o. elim o [ none ↦ false | some r ↦ is_parsed r ])
        (sym (make_line_fields-over_tokens p mapr_line) ∙ h))
