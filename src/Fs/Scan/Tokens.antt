-- ===== src/Fs/Scan/Tokens.antt =====
-- internal/io/fs/readfile_processor_optimized.go: the tokens that the split function takes off the
-- bytes that are buffered, and what it leaves.
use dtail.Base.{
  take-drop, length-take_bound, ℕ, zero, suc, ◌≤◌, ◌<◌, ◌≡◌, refl, sym, ap, ◌∙◌, Bool, true, false,
  List, [], ◌∷◌, ◌++◌, append_assoc, Option, none, some, arith, All, Option-cases, inl, inr, ◌⊎◌,
  is_some, length, length-take, length-drop, take, drop, Bytes,
}
use dtail.Fs.Scan.{index_newline, token_length, scan_lines_with_max_length, scan_tokens}

abbrev pub concat : List Bytes → Bytes
concat [] = []
concat (s ∷ ss) = s ++ concat ss

pub concat-append : (ss ts : List Bytes) → concat (ss ++ ts) ≡ concat ss ++ concat ts
concat-append [] ts = refl
concat-append (s ∷ ss) ts = rw (concat-append ss ts) (sym (append_assoc s (concat ss) (concat ts)))

some_none : {o : Option ℕ} → is_some o ≡ true → ¬ (o ≡ none)
some_none h e = cc

short_token :
    (limit n : ℕ) (bytes : Bytes)
    → (length bytes ≡ 0) ⊎ ((1 ≤ n) × (n ≤ suc limit))
    → length (take n bytes) ≤ suc limit
short_token limit n bytes (inl e) = omega (arith, e, length-take n bytes)
short_token limit n bytes (inr (_, b)) = omega (arith, b, length-take_bound n bytes)

-- The tokens and the rest are the bytes.
pub scan_tokens-bytes :
    (fuel limit : ℕ) (at_eof : Bool) (bytes : Bytes)
    → concat ((scan_tokens fuel limit at_eof bytes).0) ++ (scan_tokens fuel limit at_eof bytes).1
      ≡ bytes
unfolding scan_tokens
scan_tokens-bytes zero limit at_eof bytes = refl
scan_tokens-bytes (suc fuel) limit at_eof bytes =
    elim (Option-cases (scan_lines_with_max_length limit bytes at_eof)) [
      | inl e ↦ rw (e, scan_tokens) refl
      | inr (n, e) ↦
          rw (e, scan_tokens)
            (append_assoc (take n bytes) (concat ((scan_tokens fuel limit at_eof (drop n bytes)).0))
                ((scan_tokens fuel limit at_eof (drop n bytes)).1)
              ∙ ap (λ r. take n bytes ++ r) (scan_tokens-bytes fuel limit at_eof (drop n bytes))
              ∙ take-drop n bytes)
    ]

-- A token is not empty, and not longer than the limit and a newline.
token_length-bounds :
    (limit n c : ℕ) (bytes : Bytes) (at_eof : Bool) (newline : Option ℕ)
    → 0 < limit
    → token_length limit (c ∷ bytes) at_eof newline ≡ some n
    → (1 ≤ n) × (n ≤ suc limit)
unfolding token_length
token_length-bounds limit n c bytes at_eof (some i) l h = (ground (arith, h), ground (arith, h))
token_length-bounds limit n c bytes true none l h = (ground (arith, h), ground (arith, h))
token_length-bounds limit n c bytes false none l h = (ground (arith, h), ground (arith, h))

token_length-at_eof :
    (limit : ℕ) (bytes : Bytes) (newline : Option ℕ)
    → is_some (token_length limit bytes true newline) ≡ true
unfolding token_length
token_length-at_eof limit bytes (some i) = ground arith
token_length-at_eof limit bytes none = ground arith

scan-bounds :
    (limit n : ℕ) (bytes : Bytes) (at_eof : Bool)
    → 0 < limit
    → scan_lines_with_max_length limit bytes at_eof ≡ some n
    → (length bytes ≡ 0) ⊎ ((1 ≤ n) × (n ≤ suc limit))
unfolding scan_lines_with_max_length
scan-bounds limit n [] at_eof l h = inl refl
scan-bounds limit n (c ∷ bytes) true l h =
    inr (token_length-bounds limit n c bytes true (index_newline (c ∷ bytes)) l h)
scan-bounds limit n (c ∷ bytes) false l h =
    inr (token_length-bounds limit n c bytes false (index_newline (c ∷ bytes)) l h)

-- At the end of the file nothing is left, if there are enough rounds.
pub scan_tokens-ended :
    (fuel limit : ℕ) (bytes : Bytes)
    → 0 < limit
    → length bytes < fuel
    → (scan_tokens fuel limit true bytes).1 ≡ []
unfolding scan_tokens
scan_tokens-ended zero limit bytes l f = absurd (omega (arith, f))
scan_tokens-ended (suc fuel) limit [] l f =
    let ended : scan_lines_with_max_length limit [] true ≡ none =
      unfold scan_lines_with_max_length in refl in
    rw (ended, scan_tokens) refl
scan_tokens-ended (suc fuel) limit (c ∷ bytes) l f =
    elim (Option-cases (token_length limit (c ∷ bytes) true (index_newline (c ∷ bytes)))) [
      | inl e ↦
          absurd (some_none (token_length-at_eof limit (c ∷ bytes) (index_newline (c ∷ bytes))) e)
      | inr (n, e) ↦
          let (positive, _) =
            token_length-bounds limit n c bytes true (index_newline (c ∷ bytes)) l e in
          let step : scan_lines_with_max_length limit (c ∷ bytes) true ≡ some n =
            unfold scan_lines_with_max_length in e in
          rw (step, scan_tokens)
            (scan_tokens-ended fuel limit (drop n (c ∷ bytes)) l
              (omega (arith, length-drop n (c ∷ bytes))))
    ]

-- A token that is missing is asked for only where the limit has not been reached.
scan-request :
    (limit : ℕ) (bytes : Bytes) (newline : Option ℕ)
    → token_length limit bytes false newline ≡ none
    → length bytes < limit
unfolding token_length
scan-request limit bytes (some i) h = ground (arith, h)
scan-request limit bytes none h = ground (arith, h)

-- Before the end of the file less than a limit is left, if there are enough rounds.
pub scan_tokens-rest :
    (fuel limit : ℕ) (bytes : Bytes)
    → 0 < limit
    → length bytes < fuel
    → length ((scan_tokens fuel limit false bytes).1) < limit
unfolding scan_tokens
scan_tokens-rest zero limit bytes l f = absurd (omega (arith, f))
scan_tokens-rest (suc fuel) limit [] l f =
    let ended : scan_lines_with_max_length limit [] false ≡ none =
      unfold scan_lines_with_max_length token_length index_newline in ground (arith, l) in
    rw (ended, scan_tokens) l
scan_tokens-rest (suc fuel) limit (c ∷ bytes) l f =
    elim (Option-cases (token_length limit (c ∷ bytes) false (index_newline (c ∷ bytes)))) [
      | inl e ↦
          let step : scan_lines_with_max_length limit (c ∷ bytes) false ≡ none =
            unfold scan_lines_with_max_length in e in
          rw (step, scan_tokens) (scan-request limit (c ∷ bytes) (index_newline (c ∷ bytes)) e)
      | inr (n, e) ↦
          let (positive, _) =
            token_length-bounds limit n c bytes false (index_newline (c ∷ bytes)) l e in
          let step : scan_lines_with_max_length limit (c ∷ bytes) false ≡ some n =
            unfold scan_lines_with_max_length in e in
          rw (step, scan_tokens)
            (scan_tokens-rest fuel limit (drop n (c ∷ bytes)) l
              (omega (arith, length-drop n (c ∷ bytes))))
    ]

abbrev pub IsShort : ℕ → Bytes → Type 0
IsShort limit token = length token ≤ suc limit

pub scan_tokens-IsShort :
    (fuel limit : ℕ) (at_eof : Bool) (bytes : Bytes)
    → 0 < limit
    → All (IsShort limit) ((scan_tokens fuel limit at_eof bytes).0)
unfolding scan_tokens
scan_tokens-IsShort zero limit at_eof bytes l = tt
scan_tokens-IsShort (suc fuel) limit at_eof bytes l =
    elim (Option-cases (scan_lines_with_max_length limit bytes at_eof)) [
      | inl e ↦ rw (e, scan_tokens) tt
      | inr (n, e) ↦
          rw (e, scan_tokens)
            (
              short_token limit n bytes (scan-bounds limit n bytes at_eof l e),
              scan_tokens-IsShort fuel limit at_eof (drop n bytes) l,
            )
    ]
