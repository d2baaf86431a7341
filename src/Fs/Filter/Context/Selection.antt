-- ===== src/Fs/Filter/Context/Selection.antt =====
-- The lines that a grep with local context prints, told by looking ahead: the specification of
-- the filter of internal/io/fs/readfile_processor.go.
use dtail.Base.{
  ℕ, zero, suc, ◌+◌, ◌-◌, ◌%◌, ◌≤◌, ◌<◌, ◌≡◌, refl, ap, inl, inr, Bool, true, false, ◌&&◌, ◌||◌,
  List, [], ◌∷◌, ◌++◌, arith, ltb, leb, if◌then◌else◌, Bool-cases, length, length-append, take, any,
  pos_part, is_positive, Bytes,
}
use dtail.Fs.LineContext.{LineContext, IsInt, before, after}
use dtail.Fs.Stats.{u64_mod, increment}
use dtail.Fs.Filter.{back, remember}
use dtail.Fs.Filter.Context.Steps.{back-increment, Log, numbered}

module _ (matches : Bytes → Bool) (ltx : LineContext) where
  -- Behind the last wanted match, line `c`: the lines of its after context, up to the next match.
  unfoldable pub trailing : ℕ → ℕ → List Bytes → Log
  trailing a c [] = []
  trailing a c (line ∷ rest) =
      let n = increment c in
      let later = trailing (a - 1) n rest in
      if matches line then [] else if ltb 0 a then (line, n) ∷ later else later

  -- Whether the `k`th match is the last one that is wanted.
  abbrev pub is_last : ℕ → Bool
  is_last k = is_positive ltx.max_count && leb (pos_part ltx.max_count) k

  -- `a` lines of after context are left, `k` matches are counted, and line `c` was the last one.
  -- A line is printed if it matches, or stands in the context of a match before or after it.
  unfoldable pub grep_lines : ℕ → ℕ → ℕ → List Bytes → Log
  unfolding trailing
  grep_lines a k c [] = []
  grep_lines a k c (line ∷ rest) =
      let n = increment c in
      let on = grep_lines (after ltx) (suc k) n rest in
      let off = grep_lines (a - 1) k n rest in
      if matches line
      then (line, n) ∷ (if is_last (suc k) then trailing (after ltx) n rest else on)
      else if ltb 0 a || any matches (take (before ltx) rest)
      then (line, n) ∷ off
      else off

  -- The lines of a before buffer that a match in the coming lines brings out; the first of them
  -- will be line `n`.
  unfoldable pub pending : ℕ → List Bytes → List Bytes → Log
  pending n [] next = []
  pending n (b ∷ bs) next =
      let rest = pending n bs next in
      if any matches (take (suc (before ltx) - length (b ∷ bs)) next)
      then (b, back n (length (b ∷ bs))) ∷ rest
      else rest

  pub pending-nil : (n : ℕ) (bs : List Bytes) → pending n bs [] ≡ []
  unfolding pending
  pending-nil n [] = refl
  pending-nil n (b ∷ bs) =
      ground (arith, pending-nil n bs, any-take-nil (suc (before ltx) - length (b ∷ bs)))
    where
      any-take-nil : (k : ℕ) → any matches (take k []) ≡ false
      any-take-nil zero = refl
      any-take-nil (suc k) = refl

  any-take-suc :
      (k m : ℕ) (line : Bytes) (rest : List Bytes)
      → k ≡ suc m
      → any matches (take k (line ∷ rest)) ≡ (matches line || any matches (take m rest))
  any-take-suc zero m line rest e = absurd (omega arith)
  any-take-suc (suc k) m line rest e =
      ap (λ (t : ℕ). matches line || any matches (take t rest)) (omega arith)

  -- A matching line brings out the whole buffer.
  pub pending-match :
      (n : ℕ) (bs : List Bytes) (line : Bytes) (rest : List Bytes)
      → length bs ≤ before ltx
      → matches line ≡ true
      → pending n bs (line ∷ rest) ≡ numbered n bs
  unfolding pending
  pending-match n [] line rest h m = refl
  pending-match n (b ∷ bs) line rest h m = ground (
    arith,
    pending-match n bs line rest (omega arith) m,
    any-take-suc (suc (before ltx) - length (b ∷ bs)) (before ltx - length (b ∷ bs)) line rest,
  )

  pending-append :
      (n : ℕ) (bs : List Bytes) (line : Bytes) (rest : List Bytes)
      → IsInt ltx
      → length bs < before ltx
      → matches line ≡ false
      → pending (increment n) (bs ++ line ∷ []) rest
        ≡ pending n bs (line ∷ rest)
          ++ (if any matches (take (before ltx) rest) then (line, n % u64_mod) ∷ [] else [])
  unfolding pending
  pending-append n [] line rest i h m = ground (
    arith,
    back-increment n 0 (omega arith),
    ap (λ (t : ℕ). any matches (take t rest)) (pred-suc (before ltx)),
  )
    where
      pred-suc : (k : ℕ) → suc k - 1 ≡ k
      pred-suc k = omega arith
  pending-append n (b ∷ bs) line rest i h m =
      let k = before ltx - length (b ∷ bs) in
      let l : length (bs ++ line ∷ []) ≡ suc (length bs) =
        omega (arith, length-append bs (line ∷ [])) in
      ground (
        arith,
        pending-append n bs line rest i (omega arith) m,
        back-increment n (suc (length bs)) (omega arith),
        ap (λ (t : ℕ). any matches (take (suc (before ltx) - suc t) rest)) l,
        ap (λ (t : ℕ). back (increment n) (suc t)) l,
        any-take-suc (suc (before ltx) - length (b ∷ bs)) k line rest (omega arith),
      )

  pub trailing-zero : (c : ℕ) (lines : List Bytes) → trailing 0 c lines ≡ []
  unfolding trailing
  trailing-zero c [] = refl
  trailing-zero c (line ∷ rest) = ground (arith, trailing-zero (increment c) rest)

  -- The first line of a full buffer is too far from any later match.
  pending-full :
      (n : ℕ) (b : Bytes) (bs : List Bytes) (line : Bytes) (rest : List Bytes)
      → length (b ∷ bs) ≡ before ltx
      → matches line ≡ false
      → pending n (b ∷ bs) (line ∷ rest) ≡ pending n bs (line ∷ rest)
  unfolding pending
  pending-full n b bs line rest l m =
      ground (arith, any-take-suc (suc (before ltx) - length (b ∷ bs)) 0 line rest (omega arith))

  pub pending-remember :
      (n : ℕ) (bs : List Bytes) (line : Bytes) (rest : List Bytes)
      → IsInt ltx
      → length bs ≤ before ltx
      → 0 < before ltx
      → matches line ≡ false
      → pending (increment n) (remember ltx bs line) rest
        ≡ pending n bs (line ∷ rest)
          ++ (if any matches (take (before ltx) rest) then (line, n % u64_mod) ∷ [] else [])
  unfolding remember
  pending-remember n [] line rest i l p m =
      ground (arith, pending-append n [] line rest i (omega arith) m)
  pending-remember n (b ∷ bs) line rest i l p m =
      elim (Bool-cases (leb (before ltx) (length (b ∷ bs)))) [
        | inl full ↦ rw full (
            rw (pending-full n b bs line rest (ground arith) m)
              (pending-append n bs line rest i (ground arith) m))
        | inr room ↦ rw room (pending-append n (b ∷ bs) line rest i (ground arith) m)
      ]

pub length-remember :
    (ltx : LineContext) (bs : List Bytes) (line : Bytes)
    → length bs ≤ before ltx
    → 0 < before ltx
    → length (remember ltx bs line) ≤ before ltx
unfolding remember
length-remember ltx [] line l p = ground arith
length-remember ltx (b ∷ bs) line l p =
    ground (arith, length-append bs (line ∷ []), length-append (b ∷ bs) (line ∷ []))

module _ (matches : Bytes → Bool) (ltx : LineContext) (k c : ℕ) (line : Bytes)
    (rest : List Bytes) where
  pub grep-hit :
      (a : ℕ)
      → matches line ≡ true
      → grep_lines matches ltx a k c (line ∷ rest)
        ≡ (line, increment c)
          ∷ (if is_last matches ltx (suc k)
              then trailing matches ltx (after ltx) (increment c) rest
              else grep_lines matches ltx (after ltx) (suc k) (increment c) rest)
  unfolding grep_lines
  grep-hit a m = rw m

  pub grep-printed :
      (a : ℕ)
      → matches line ≡ false
      → ltb 0 a ≡ true
      → grep_lines matches ltx a k c (line ∷ rest)
        ≡ (line, increment c) ∷ grep_lines matches ltx (a - 1) k (increment c) rest
  unfolding grep_lines
  grep-printed a m p = ground arith

  pub grep-quiet :
      (a : ℕ)
      → matches line ≡ false
      → ltb 0 a ≡ false
      → grep_lines matches ltx a k c (line ∷ rest)
        ≡ (if any matches (take (before ltx) rest) then (line, increment c % u64_mod) ∷ [] else [])
          ++ grep_lines matches ltx a k (increment c) rest
  unfolding grep_lines
  grep-quiet (suc a) m p = ground arith
  grep-quiet zero m p = ground (arith, mod_mod (c + 1))
    where
      mod_mod : (x : ℕ) → x % u64_mod % u64_mod ≡ x % u64_mod
      mod_mod x = omega arith
