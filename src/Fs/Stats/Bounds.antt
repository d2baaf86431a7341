-- ===== src/Fs/Stats/Bounds.antt =====
-- The counters of internal/io/fs/stats.go against the two windows that they count.
use dtail.Base.{
  ℕ, zero, suc, ◌≤◌, ◌<◌, ◌≡◌, refl, Bool, true, false, List, [], ◌∷◌, arith, length, length-set,
  get_or, set,
}
use dtail.Fs.Stats.{
  Stats, new_stats, window, update_position, update_line_matched, update_line_transmitted,
  update_line_not_matched, update_line_not_transmitted,
}

-- How many entries of a window are set.
abbrev pub count_true : List Bool → ℕ
count_true [] = 0
count_true (true ∷ bs) = suc (count_true bs)
count_true (false ∷ bs) = count_true bs

pub record IsValid (f : Stats) : Type 0 where
  pub pos_lt : f.pos < window
  pub matched_length : length f.matched ≡ window
  pub transmitted_length : length f.transmitted ≡ window
  pub matched_exact : f.match_count ≡ count_true f.matched
  pub transmitted_exact : f.transmit_count ≡ count_true f.transmitted

pub count_true-le : (bs : List Bool) → count_true bs ≤ length bs
count_true-le [] = omega arith
count_true-le (true ∷ bs) = omega (arith, count_true-le bs)
count_true-le (false ∷ bs) = omega (arith, count_true-le bs)

count_true-set_true :
    (bs : List Bool) (i : ℕ)
    → i < length bs
    → get_or bs i false ≡ false
    → count_true (set bs i true) ≡ suc (count_true bs)
count_true-set_true [] i h e = elim h [ ]
count_true-set_true (b ∷ bs) zero h e = ground arith
count_true-set_true (true ∷ bs) (suc i) h e =
    omega (arith, count_true-set_true bs i (omega arith) e)
count_true-set_true (false ∷ bs) (suc i) h e = count_true-set_true bs i (omega arith) e

count_true-set_false :
    (bs : List Bool) (i : ℕ)
    → get_or bs i false ≡ true
    → suc (count_true (set bs i false)) ≡ count_true bs
count_true-set_false [] i e = cc
count_true-set_false (b ∷ bs) zero e = ground arith
count_true-set_false (true ∷ bs) (suc i) e = omega (arith, count_true-set_false bs i e)
count_true-set_false (false ∷ bs) (suc i) e = count_true-set_false bs i e

pub new_stats-IsValid : IsValid new_stats
unfolding new_stats
new_stats-IsValid = record {
  pos_lt = omega arith;
  matched_length = refl;
  transmitted_length = refl;
  matched_exact = refl;
  transmitted_exact = refl;
}

pub update_position-IsValid : {f : Stats} → IsValid f → IsValid (update_position f)
unfolding update_position
update_position-IsValid v = ground arith

module _ {f : Stats} (v : IsValid f) where
  pub update_line_matched-IsValid : IsValid (update_line_matched f)
  unfolding update_line_matched
  update_line_matched-IsValid = ground (
    arith,
    count_true-set_true f.matched f.pos,
    length-set f.matched f.pos true,
    count_true-le f.matched,
    v.pos_lt,
    v.matched_length,
    v.transmitted_length,
    v.matched_exact,
    v.transmitted_exact,
  )

  pub update_line_transmitted-IsValid : IsValid (update_line_transmitted f)
  unfolding update_line_transmitted
  update_line_transmitted-IsValid = ground (
    arith,
    count_true-set_true f.transmitted f.pos,
    length-set f.transmitted f.pos true,
    count_true-le f.transmitted,
    v.pos_lt,
    v.matched_length,
    v.transmitted_length,
    v.matched_exact,
    v.transmitted_exact,
  )

  pub update_line_not_matched-IsValid : IsValid (update_line_not_matched f)
  unfolding update_line_not_matched
  update_line_not_matched-IsValid = ground (
    arith,
    count_true-set_false f.matched f.pos,
    length-set f.matched f.pos false,
    count_true-le f.matched,
    v.pos_lt,
    v.matched_length,
    v.transmitted_length,
    v.matched_exact,
    v.transmitted_exact,
  )

  pub update_line_not_transmitted-IsValid : IsValid (update_line_not_transmitted f)
  unfolding update_line_not_transmitted
  update_line_not_transmitted-IsValid = ground (
    arith,
    count_true-set_false f.transmitted f.pos,
    length-set f.transmitted f.pos false,
    count_true-le f.transmitted,
    v.pos_lt,
    v.matched_length,
    v.transmitted_length,
    v.matched_exact,
    v.transmitted_exact,
  )
