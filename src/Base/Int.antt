-- ===== src/Base/Int.antt =====
-- Go's int as the integer that it stands for; its range is stated where it matters.
use Prim.Native.Nat.{ℕ, zero, suc, ◌+◌}
use mathlib.Core.Bool.{Bool, false}
use dtail.Base.Tests.{ltb, leb, ◌==◌}

-- `negsuc n` is -(n + 1).
pub data ℤ : Type 0 where
  pos : ℕ → ℤ
  negsuc : ℕ → ℤ

abbrev pub pos_part : ℤ → ℕ
pos_part (pos n) = n
pos_part (negsuc n) = 0

abbrev pub neg_part : ℤ → ℕ
neg_part (pos n) = 0
neg_part (negsuc n) = suc n

abbrev pub is_positive : ℤ → Bool
is_positive i = ltb 0 (pos_part i)

abbrev pub leb_ℤ : ℤ → ℤ → Bool
leb_ℤ a b = leb (pos_part a + neg_part b) (pos_part b + neg_part a)

abbrev pub eq_ℤ : ℤ → ℤ → Bool
eq_ℤ (pos a) (pos b) = a == b
eq_ℤ (negsuc a) (negsuc b) = a == b
eq_ℤ _ _ = false

-- i++ and i-- on a Go int, and the sum of two.
abbrev pub inc : ℤ → ℤ
inc (pos n) = pos (suc n)
inc (negsuc zero) = pos 0
inc (negsuc (suc n)) = negsuc n

abbrev pub dec : ℤ → ℤ
dec (pos zero) = negsuc 0
dec (pos (suc n)) = pos n
dec (negsuc n) = negsuc (suc n)

abbrev pub sum_ℤ : ℤ → ℤ → ℤ
sum_ℤ (pos m) (pos zero) = pos m
sum_ℤ i (pos zero) = i
sum_ℤ i (pos (suc n)) = inc (sum_ℤ i (pos n))
sum_ℤ i (negsuc zero) = dec i
sum_ℤ i (negsuc (suc n)) = dec (sum_ℤ i (negsuc n))
