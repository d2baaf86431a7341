-- ===== src/Base/Text.antt =====
-- Go strings as lists of bytes, with the functions of Go's strings and strconv packages that the
-- program calls. Case folding and white space are those of ASCII.
use Prim.Native.Nat.{ℕ, zero, suc, ◌+◌, ◌-◌, ◌*◌, ◌/◌, ◌%◌}
use Prim.Native.Char.{code}
use Prim.Native.String.{String}
use mathlib.Core.Path.{◌≡◌, refl}
use mathlib.Core.Logic.{◌↔◌}
use mathlib.Core.Bool.{Bool, true, false, ◌&&◌, ◌||◌}
use mathlib.Core.List.{List, [], ◌∷◌, ◌++◌, reverse}
use mathlib.Core.Option.{Option, none, some}
use native.Mathlib.Omega.{arith}
use dtail.Base.Tests.{leb, ◌==◌, if◌then◌else◌, ◌>>=◌}
use dtail.Base.Lists.{length, drop}
use dtail.Base.Int.{ℤ, pos, negsuc}

abbrev pub Bytes : Type 0
Bytes = List ℕ

-- The code points of a literal; these are its bytes when the text is ASCII.
abbrev pub codes : String → Bytes
codes String.[] = []
codes (String.◌∷◌ c s) = code c ∷ codes s

-- a == b
unfoldable pub str_eq : Bytes → Bytes → Bool
str_eq [] [] = true
str_eq (x ∷ xs) (y ∷ ys) = x == y && str_eq xs ys
str_eq _ _ = false

pub str_eq_iff : (a b : Bytes) → (str_eq a b ≡ true) ↔ (a ≡ b)
unfolding str_eq
str_eq_iff (x ∷ a) (y ∷ b) = ground (arith, str_eq_iff a b)
str_eq_iff _ _ = ground arith

pub str_eq_refl : (a : Bytes) → str_eq a a ≡ true
str_eq_refl a = (str_eq_iff a a).1 refl

abbrev pub is_empty : Bytes → Bool
is_empty [] = true
is_empty (_ ∷ _) = false

-- strings.HasPrefix
unfoldable pub has_prefix : Bytes → Bytes → Bool
has_prefix s [] = true
has_prefix [] (p ∷ ps) = false
has_prefix (c ∷ s) (p ∷ ps) = c == p && has_prefix s ps

-- strings.HasSuffix
unfoldable pub has_suffix : Bytes → Bytes → Bool
unfolding str_eq
has_suffix s p = leb (length p) (length s) && str_eq (drop (length s - length p) s) p

-- strings.Contains, bytes.Contains
unfoldable pub contains : Bytes → Bytes → Bool
unfolding has_prefix
contains [] p = has_prefix [] p
contains (c ∷ s) p = has_prefix (c ∷ s) p || contains s p

-- The text before the first byte `b` and the text after it: strings.IndexByte and the two slices.
unfoldable pub cut_byte : ℕ → Bytes → Option (Bytes × Bytes)
cut_byte b [] = none
cut_byte b (c ∷ s) = elim (c == b) [
  | true ↦ some ([], s)
  | false ↦ elim (cut_byte b s) [ none ↦ none | some (l, r) ↦ some (c ∷ l, r) ]
]

-- strings.Split by one byte: there is always a first part.
unfoldable pub split_onto : ℕ → Bytes → Bytes → List Bytes
split_onto b cur [] = cur ∷ []
split_onto b cur (c ∷ s) = elim (c == b) [
  | true ↦ cur ∷ split_onto b [] s
  | false ↦ split_onto b (cur ++ c ∷ []) s
]

unfoldable pub split : Bytes → ℕ → List Bytes
unfolding split_onto
split s b = split_onto b [] s

-- strings.Join by one byte
unfoldable pub join : List Bytes → ℕ → Bytes
join [] b = []
join (p ∷ []) b = p
join (p ∷ (q ∷ qs)) b = p ++ (b ∷ join (q ∷ qs) b)

abbrev pub is_space : ℕ → Bool
is_space c = c == 32 || (leb 9 c && leb c 13)

-- strings.Fields; the second argument is the field being read.
unfoldable pub fields_onto : Bytes → Bytes → List Bytes
fields_onto [] [] = []
fields_onto (c ∷ cur) [] = (c ∷ cur) ∷ []
fields_onto cur (x ∷ s) = elim (is_space x) [
  | true ↦ elim (is_empty cur) [ true ↦ fields_onto [] s | false ↦ cur ∷ fields_onto [] s ]
  | false ↦ fields_onto (cur ++ x ∷ []) s
]

unfoldable pub fields : Bytes → List Bytes
unfolding fields_onto
fields s = fields_onto [] s

unfoldable pub trim_left : Bytes → Bytes
trim_left [] = []
trim_left (c ∷ s) = let rest = trim_left s in if is_space c then rest else c ∷ s

-- strings.TrimSpace
unfoldable pub trim_space : Bytes → Bytes
unfolding trim_left
trim_space s = reverse (trim_left (reverse (trim_left s)))

unfoldable pub lower_byte : ℕ → ℕ
lower_byte c = if leb b'A' c && leb c b'Z' then c + 32 else c

unfoldable pub upper_byte : ℕ → ℕ
upper_byte c = if leb b'a' c && leb c b'z' then c - 32 else c

-- strings.ToLower and strings.ToUpper
unfoldable pub to_lower : Bytes → Bytes
unfolding lower_byte
to_lower [] = []
to_lower (c ∷ s) = lower_byte c ∷ to_lower s

unfoldable pub to_upper : Bytes → Bytes
unfolding upper_byte
to_upper [] = []
to_upper (c ∷ s) = upper_byte c ∷ to_upper s

-- strings.Replace of every byte `a` by `b`
unfoldable pub replace_byte : ℕ → ℕ → Bytes → Bytes
replace_byte a b [] = []
replace_byte a b (c ∷ s) = (if c == a then b else c) ∷ replace_byte a b s

abbrev pub is_digit : ℕ → Bool
is_digit c = leb b'0' c && leb c b'9'

-- The number that a row of decimal digits stands for, read from the left.
unfoldable pub digits_from : ℕ → Bytes → Option ℕ
digits_from n [] = some n
digits_from n (c ∷ s) =
    let rest = digits_from (n * 10 + (c - b'0')) s in if is_digit c then rest else none

-- A value above `max` is out of range.
unfoldable pub parse_digits : ℕ → Bytes → Option ℕ
unfolding digits_from
parse_digits max [] = none
parse_digits max (c ∷ s) = do n ← digits_from 0 (c ∷ s); if leb n max then some n else none

-- strconv.ParseUint(s, 10, 64)
unfoldable pub parse_uint : Bytes → Option ℕ
unfolding parse_digits
parse_uint s = parse_digits 18446744073709551615 s

negated : ℕ → ℤ
negated zero = pos 0
negated (suc n) = negsuc n

-- strconv.Atoi on a 64-bit machine
unfoldable pub atoi : Bytes → Option ℤ
unfolding parse_digits negated
atoi [] = none
atoi (c ∷ s) =
    if c == b'-'
    then (do n ← parse_digits 9223372036854775808 s; some (negated n))
    else if c == b'+'
    then (do n ← parse_digits 9223372036854775807 s; some (pos n))
    else (do n ← parse_digits 9223372036854775807 (c ∷ s); some (pos n))

-- strconv.FormatUint; the fuel is a bound on the number of digits.
unfoldable pub format_digits : ℕ → ℕ → Bytes → Bytes
format_digits zero n out = out
format_digits (suc f) n out =
    let more = format_digits f (n / 10) ((b'0' + n % 10) ∷ out) in if n == 0 then out else more

unfoldable pub format_uint : ℕ → Bytes
unfolding format_digits
format_uint n = if n == 0 then b'0' ∷ [] else format_digits n n []

-- strings.Cut by a text that is not empty: what stands before its first occurrence, and after it.
unfoldable pub cut : Bytes → Bytes → Option (Bytes × Bytes)
cut sep [] = none
cut sep (c ∷ s) = elim (has_prefix (c ∷ s) sep) [
  | true ↦ some ([], drop (length sep) (c ∷ s))
  | false ↦ elim (cut sep s) [ none ↦ none | some (l, r) ↦ some (c ∷ l, r) ]
]

-- strings.Split by a text that is not empty; the number says how many bytes of an occurrence are
-- still to be passed over.
unfoldable pub split_text_onto : Bytes → Bytes → ℕ → Bytes → List Bytes
split_text_onto sep cur skip [] = cur ∷ []
split_text_onto sep cur (suc skip) (c ∷ s) = split_text_onto sep cur skip s
split_text_onto sep cur zero (c ∷ s) = elim (has_prefix (c ∷ s) sep) [
  | true ↦ cur ∷ split_text_onto sep [] (length sep - 1) s
  | false ↦ split_text_onto sep (cur ++ c ∷ []) zero s
]

unfoldable pub split_text : Bytes → Bytes → List Bytes
split_text s sep = split_text_onto sep [] 0 s
