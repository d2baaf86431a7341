-- ===== src/Wire/Cut.antt =====
-- What the codecs share: text cut at its first delimiter, and numbers printed and parsed.
use dtail.Base.{
  append-nil, append_assoc, split_onto, split, join, List, ℕ, zero, suc, ◌+◌, ◌-◌, ◌*◌, ◌/◌, ◌%◌,
  ◌≤◌, ◌<◌, ◌≡◌, refl, ap, ◌∙◌, Bool, true, false, [], ◌∷◌, ◌++◌, none, some, arith, ◌==◌, inl, inr,
  Bool-cases, is_empty, any, Bytes, cut_byte, is_digit, digits_from, parse_digits, parse_uint,
  format_digits, format_uint,
}

-- Whether a text has the byte.
abbrev pub has_byte : ℕ → Bytes → Bool
has_byte b s = any (λ c. c == b) s

pub cut_byte-append :
    (b : ℕ) (s r : Bytes) → has_byte b s ≡ false → cut_byte b (s ++ b ∷ r) ≡ some (s, r)
unfolding cut_byte
cut_byte-append b [] r h = ground arith
cut_byte-append b (c ∷ s) r h = ground (arith, h, cut_byte-append b s r (ground (arith, h)))

pub cut_byte-none : (b : ℕ) (s : Bytes) → has_byte b s ≡ false → cut_byte b s ≡ none
unfolding cut_byte
cut_byte-none b [] h = refl
cut_byte-none b (c ∷ s) h = ground (arith, h, cut_byte-none b s (ground (arith, h)))

digit_step :
    (n : ℕ) (out : Bytes) → digits_from (n / 10) ((b'0' + n % 10) ∷ out) ≡ digits_from n out
unfolding digits_from
digit_step n out =
    let same : n / 10 * 10 + (b'0' + n % 10 - b'0') ≡ n = omega arith in
    let digit : is_digit (b'0' + n % 10) ≡ true = ground arith in
    rw digit (ap (λ m. digits_from m out) same)

-- The digits of a number, in front of what follows them, are read as the number.
digits_from-format_digits :
    (fuel n : ℕ) (out : Bytes)
    → n ≤ fuel
    → digits_from 0 (format_digits fuel n out) ≡ digits_from n out
unfolding format_digits digits_from
digits_from-format_digits zero n out h = ap (λ m. digits_from m out) (omega arith)
digits_from-format_digits (suc fuel) n out h = elim (Bool-cases (n == 0)) [
  | inl done ↦ rw done (ap (λ m. digits_from m out) (ground (arith, done)))
  | inr more ↦ rw more (
      digits_from-format_digits fuel (n / 10) ((b'0' + n % 10) ∷ out) (ground (arith, more))
      ∙ digit_step n out)
]

has_byte-format_digits :
    (b fuel n : ℕ) (out : Bytes)
    → is_digit b ≡ false
    → has_byte b out ≡ false
    → has_byte b (format_digits fuel n out) ≡ false
unfolding format_digits
has_byte-format_digits b zero n out hb h = h
has_byte-format_digits b (suc fuel) n out hb h = ground (
  arith,
  h,
  has_byte-format_digits b fuel (n / 10) ((b'0' + n % 10) ∷ out) hb (ground (arith, h, hb)),
)

pub has_byte-format_uint : (b n : ℕ) → is_digit b ≡ false → has_byte b (format_uint n) ≡ false
unfolding format_uint
has_byte-format_uint b n hb = ground (arith, hb, has_byte-format_digits b n n [] hb refl)

is_empty-format_digits :
    (fuel n d : ℕ) (out : Bytes) → is_empty (format_digits fuel n (d ∷ out)) ≡ false
unfolding format_digits
is_empty-format_digits zero n d out = refl
is_empty-format_digits (suc fuel) n d out =
    ground (arith, is_empty-format_digits fuel (n / 10) (b'0' + n % 10) (d ∷ out))

parse_digits-digits_from :
    (max n : ℕ) (s : Bytes)
    → is_empty s ≡ false
    → digits_from 0 s ≡ some n
    → n ≤ max
    → parse_digits max s ≡ some n
parse_digits-digits_from max n [] e d h = cc
parse_digits-digits_from max n (c ∷ s) e d h = unfold parse_digits in rw d (ground (arith, h))

format_digits-suc :
    (m : ℕ)
    → format_digits (suc m) (suc m) [] ≡ format_digits m (suc m / 10) ((b'0' + suc m % 10) ∷ [])
unfolding format_digits
format_digits-suc m = ground arith

format_uint-suc : (m : ℕ) → format_uint (suc m) ≡ format_digits (suc m) (suc m) []
unfolding format_uint
format_uint-suc m = ground arith

pub is_empty-format_uint : (n : ℕ) → is_empty (format_uint n) ≡ false
is_empty-format_uint zero = unfold format_uint in refl
is_empty-format_uint (suc m) =
    rw (format_uint-suc m, format_digits-suc m)
      (is_empty-format_digits m (suc m / 10) (b'0' + suc m % 10) [])

pub parse_digits-format_uint : (max n : ℕ) → n ≤ max → parse_digits max (format_uint n) ≡ some n
parse_digits-format_uint max zero h =
    parse_digits-digits_from max 0 (format_uint 0) (is_empty-format_uint 0)
      (unfold digits_from format_uint in refl) h
parse_digits-format_uint max (suc m) h =
    parse_digits-digits_from max (suc m) (format_uint (suc m)) (is_empty-format_uint (suc m))
      (rw (format_uint-suc m)
        (digits_from-format_digits (suc m) (suc m) [] (omega arith) ∙ unfold digits_from in refl))
      h

-- strconv.ParseUint reads what strconv.FormatUint prints.
pub parse_uint-format_uint :
    (n : ℕ) → n < 18446744073709551616 → parse_uint (format_uint n) ≡ some n
unfolding parse_uint
parse_uint-format_uint n h = parse_digits-format_uint 18446744073709551615 n (omega arith)

-- A text without the byte is one part.
pub split_onto-whole :
    (b : ℕ) (cur s : Bytes) → has_byte b s ≡ false → split_onto b cur s ≡ (cur ++ s) ∷ []
unfolding split_onto
split_onto-whole b cur [] h = rw (append-nil cur) refl
split_onto-whole b cur (c ∷ s) h = ground (
  arith,
  h,
  split_onto-whole b (cur ++ c ∷ []) s (ground (arith, h)),
  append_assoc cur (c ∷ []) s,
)

pub split_onto-first :
    (b : ℕ) (cur s rest : Bytes)
    → has_byte b s ≡ false
    → split_onto b cur (s ++ b ∷ rest) ≡ (cur ++ s) ∷ split_onto b [] rest
unfolding split_onto
split_onto-first b cur [] rest h = ground (arith, append-nil cur)
split_onto-first b cur (c ∷ s) rest h = ground (
  arith,
  h,
  split_onto-first b (cur ++ c ∷ []) s rest (ground (arith, h)),
  append_assoc cur (c ∷ []) s,
)

-- strings.Split undoes strings.Join of parts without the byte.
pub split-join :
    (b : ℕ) (p : Bytes) (ps : List Bytes)
    → any (has_byte b) (p ∷ ps) ≡ false
    → split (join (p ∷ ps) b) b ≡ p ∷ ps
unfolding split join
split-join b p [] h = split_onto-whole b [] p (ground (arith, h))
split-join b p (q ∷ qs) h =
    split_onto-first b [] p (join (q ∷ qs) b) (ground (arith, h))
    ∙ ap (λ parts. p ∷ parts) (split-join b q qs (ground (arith, h)))
