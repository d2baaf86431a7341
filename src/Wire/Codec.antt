-- ===== src/Wire/Codec.antt =====
-- protocol_codec.go of internal/server/handlers: the version and the encoding of a command.
use dtail.Base.{
  ℕ, ◌+◌, ◌-◌, ◌*◌, Bool, not, ◌&&◌, ◌||◌, List, [], ◌∷◌, ◌++◌, Option, none, some, ltb, leb, ◌==◌,
  if◌then◌else◌, Bytes, codes, str_eq, is_digit, cut_byte, split, ℤ, pos, negsuc, leb_ℤ,
}
use dtail.Wire.Receive.{protocol_compat}

-- A list of arguments, or an error and what is sent behind its text.
pub data Decoded : Type 0 where
  arguments : List Bytes → Decoded
  failure : Bytes → Bytes → Decoded

abbrev pub max_uint64 : ℕ
max_uint64 = 18446744073709551615

-- The number that strconv.ParseUint returns, with an error or not: 0 on a byte that is no digit,
-- the largest number on an overflow.
unfoldable pub uint_value_from : ℕ → Bytes → ℕ
uint_value_from n [] = n
uint_value_from n (c ∷ s) =
    let next = n * 10 + (c - b'0') in
    let rest = uint_value_from next s in
    if not (is_digit c) then 0 else if ltb max_uint64 next then max_uint64 else rest

-- The number that strconv.Atoi returns, with an error or not.
unfoldable pub positive_value : ℕ → ℤ
positive_value n = if leb 9223372036854775808 n then pos 9223372036854775807 else pos n

unfoldable pub negative_value : ℕ → ℤ
negative_value n =
    if n == 0
    then pos 0
    else if ltb 9223372036854775808 n
    then negsuc 9223372036854775807
    else negsuc (n - 1)

unfoldable pub atoi_value : Bytes → ℤ
unfolding uint_value_from positive_value negative_value
atoi_value [] = pos 0
atoi_value (c ∷ s) =
    if c == b'-'
    then negative_value (uint_value_from 0 s)
    else if c == b'+'
    then positive_value (uint_value_from 0 s)
    else positive_value (uint_value_from 0 (c ∷ s))

unfoldable pub parse_protocol_compat : Bytes → ℤ × ℤ
unfolding atoi_value cut_byte
parse_protocol_compat version = elim (cut_byte b'.' version) [
  | none ↦ (atoi_value version, pos 0)
  | some (major, minor) ↦ (atoi_value major, atoi_value minor)
]

abbrev pub gt_ℤ : ℤ → ℤ → Bool
gt_ℤ a b = not (leb_ℤ a b)

abbrev eq_of_leb : ℤ → ℤ → Bool
eq_of_leb a b = leb_ℤ a b && leb_ℤ b a

-- Which side is to be updated.
unfoldable pub to_update : ℤ × ℤ → ℤ × ℤ → Bytes
to_update (client_major, client_minor) (server_major, server_minor) =
    if gt_ℤ client_major server_major
      || (eq_of_leb client_major server_major && gt_ℤ client_minor server_minor)
    then codes "server"
    else codes "client"

abbrev pub mismatch : Bytes → Bytes → Bytes
mismatch version side =
    codes "the DTail server protocol version '"
    ++ protocol_compat
    ++ codes "' does not match client protocol version '"
    ++ version
    ++ codes "', please update DTail "
    ++ side

abbrev pub undetermined : Decoded
undetermined = failure (codes "unable to determine protocol version") []

unfoldable pub version_error : Bytes → Decoded
unfolding to_update parse_protocol_compat
version_error version =
    failure
      (mismatch version
        (to_update (parse_protocol_compat version) (parse_protocol_compat protocol_compat)))
      (if leb_ℤ ((parse_protocol_compat version).0) (pos 3) then 10 ∷ [] else [])

unfoldable pub handle_protocol_version : List Bytes → Decoded
unfolding str_eq version_error
handle_protocol_version (protocol ∷ (version ∷ (arg ∷ args))) =
    if not (str_eq protocol (codes "protocol"))
    then undetermined
    else if str_eq version protocol_compat
    then arguments (arg ∷ args)
    else version_error version
handle_protocol_version _ = undetermined

abbrev pub not_compatible : Bytes
not_compatible =
    codes "unable to decode client message, DTail server and client versions may not be compatible"

-- The decoder is the base64 library's: its result, or the text of its error.
module _ (decode_base64 : Bytes → Bytes × Option Bytes) where
  unfoldable pub decoded_text : Bytes × Option Bytes → Decoded
  unfolding split
  decoded_text (decoded, none) = arguments (split decoded b' ')
  decoded_text (decoded, some err) = failure err []

  unfoldable pub handle_base64 : List Bytes → Decoded
  unfolding str_eq decoded_text
  handle_base64 (name ∷ (encoded ∷ [])) =
      if str_eq name (codes "base64")
      then decoded_text (decode_base64 encoded)
      else failure not_compatible []
  handle_base64 _ = failure not_compatible []
