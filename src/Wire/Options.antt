-- ===== src/Wire/Options.antt =====
-- internal/config/args.go: the options of a command, as they are sent and read.
pub mod RoundTrip
use dtail.Base.{
  ℕ, Bool, true, false, ◌&&◌, ◌||◌, List, [], ◌∷◌, ◌++◌, Option, none, some, ltb, ◌==◌,
  if◌then◌else◌, any, Bytes, codes, str_eq, is_empty, has_prefix, drop, cut_byte, split, trim_space,
  join, atoi, format_uint, ℤ, pos, negsuc, eq_ℤ, suc,
}
use dtail.Fs.LineContext.{LineContext}
use dtail.Base.Maps.{insert}

abbrev pub no_context : LineContext
no_context = record { after_context = pos 0; before_context = pos 0; max_count = pos 0 }

-- The fields of Args that are sent as options.
pub record Args : Type 0 where
  pub quiet : Bool
  pub plain : Bool
  pub serverless : Bool
  pub l_context : LineContext

abbrev pub OptionMap : Type 0
OptionMap = List (Bytes × Bytes)

abbrev pub base64_mark : Bytes
base64_mark = codes "base64%"

-- fmt.Sprintf("%d", i)
abbrev pub format_int : ℤ → Bytes
format_int (pos n) = format_uint n
format_int (negsuc n) = b'-' ∷ format_uint (suc n)

-- a <= b in the order of sort.Strings
unfoldable pub str_leb : Bytes → Bytes → Bool
str_leb [] b = true
str_leb (x ∷ a) [] = false
str_leb (x ∷ a) (y ∷ b) = ltb x y || (x == y && str_leb a b)

unfoldable pub insert_sorted : Bytes × Bytes → OptionMap → OptionMap
unfolding str_leb
insert_sorted kv [] = kv ∷ []
insert_sorted kv (other ∷ rest) =
    let later = insert_sorted kv rest in
    if str_leb kv.0 other.0 then kv ∷ (other ∷ rest) else other ∷ later

-- The map's entries in the order of their keys.
unfoldable pub sorted : OptionMap → OptionMap
unfolding insert_sorted
sorted [] = []
sorted (kv ∷ m) = insert_sorted kv (sorted m)

abbrev pub is_special : ℕ → Bool
is_special c = c == b':' || c == b'=' || c == b'|'

-- What a serialized map has been read to, with the error that ended the reading.
pub data OptionsRead : Type 0 where
  options_read : OptionMap → LineContext → OptionsRead
  options_error : Bytes → OptionMap → LineContext → OptionsRead

-- base64 is the library's.
module _ (encode_base64 : Bytes → Bytes) where
  unfoldable pub serialize_option_value : Bytes → Bytes
  unfolding has_prefix
  serialize_option_value value =
      if any is_special value || has_prefix value base64_mark
      then base64_mark ++ encode_base64 value
      else value

  unfoldable pub serialize_option : Bytes × Bytes → Bytes
  unfolding serialize_option_value
  serialize_option (k, v) = k ++ (b'=' ∷ serialize_option_value v)

  unfoldable pub serialized : OptionMap → List Bytes
  unfolding serialize_option
  serialized [] = []
  serialized (kv ∷ m) = serialize_option kv ∷ serialized m

  unfoldable pub serialize_option_map : OptionMap → Bytes
  unfolding serialized sorted join
  serialize_option_map m = join (serialized (sorted m)) b':'

  unfoldable pub flag : Bytes → Bool → OptionMap → OptionMap
  unfolding insert
  flag k b m = if b then insert k (codes "true") m else m

  unfoldable pub number : Bytes → ℤ → OptionMap → OptionMap
  unfolding insert
  number k i m = if eq_ℤ i (pos 0) then m else insert k (format_int i) m

  unfoldable pub serialize_options : Args → Bytes
  unfolding flag number serialize_option_map
  serialize_options a = serialize_option_map (
      number (codes "after") a.l_context.after_context (
        number (codes "before") a.l_context.before_context (
          number (codes "max") a.l_context.max_count (
            flag (codes "serverless") a.serverless
              (flag (codes "plain") a.plain (flag (codes "quiet") a.quiet []))))))

-- The decoder gives its result, or the text of its error; atoi_error is strconv's text.
module _ (decode_base64 : Bytes → Bytes × Option Bytes) (atoi_error : Bytes → Bytes) where
  unfoldable pub set_number : Bytes → (ℤ → LineContext) → OptionMap → LineContext → OptionsRead
  unfolding atoi
  set_number val assign options ltx = elim (atoi val) [
    | none ↦ options_error (atoi_error val) options ltx
    | some i ↦ options_read options (assign i)
  ]

  unfoldable pub set_option : Bytes → Bytes → OptionMap → LineContext → OptionsRead
  unfolding set_number str_eq insert
  set_option key val options ltx =
      if str_eq key (codes "before")
      then set_number val (λ i. record ltx { before_context = i }) options ltx
      else if str_eq key (codes "after")
      then set_number val (λ i. record ltx { after_context = i }) options ltx
      else if str_eq key (codes "max")
      then set_number val (λ i. record ltx { max_count = i }) options ltx
      else options_read (insert key val options) ltx

  unfoldable pub set_decoded : Bytes → Bytes × Option Bytes → OptionMap → LineContext → OptionsRead
  unfolding set_option
  set_decoded key (val, none) options ltx = set_option key val options ltx
  set_decoded key (val, some err) options ltx = options_error err options ltx

  unfoldable pub set_value : Bytes → Bytes → OptionMap → LineContext → OptionsRead
  unfolding set_decoded set_option has_prefix
  set_value key val options ltx =
      if has_prefix val base64_mark
      then set_decoded key (decode_base64 (drop 7 val)) options ltx
      else set_option key val options ltx

  unfoldable pub set_pair : Bytes → Option (Bytes × Bytes) → OptionMap → LineContext → OptionsRead
  unfolding set_value
  set_pair o none options ltx =
      options_error (codes "Unable to parse options: [" ++ o ++ codes "]") options ltx
  set_pair o (some (key, val)) options ltx = set_value key val options ltx

  -- What an option leaves for the rest of the options.
  unfoldable pub then_read : OptionsRead → (OptionMap → LineContext → OptionsRead) → OptionsRead
  then_read (options_read options ltx) rest = rest options ltx
  then_read (options_error err options ltx) rest = options_error err options ltx

  unfoldable pub set_all : List Bytes → OptionMap → LineContext → OptionsRead
  unfolding set_pair then_read cut_byte
  set_all [] options ltx = options_read options ltx
  set_all (o ∷ opts) options ltx =
      then_read (set_pair o (cut_byte b'=' o) options ltx) (set_all opts)

  unfoldable pub deserialize_options : List Bytes → OptionsRead
  unfolding set_all trim_space split
  deserialize_options (opt ∷ []) =
      if is_empty (trim_space opt)
      then options_read [] no_context
      else set_all (split (trim_space opt) b':') [] no_context
  deserialize_options opts = set_all opts [] no_context
