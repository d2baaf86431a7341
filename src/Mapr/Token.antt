-- ===== src/Mapr/Token.antt =====
-- internal/mapr/token.go: the tokens of a query, and how a clause takes its own.
pub mod Consume
use dtail.Base.{
  ℕ, ◌+◌, ◌-◌, Bool, true, false, not, ◌&&◌, ◌||◌, List, [], ◌∷◌, ◌++◌, Option, none, some, leb,
  ltb, ◌==◌, if◌then◌else◌, any, length, take, drop, Bytes, codes, str_eq, split, fields, to_lower,
  replace_byte, get_or,
}

pub record Token : Type 0 where
  pub str : Bytes
  pub is_bareword : Bool
  pub quotes_stripped : Bool

abbrev pub keywords : List Bytes
keywords =
    codes "select"
    ∷ codes "from"
    ∷ codes "where"
    ∷ codes "set"
    ∷ codes "group"
    ∷ codes "rorder"
    ∷ codes "order"
    ∷ codes "interval"
    ∷ codes "limit"
    ∷ codes "outfile"
    ∷ codes "logformat"
    ∷ []

unfoldable pub barewords : List Bytes → List Token
barewords [] = []
barewords (s ∷ ss) =
    (record { str = s; is_bareword = true; quotes_stripped = false }) ∷ barewords ss

-- The parts between the quotes; the flag is `i%2 == 0`, which holds outside of quotes.
unfoldable pub tokenize_parts : Bool → List Bytes → List Token
unfolding barewords replace_byte fields
tokenize_parts even [] = []
tokenize_parts true (part ∷ parts) =
    barewords (fields (replace_byte b',' b' ' part)) ++ tokenize_parts false parts
tokenize_parts false (part ∷ parts) =
    (record { str = part; is_bareword = false; quotes_stripped = false })
    ∷ tokenize_parts true parts

unfoldable pub tokenize : Bytes → List Token
unfolding tokenize_parts split
tokenize query_str = tokenize_parts true (split query_str b'"')

unfoldable pub is_keyword : Token → Bool
unfolding to_lower str_eq
is_keyword t = t.is_bareword && any (str_eq (to_lower t.str)) keywords

-- Whether a token is written between backquotes.
unfoldable pub is_escaped : Bytes → Bool
is_escaped s = leb 2 (length s) && get_or s 0 0 == b'`' && get_or s (length s - 1) 0 == b'`'

-- What a clause is given of one token: nothing of an empty one, and a field name without its
-- backquotes, so that keywords can be field names.
unfoldable pub consume_one : Token → List Token
unfolding is_escaped
consume_one t =
    if length t.str == 0
    then []
    else if is_escaped t.str
    then (record {
      str = take (length t.str - 2) (drop 1 t.str);
      is_bareword = t.is_bareword;
      quotes_stripped = true;
    })
      ∷ []
    else t ∷ []

-- The tokens left, from the next keyword on, and those consumed.
unfoldable pub tokens_consume : List Token → List Token × List Token
tokens_consume [] = ([], [])
tokens_consume (t ∷ ts) =
    let (rest, found) = tokens_consume ts in
    if is_keyword t then (t ∷ ts, []) else (rest, consume_one t ++ found)

unfoldable pub strs : List Token → List Bytes
strs [] = []
strs (t ∷ ts) = t.str ∷ strs ts

unfoldable pub tokens_consume_str : List Token → List Token × List Bytes
unfolding strs
tokens_consume_str tokens = let (rest, found) = tokens_consume tokens in (rest, strs found)

unfoldable pub tokens_consume_optional : List Token → Bytes → List Token
unfolding str_eq to_lower
tokens_consume_optional [] optional = []
tokens_consume_optional (t ∷ ts) optional =
    if str_eq (to_lower t.str) (to_lower optional) then ts else t ∷ ts
