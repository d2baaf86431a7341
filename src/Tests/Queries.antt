-- ===== src/Tests/Queries.antt =====
-- internal/mapr: queries parsed, and their clauses interpreted.
use dtail.Base.{
  ℕ, ◌+◌, ◌≡◌, refl, any, true, false, List, [], ◌∷◌, ◌++◌, none, some, is_some, not, ◌&&◌, ltb,
  leb, ◌==◌, Bytes, codes, str_eq, join, split, split_onto, fields, fields_onto, to_lower, to_upper,
  lower_byte, upper_byte, replace_byte, contains, has_prefix, has_suffix, parse_uint, parse_digits,
  atoi, pos,
}
use dtail.Base.Maps.{lookup}
use dtail.Mapr.Float.{Float64}
use dtail.Mapr.Result.{ok}
use dtail.Mapr.Token.{
  Token, barewords, tokenize, tokenize_parts, tokens_consume, tokens_consume_str,
  tokens_consume_optional, is_keyword, is_escaped, consume_one, strs,
}
use dtail.Mapr.Token.Consume.{StartsClause, end, quoted, plain, tokens_consume-Given}
use dtail.Mapr.Select.{
  count, last, make_select_conditions, parse_select, aggregate_call, aggregated, aggregation,
}
use dtail.Mapr.Where.{WhereCondition, Fields, field, string, string_eq, string_ne, where_clause}
use dtail.Mapr.Where.Clause.{has_both, ne, where_clause-negation}
use dtail.Mapr.Funcs.{new_function_stack}
use dtail.Mapr.Funcs.Stack.{new_function_stack-is_some}
use dtail.Mapr.Set.{SetCondition, set_loop, set_clause, parse_set, init_set_condition, set_value}
use dtail.Mapr.Set.Frame.{set_loop-set_clause}
use dtail.Mapr.Query.{
  Query, new_query, finished, checked, default_table, default_group_by, order_field_is_valid,
  parse_tokens, round_of, select_clause, from_clause, group_clause, order_clause, ordered,
  limit_clause,
}
use dtail.Mapr.Query.Ends.{new_query-is_some}
use dtail.Mapr.Query.WellFormed.{IsWellFormed, new_query-IsWellFormed}

-- Numbers without a sign or a fraction in place of floats.
abbrev pub nat_float : Float64
nat_float = record {
  Value = ℕ;
  parse_float = parse_uint;
  of_nat = λ n. n;
  add = λ a b. a + b;
  eq = λ a b. a == b;
  lt = ltb;
  le = leb;
}

abbrev query_str : Bytes
query_str = codes "SELECT count(a),b FROM t GROUP BY b RORDER BY count(a) LIMIT 3"

abbrev query : Query nat_float
query = record {
  select =
      (record { field = codes "a"; field_storage = codes "count(a)"; operation = count })
      ∷ (record { field = codes "b"; field_storage = codes "b"; operation = last })
      ∷ [];
  table = codes "T";
  conditions = [];
  set = [];
  group_by = codes "b" ∷ [];
  order_by = codes "count(a)";
  reverse_order = true;
  group_key = codes "b";
  interval = pos 5000000000;
  limit = pos 3;
  outfile = none;
  raw_query = query_str;
  tokens = tokenize query_str;
  log_format = [];
}

new_query-query : new_query nat_float query_str ≡ some (ok (some query))
unfolding new_query finished checked default_table default_group_by order_field_is_valid
    parse_tokens round_of select_clause from_clause group_clause order_clause ordered limit_clause
    tokenize tokenize_parts barewords tokens_consume tokens_consume_str tokens_consume_optional
    is_keyword consume_one is_escaped strs make_select_conditions parse_select aggregate_call
    aggregated aggregation str_eq split split_onto fields fields_onto to_lower to_upper lower_byte
    upper_byte replace_byte contains has_prefix atoi parse_digits join
new_query-query = refl

new_query-is_some_example : is_some (new_query nat_float query_str) ≡ true
new_query-is_some_example = new_query-is_some nat_float query_str

new_query-IsWellFormed_example : IsWellFormed nat_float query
new_query-IsWellFormed_example = new_query-IsWellFormed nat_float query_str query new_query-query

abbrev bareword : Bytes → Token
bareword s = record { str = s; is_bareword = true; quotes_stripped = false }

-- A quoted keyword is a field's name; the table is not read.
abbrev clause_tokens : List Token
clause_tokens = barewords (codes "a" ∷ codes "`from`" ∷ [])

abbrev rest_tokens : List Token
rest_tokens = barewords (codes "from" ∷ codes "t" ∷ [])

no_keyword : any is_keyword clause_tokens ≡ false
unfolding barewords is_keyword to_lower lower_byte str_eq
no_keyword = refl

from-StartsClause : StartsClause rest_tokens
unfolding barewords is_keyword to_lower lower_byte str_eq
from-StartsClause = refl

tokens_consume-Given_example : tokens_consume (clause_tokens ++ rest_tokens) ≡ (
  rest_tokens,
  bareword (codes "a") ∷ (record (bareword (codes "from")) { quotes_stripped = true }) ∷ [],
)
unfolding barewords
tokens_consume-Given_example =
    tokens_consume-Given clause_tokens rest_tokens no_keyword from-StartsClause (
      plain (bareword (codes "a")) b'a' [] refl refl
        (quoted (bareword (codes "`from`")) (codes "from") refl end))

new_function_stack-is_some_example :
    is_some (new_function_stack (codes "md5sum(maskdigits(x))")) ≡ true
new_function_stack-is_some_example = new_function_stack-is_some (codes "md5sum(maskdigits(x))")

abbrev line : Fields
line = (codes "a", codes "x") ∷ (codes "b", codes "y") ∷ []

abbrev condition : WhereCondition nat_float
condition = record {
  l_type = field;
  l_string = codes "a";
  l_float = 0;
  operation = string_eq;
  r_type = string;
  r_string = codes "x";
  r_float = 0;
}

abbrev other_condition : WhereCondition nat_float
other_condition = record condition { l_string = codes "b"; r_string = codes "y" }

where_clause-negation_example :
    where_clause nat_float line
      ((other_condition ∷ []) ++ record condition { operation = string_ne } ∷ [])
    ≡ (where_clause nat_float line ((other_condition ∷ []) ++ [])
        && has_both nat_float line string_eq condition
        && not (where_clause nat_float line (condition ∷ [])))
where_clause-negation_example =
    where_clause-negation nat_float line (other_condition ∷ []) [] condition ne

abbrev set_tokens : List Token
set_tokens = barewords (codes "$c" ∷ codes "=" ∷ codes "a" ∷ [])

abbrev set_conditions : List (SetCondition nat_float)
set_conditions =
    (record {
      l_string = codes "$c";
      r_type = field;
      r_string = codes "a";
      r_float = 0;
      functions = [];
    })
    ∷ []

set_loop-set_tokens : set_loop nat_float 3 set_tokens ≡ some (ok set_conditions)
unfolding set_loop parse_set init_set_condition set_value barewords tokens_consume_optional str_eq
    has_prefix has_suffix parse_uint parse_digits
set_loop-set_tokens = refl

b-IsField : has_prefix (codes "b") (codes "$") ≡ false
unfolding has_prefix
b-IsField = refl

set_loop-set_clause_example :
    lookup (codes "b") (set_clause nat_float (λ s. s) set_conditions line) ≡ lookup (codes "b") line
set_loop-set_clause_example =
    set_loop-set_clause nat_float (λ s. s) 3 set_tokens set_conditions line (codes "b")
      set_loop-set_tokens b-IsField
