-- ===== src/Mapr/Query.antt =====
-- internal/mapr/query.go: the parser of mapreduce queries.
pub mod Ends
pub mod WellFormed
use dtail.Base.{
  ℕ, zero, suc, ◌+◌, ◌-◌, ◌*◌, ◌%◌, ◌^◌, Bool, true, false, not, ◌&&◌, List, [], ◌∷◌, Option, none,
  some, ltb, ◌==◌, if◌then◌else◌, any, length, Bytes, codes, str_eq, is_empty, join, to_lower,
  to_upper, atoi, ℤ, pos, negsuc,
}
use dtail.Mapr.Float.{Float64}
use dtail.Mapr.Result.{
  Result, ok, err, QueryError, no_select_field, order_not_selected, no_table_name, many_table_names,
  unexpected_end, not_a_number, bad_outfile, unexpected_keyword,
}
use dtail.Mapr.Token.{Token, tokenize, tokens_consume, tokens_consume_str, tokens_consume_optional}
use dtail.Mapr.Select.{SelectCondition, make_select_conditions}
use dtail.Mapr.Where.{WhereCondition, where_loop}
use dtail.Mapr.Set.{SetCondition, set_loop}

pub record Outfile : Type 0 where
  pub file_path : Bytes
  pub append_mode : Bool

-- The 64 bits of a time.Duration, in two's complement.
unfoldable pub wrap_i64 : ℤ → ℤ
wrap_i64 (pos n) = let m = n % 2 ^ 64 in if ltb m (2 ^ 63) then pos m else negsuc (2 ^ 64 - 1 - m)
wrap_i64 (negsuc n) =
    let m = 2 ^ 64 - 1 - n % 2 ^ 64 in if ltb m (2 ^ 63) then pos m else negsuc (2 ^ 64 - 1 - m)

-- time.Second * time.Duration(i), in nanoseconds
unfoldable pub seconds : ℤ → ℤ
unfolding wrap_i64
seconds (pos n) = wrap_i64 (pos (1000000000 * n))
seconds (negsuc n) = wrap_i64 (negsuc (1000000000 * suc n - 1))

unfoldable pub default_group_by : SelectCondition → List Bytes → List Bytes
default_group_by sc [] = sc.field ∷ []
default_group_by sc (g ∷ gs) = g ∷ gs

-- Whether the field of the order clause is one of the storages of the select clause.
unfoldable pub order_field_is_valid : Bytes → List SelectCondition → Bool
unfolding str_eq
order_field_is_valid order_by [] = false
order_field_is_valid order_by (sc ∷ scs) =
    if str_eq order_by sc.field_storage then true else order_field_is_valid order_by scs

module _ (fl : Float64) where
  pub record Query : Type 0 where
    pub select : List SelectCondition
    pub table : Bytes
    pub conditions : List (WhereCondition fl)
    pub set : List (SetCondition fl)
    pub group_by : List Bytes
    pub order_by : Bytes
    pub reverse_order : Bool
    pub group_key : Bytes
    pub interval : ℤ
    pub limit : ℤ
    pub outfile : Option Outfile
    pub raw_query : Bytes
    pub tokens : List Token
    pub log_format : Bytes

  -- The query that NewQuery starts from.
  abbrev pub initial_query : Bytes → List Token → Query
  initial_query query_str tokens = record {
    select = [];
    table = [];
    conditions = [];
    set = [];
    group_by = [];
    order_by = [];
    reverse_order = false;
    group_key = [];
    interval = pos 5000000000;
    limit = negsuc 0;
    outfile = none;
    raw_query = query_str;
    tokens = tokens;
    log_format = [];
  }

  -- What one round of the loop of parseTokens leaves, unless the fuel of a clause ran out.
  abbrev pub Round : Type 0
  Round = Option (Result (List Token × Query))

  unfoldable pub from_clause : List Token × List Token → Query → Round
  unfolding to_upper
  from_clause (rest, []) q = some (err no_table_name)
  from_clause (rest, t ∷ []) q = some (ok (rest, record q { table = to_upper t.str }))
  from_clause (rest, t ∷ (u ∷ ts)) q = some (err many_table_names)

  unfoldable pub select_clause : List Token × List Token → Query → Round
  unfolding make_select_conditions
  select_clause (rest, found) q = some (elim (make_select_conditions found) [
    | err e ↦ err e
    | ok conditions ↦ ok (rest, record q { select = conditions })
  ])

  unfoldable pub conditions_clause : List Token × List Token → Query → Round
  unfolding where_loop
  conditions_clause (rest, found) q = elim (where_loop fl (length found) found) [
    | none ↦ none
    | some (err e) ↦ some (err e)
    | some (ok conditions) ↦ some (ok (rest, record q { conditions = conditions }))
  ]

  abbrev pub with_variables : List Token → Query → Option (Result (List (SetCondition fl))) → Round
  with_variables rest q none = none
  with_variables rest q (some (err e)) = some (err e)
  with_variables rest q (some (ok conditions)) = some (ok (rest, record q { set = conditions }))

  unfoldable pub variables_clause : List Token × List Token → Query → Round
  unfolding set_loop
  variables_clause (rest, found) q = with_variables rest q (set_loop fl (length found) found)

  -- The tokens behind "group" and the optional "by".
  unfoldable pub group_clause : List Token → Query → Round
  unfolding tokens_consume_str join
  group_clause [] q = some (err unexpected_end)
  group_clause (t ∷ ts) q =
      let (rest, found) = tokens_consume_str (t ∷ ts) in
      some (ok (rest, record q { group_by = found; group_key = join found b',' }))

  -- The field of an order clause; `reverse` is set by "rorder" only.
  unfoldable pub ordered : Bool → List Token × List Token → Query → Round
  ordered reverse (rest, []) q = some (err unexpected_end)
  ordered reverse (rest, t ∷ ts) q = some (
      ok (
        rest,
        record q { order_by = t.str; reverse_order = if reverse then true else q.reverse_order },
      ))

  unfoldable pub order_clause : Bool → List Token → Query → Round
  unfolding ordered tokens_consume
  order_clause reverse [] q = some (err unexpected_end)
  order_clause reverse (t ∷ ts) q = ordered reverse (tokens_consume (t ∷ ts)) q

  unfoldable pub interval_clause : List Token × List Token → Query → Round
  unfolding atoi seconds
  interval_clause (rest, []) q = some (ok (rest, q))
  interval_clause (rest, t ∷ ts) q = some (elim (atoi t.str) [
    | none ↦ err (not_a_number t.str)
    | some i ↦ ok (rest, record q { interval = seconds i })
  ])

  unfoldable pub limit_clause : List Token × List Token → Query → Round
  unfolding atoi
  limit_clause (rest, []) q = some (err unexpected_end)
  limit_clause (rest, t ∷ ts) q = some (elim (atoi t.str) [
    | none ↦ err (not_a_number t.str)
    | some i ↦ ok (rest, record q { limit = i })
  ])

  unfoldable pub outfile_clause : List Token × List Token → Query → Round
  unfolding str_eq
  outfile_clause (rest, t ∷ []) q =
      some
        (ok (rest, record q { outfile = some (record { file_path = t.str; append_mode = false }) }))
  outfile_clause (rest, t ∷ (u ∷ [])) q = some (
      if str_eq t.str (codes "append")
      then ok (rest, record q { outfile = some (record { file_path = u.str; append_mode = true }) })
      else err bad_outfile)
  outfile_clause (rest, _) q = some (err bad_outfile)

  unfoldable pub log_format_clause : List Token × List Token → Query → Round
  log_format_clause (rest, []) q = some (err unexpected_end)
  log_format_clause (rest, t ∷ ts) q = some (ok (rest, record q { log_format = t.str }))

  -- The switch of parseTokens over the first token, in lower case.
  unfoldable pub round_of : Bytes → Token → List Token → Query → Round
  unfolding str_eq from_clause select_clause conditions_clause variables_clause group_clause
      order_clause interval_clause limit_clause outfile_clause log_format_clause tokens_consume
      tokens_consume_optional
  round_of keyword t ts q =
      if str_eq keyword (codes "select")
      then select_clause (tokens_consume ts) q
      else if str_eq keyword (codes "from")
      then from_clause (tokens_consume ts) q
      else if str_eq keyword (codes "where")
      then conditions_clause (tokens_consume ts) q
      else if str_eq keyword (codes "set")
      then variables_clause (tokens_consume ts) q
      else if str_eq keyword (codes "group")
      then group_clause (tokens_consume_optional ts (codes "by")) q
      else if str_eq keyword (codes "rorder")
      then order_clause true (tokens_consume_optional ts (codes "by")) q
      else if str_eq keyword (codes "order")
      then order_clause false (tokens_consume_optional ts (codes "by")) q
      else if str_eq keyword (codes "interval")
      then interval_clause (tokens_consume ts) q
      else if str_eq keyword (codes "limit")
      then limit_clause (tokens_consume ts) q
      else if str_eq keyword (codes "outfile")
      then outfile_clause (tokens_consume ts) q
      else if str_eq keyword (codes "logformat")
      then log_format_clause (tokens_consume ts) q
      else some (err (unexpected_keyword t.str))

  -- The next round, or the end with an error.
  abbrev pub next_round :
      (List Token → Query → Option (Result Query)) → Round → Option (Result Query)
  next_round loop none = none
  next_round loop (some (err e)) = some (err e)
  next_round loop (some (ok (rest, q))) = loop rest q

  -- The loop of parseTokens. Each round takes at least its keyword, so the number of tokens is
  -- fuel enough; `none` means that some fuel ran out.
  unfoldable pub parse_tokens : ℕ → List Token → Query → Option (Result Query)
  unfolding round_of to_lower
  parse_tokens fuel [] q = some (ok q)
  parse_tokens zero (t ∷ ts) q = none
  parse_tokens (suc fuel) (t ∷ ts) q =
      next_round (parse_tokens fuel) (round_of (to_lower t.str) t ts q)

  -- What Query.parse does behind parseTokens.
  unfoldable pub checked : List SelectCondition → Query → Result Query
  checked [] q = err no_select_field
  checked (sc ∷ scs) q =
      if not (is_empty q.order_by) && not (order_field_is_valid q.order_by (sc ∷ scs))
      then err (order_not_selected q.order_by)
      else ok (record q { group_by = default_group_by sc q.group_by })

  unfoldable pub default_table : Query → Query
  unfolding str_eq
  default_table q =
      if str_eq q.log_format (codes "csv") && is_empty q.table
      then record q { table = codes "." }
      else q

  unfoldable pub finished : Option (Result Query) → Option (Result (Option Query))
  unfolding checked default_table
  finished none = none
  finished (some (err e)) = some (err e)
  finished (some (ok q)) =
      some (elim (checked q.select q) [ err e ↦ err e | ok q' ↦ ok (some (default_table q')) ])

  -- NewQuery. The empty string is no query, and no error.
  unfoldable pub new_query : Bytes → Option (Result (Option Query))
  unfolding parse_tokens finished tokenize
  new_query [] = some (ok none)
  new_query (c ∷ cs) =
      let tokens = tokenize (c ∷ cs) in
      finished (parse_tokens (length tokens) tokens (initial_query (c ∷ cs) tokens))
