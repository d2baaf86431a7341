-- ===== src/Mapr/Query/Ends.antt =====
-- internal/mapr/query.go, wherecondition.go, setcondition.go: the parser's loops end, which is to
-- say that the fuel of each is enough.
use dtail.Base.{
  ℕ, zero, suc, ◌≤◌, ◌≡◌, refl, Bool, true, false, List, [], ◌∷◌, Option, none, some, is_some,
  arith, leb, length, Bytes, codes, to_lower,
}
use dtail.Mapr.Float.{Float64}
use dtail.Mapr.Result.{Result, ok, err}
use dtail.Mapr.Funcs.Stack.{new_function_stack-is_some}
use dtail.Mapr.Token.{Token, tokenize, tokens_consume, tokens_consume_optional, tokens_consume_str}
use dtail.Mapr.Token.Consume.{length-tokens_consume, length-tokens_consume_optional}
use dtail.Mapr.Where.{where_loop}
use dtail.Mapr.Set.{SetCondition, set_value, parse_set, set_loop}
use dtail.Mapr.Query.{
  Query, Round, from_clause, select_clause, conditions_clause, variables_clause, group_clause,
  ordered, order_clause, interval_clause, limit_clause, outfile_clause, log_format_clause, round_of,
  parse_tokens, finished, with_variables, next_round, initial_query, new_query,
}

module _ (fl : Float64) where
  where_round-is_some :
      (fuel : ℕ) (l o r : Token) (ts : List Token)
      → is_some (where_loop fl fuel (tokens_consume_optional ts (codes "and"))) ≡ true
      → is_some (where_loop fl (suc fuel) (l ∷ (o ∷ (r ∷ ts)))) ≡ true
  unfolding where_loop
  where_round-is_some fuel l o r ts ih = ground (arith, ih)

  pub where_loop-is_some :
      (fuel : ℕ) (ts : List Token) → length ts ≤ fuel → is_some (where_loop fl fuel ts) ≡ true
  unfolding where_loop
  where_loop-is_some fuel [] h = refl
  where_loop-is_some zero (t ∷ ts) h = ground (arith, h)
  where_loop-is_some (suc fuel) (l ∷ (o ∷ (r ∷ ts))) h = where_round-is_some fuel l o r ts (
      where_loop-is_some fuel (tokens_consume_optional ts (codes "and"))
        (omega (arith, length-tokens_consume_optional ts (codes "and"))))
  where_loop-is_some (suc fuel) (l ∷ (o ∷ [])) h = refl
  where_loop-is_some (suc fuel) (l ∷ []) h = refl

  parse_set-is_some : (l o r : Token) → is_some (parse_set fl l o r) ≡ true
  unfolding parse_set set_value
  parse_set-is_some l o r = ground (arith, new_function_stack-is_some r.str)

  set_round-is_some :
      (fuel : ℕ) (l o r : Token) (ts : List Token)
      → is_some (set_loop fl fuel (tokens_consume_optional ts (codes ","))) ≡ true
      → is_some (set_loop fl (suc fuel) (l ∷ (o ∷ (r ∷ ts)))) ≡ true
  unfolding set_loop
  set_round-is_some fuel l o r ts ih = ground (arith, parse_set-is_some l o r, ih)

  pub set_loop-is_some :
      (fuel : ℕ) (ts : List Token) → length ts ≤ fuel → is_some (set_loop fl fuel ts) ≡ true
  unfolding set_loop
  set_loop-is_some fuel [] h = refl
  set_loop-is_some zero (t ∷ ts) h = ground (arith, h)
  set_loop-is_some (suc fuel) (l ∷ (o ∷ (r ∷ ts))) h = set_round-is_some fuel l o r ts (
      set_loop-is_some fuel (tokens_consume_optional ts (codes ","))
        (omega (arith, length-tokens_consume_optional ts (codes ","))))
  set_loop-is_some (suc fuel) (l ∷ (o ∷ [])) h = refl
  set_loop-is_some (suc fuel) (l ∷ []) h = refl

  -- The fuel of a round is enough, and the round leaves at most `n` tokens.
  abbrev pub leaves : ℕ → Round fl → Bool
  leaves n none = false
  leaves n (some (err e)) = true
  leaves n (some (ok (rest, q))) = leb (length rest) n

  select_clause-leaves :
      (n : ℕ) (found : List Token × List Token) (q : Query fl)
      → length found.0 ≤ n
      → leaves n (select_clause fl found q) ≡ true
  unfolding select_clause
  select_clause-leaves n (rest, found) q h = ground (arith, h)

  from_clause-leaves :
      (n : ℕ) (found : List Token × List Token) (q : Query fl)
      → length found.0 ≤ n
      → leaves n (from_clause fl found q) ≡ true
  unfolding from_clause
  from_clause-leaves n (rest, []) q h = ground (arith, h)
  from_clause-leaves n (rest, t ∷ []) q h = ground (arith, h)
  from_clause-leaves n (rest, t ∷ (u ∷ ts)) q h = ground (arith, h)

  conditions_clause-leaves :
      (n : ℕ) (found : List Token × List Token) (q : Query fl)
      → length found.0 ≤ n
      → leaves n (conditions_clause fl found q) ≡ true
  unfolding conditions_clause
  conditions_clause-leaves n (rest, found) q h =
      ground (arith, h, where_loop-is_some (length found) found (omega arith))

  with_variables-leaves :
      (n : ℕ) (rest : List Token) (q : Query fl) (r : Option (Result (List (SetCondition fl))))
      → length rest ≤ n
      → is_some r ≡ true
      → leaves n (with_variables fl rest q r) ≡ true
  with_variables-leaves n rest q none h e = cc
  with_variables-leaves n rest q (some (err x)) h e = refl
  with_variables-leaves n rest q (some (ok cs)) h e = ground (arith, h)

  variables_clause-leaves :
      (n : ℕ) (found : List Token × List Token) (q : Query fl)
      → length found.0 ≤ n
      → leaves n (variables_clause fl found q) ≡ true
  unfolding variables_clause
  variables_clause-leaves n (rest, found) q h =
      with_variables-leaves n rest q (set_loop fl (length found) found) h
        (set_loop-is_some (length found) found (omega arith))

  group_clause-leaves :
      (n : ℕ) (ts : List Token) (q : Query fl)
      → length ts ≤ n
      → leaves n (group_clause fl ts q) ≡ true
  unfolding group_clause tokens_consume_str
  group_clause-leaves n [] q h = refl
  group_clause-leaves n (t ∷ ts) q h = ground (arith, h, length-tokens_consume (t ∷ ts))

  order_clause-leaves :
      (n : ℕ) (reverse : Bool) (ts : List Token) (q : Query fl)
      → length ts ≤ n
      → leaves n (order_clause fl reverse ts q) ≡ true
  unfolding order_clause ordered
  order_clause-leaves n reverse [] q h = refl
  order_clause-leaves n reverse (t ∷ ts) q h = ground (arith, h, length-tokens_consume (t ∷ ts))

  interval_clause-leaves :
      (n : ℕ) (found : List Token × List Token) (q : Query fl)
      → length found.0 ≤ n
      → leaves n (interval_clause fl found q) ≡ true
  unfolding interval_clause
  interval_clause-leaves n (rest, []) q h = ground (arith, h)
  interval_clause-leaves n (rest, t ∷ ts) q h = ground (arith, h)

  limit_clause-leaves :
      (n : ℕ) (found : List Token × List Token) (q : Query fl)
      → length found.0 ≤ n
      → leaves n (limit_clause fl found q) ≡ true
  unfolding limit_clause
  limit_clause-leaves n (rest, []) q h = ground (arith, h)
  limit_clause-leaves n (rest, t ∷ ts) q h = ground (arith, h)

  outfile_clause-leaves :
      (n : ℕ) (found : List Token × List Token) (q : Query fl)
      → length found.0 ≤ n
      → leaves n (outfile_clause fl found q) ≡ true
  unfolding outfile_clause
  outfile_clause-leaves n (rest, []) q h = ground (arith, h)
  outfile_clause-leaves n (rest, t ∷ []) q h = ground (arith, h)
  outfile_clause-leaves n (rest, t ∷ (u ∷ [])) q h = ground (arith, h)
  outfile_clause-leaves n (rest, t ∷ (u ∷ (v ∷ ts))) q h = ground (arith, h)

  log_format_clause-leaves :
      (n : ℕ) (found : List Token × List Token) (q : Query fl)
      → length found.0 ≤ n
      → leaves n (log_format_clause fl found q) ≡ true
  unfolding log_format_clause
  log_format_clause-leaves n (rest, []) q h = ground (arith, h)
  log_format_clause-leaves n (rest, t ∷ ts) q h = ground (arith, h)

  round_of-leaves :
      (keyword : Bytes) (t : Token) (ts : List Token) (q : Query fl)
      → leaves (length ts) (round_of fl keyword t ts q) ≡ true
  unfolding round_of
  round_of-leaves keyword t ts q =
      let by_ = tokens_consume_optional ts (codes "by") in
      ground (
        arith,
        select_clause-leaves (length ts) (tokens_consume ts) q (length-tokens_consume ts),
        from_clause-leaves (length ts) (tokens_consume ts) q (length-tokens_consume ts),
        conditions_clause-leaves (length ts) (tokens_consume ts) q (length-tokens_consume ts),
        variables_clause-leaves (length ts) (tokens_consume ts) q (length-tokens_consume ts),
        group_clause-leaves (length ts) by_ q (length-tokens_consume_optional ts (codes "by")),
        order_clause-leaves (length ts) true by_ q (length-tokens_consume_optional ts (codes "by")),
        order_clause-leaves (length ts) false by_ q
            (length-tokens_consume_optional ts (codes "by")),
        interval_clause-leaves (length ts) (tokens_consume ts) q (length-tokens_consume ts),
        limit_clause-leaves (length ts) (tokens_consume ts) q (length-tokens_consume ts),
        outfile_clause-leaves (length ts) (tokens_consume ts) q (length-tokens_consume ts),
        log_format_clause-leaves (length ts) (tokens_consume ts) q (length-tokens_consume ts),
      )

  next_round-is_some :
      (n : ℕ) (loop : List Token → Query fl → Option (Result (Query fl))) (r : Round fl)
      → ((rest : List Token) (q : Query fl) → length rest ≤ n → is_some (loop rest q) ≡ true)
      → leaves n r ≡ true
      → is_some (next_round fl loop r) ≡ true
  next_round-is_some n loop none ih h = cc
  next_round-is_some n loop (some (err x)) ih h = refl
  next_round-is_some n loop (some (ok (rest, q))) ih h = ih rest q (ground (arith, h))

  leaves_mono : (m n : ℕ) (r : Round fl) → m ≤ n → leaves m r ≡ true → leaves n r ≡ true
  leaves_mono m n none l h = h
  leaves_mono m n (some (err x)) l h = refl
  leaves_mono m n (some (ok (rest, q))) l h = ground (arith, h)

  parse_round-is_some :
      (fuel : ℕ) (t : Token) (ts : List Token) (q : Query fl)
      → ((rest : List Token) (q' : Query fl)
          → length rest ≤ fuel
          → is_some (parse_tokens fl fuel rest q') ≡ true)
      → length ts ≤ fuel
      → is_some (parse_tokens fl (suc fuel) (t ∷ ts) q) ≡ true
  unfolding parse_tokens
  parse_round-is_some fuel t ts q ih h =
      next_round-is_some fuel (parse_tokens fl fuel) (round_of fl (to_lower t.str) t ts q) ih
        (leaves_mono (length ts) fuel _ h (round_of-leaves (to_lower t.str) t ts q))

  pub parse_tokens-is_some :
      (fuel : ℕ) (ts : List Token) (q : Query fl)
      → length ts ≤ fuel
      → is_some (parse_tokens fl fuel ts q) ≡ true
  parse_tokens-is_some fuel [] q h = unfold parse_tokens in refl
  parse_tokens-is_some zero (t ∷ ts) q h = ground (arith, h)
  parse_tokens-is_some (suc fuel) (t ∷ ts) q h =
      parse_round-is_some fuel t ts q (parse_tokens-is_some fuel) (omega arith)

  finished-is_some :
      (r : Option (Result (Query fl))) → is_some r ≡ true → is_some (finished fl r) ≡ true
  unfolding finished
  finished-is_some r h = ground (arith, h)

  -- Parsing any string ends, in a query, in no query (of the empty string), or in an error: the
  -- fuel of every loop of the parser is enough.
  pub new_query-is_some : (query_str : Bytes) → is_some (new_query fl query_str) ≡ true
  new_query-is_some [] = unfold new_query in refl
  new_query-is_some (c ∷ cs) =
      let tokens = tokenize (c ∷ cs) in
      unfold new_query in
      finished-is_some (parse_tokens fl (length tokens) tokens (initial_query fl (c ∷ cs) tokens)) (
        parse_tokens-is_some (length tokens) tokens (initial_query fl (c ∷ cs) tokens)
          (omega arith))
