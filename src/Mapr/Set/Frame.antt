-- ===== src/Mapr/Set/Frame.antt =====
-- internal/mapr/setclause.go: what the set clause leaves alone.
use dtail.Base.{
  ℕ, zero, suc, ◌≡◌, refl, Bool, true, false, List, [], ◌∷◌, Option, none, some, arith, Bytes,
  codes, has_prefix, str_eq, str_eq_iff, ◌&&◌, ◌∙◌, sym, ap,
}
use dtail.Base.Maps.{lookup, insert, lookup-insert}
use dtail.Mapr.Float.{Float64}
use dtail.Mapr.Result.{Result, ok, err}
use dtail.Mapr.Token.{Token, tokens_consume_optional}
use dtail.Mapr.Where.{Fields}
use dtail.Mapr.Set.{
  SetCondition, init_set_condition, set_value, parse_set, set_loop, set_clause, assigned,
}

module _ (fl : Float64) where
  abbrev pub is_variable : SetCondition fl → Bool
  is_variable sc = has_prefix sc.l_string (codes "$")

  abbrev pub all_variables : List (SetCondition fl) → Bool
  all_variables [] = true
  all_variables (sc ∷ scs) = is_variable sc && all_variables scs

  -- Of a result, when there is one.
  abbrev pub result_all {ℓ} : {A : Type ℓ} → (A → Bool) → Result A → Bool
  result_all p (ok a) = p a
  result_all p (err e) = true

  abbrev pub parsed_all {ℓ} : {A : Type ℓ} → (A → Bool) → Option (Result A) → Bool
  parsed_all p (some r) = result_all p r
  parsed_all p none = true

  init_set_condition-variable :
      (l o r : Token) → result_all is_variable (init_set_condition fl l o r) ≡ true
  unfolding init_set_condition
  init_set_condition-variable l o r = ground arith

  set_value-variable :
      (sc : SetCondition fl) (r : Token)
      → is_variable sc ≡ true
      → parsed_all is_variable (set_value fl sc r) ≡ true
  unfolding set_value
  set_value-variable sc r h = ground (arith, h)

  value_of-variable :
      (res : Result (SetCondition fl)) (r : Token)
      → result_all is_variable res ≡ true
      → parsed_all is_variable (elim res [ err e ↦ some (err e) | ok sc ↦ set_value fl sc r ])
        ≡ true
  value_of-variable (err e) r h = refl
  value_of-variable (ok sc) r h = set_value-variable sc r h

  parse_set-variable : (l o r : Token) → parsed_all is_variable (parse_set fl l o r) ≡ true
  unfolding parse_set
  parse_set-variable l o r =
      value_of-variable (init_set_condition fl l o r) r (init_set_condition-variable l o r)

  set_round-variables :
      (fuel : ℕ) (l o r : Token) (ts : List Token)
      → parsed_all all_variables (set_loop fl fuel (tokens_consume_optional ts (codes ","))) ≡ true
      → parsed_all all_variables (set_loop fl (suc fuel) (l ∷ (o ∷ (r ∷ ts)))) ≡ true
  unfolding set_loop
  set_round-variables fuel l o r ts ih = ground (arith, parse_set-variable l o r, ih)

  -- Each condition of a parsed set clause is on a name that begins with a dollar sign.
  pub set_loop-variables :
      (fuel : ℕ) (ts : List Token) → parsed_all all_variables (set_loop fl fuel ts) ≡ true
  unfolding set_loop
  set_loop-variables fuel [] = refl
  set_loop-variables zero (t ∷ ts) = refl
  set_loop-variables (suc fuel) (l ∷ (o ∷ (r ∷ ts))) =
      set_round-variables fuel l o r ts
        (set_loop-variables fuel (tokens_consume_optional ts (codes ",")))
  set_loop-variables (suc fuel) (l ∷ (o ∷ [])) = refl
  set_loop-variables (suc fuel) (l ∷ []) = refl

  other_name :
      (k j : Bytes)
      → has_prefix k (codes "$") ≡ false
      → has_prefix j (codes "$") ≡ true
      → str_eq j k ≡ false
  other_name k j hk hj = ground (arith, str_eq_iff j k, hk, hj)

  -- Where every condition is on a variable, what is not a variable stays as it is.
  pub lookup-set_clause :
      (md5 : Bytes → Bytes) (scs : List (SetCondition fl)) (fs : Fields) (k : Bytes)
      → all_variables scs ≡ true
      → has_prefix k (codes "$") ≡ false
      → lookup k (set_clause fl md5 scs fs) ≡ lookup k fs
  unfolding set_clause
  lookup-set_clause md5 [] fs k h hk = refl
  lookup-set_clause md5 (sc ∷ scs) fs k h hk =
      lookup-set_clause md5 scs (insert sc.l_string (assigned fl md5 sc fs) fs) k
        (ground (arith, h)) hk
      ∙ lookup-insert sc.l_string k (assigned fl md5 sc fs) fs
      ∙ rw (other_name k sc.l_string hk (ground (arith, h))) refl

  -- The set clause of a query, once parsed, changes variables only, whose names begin with a
  -- dollar sign: a log line's own field keeps its value.
  pub set_loop-set_clause :
      (md5 : Bytes → Bytes) (fuel : ℕ) (ts : List Token) (scs : List (SetCondition fl))
      (fs : Fields) (k : Bytes)
      → set_loop fl fuel ts ≡ some (ok scs)
      → has_prefix k (codes "$") ≡ false
      → lookup k (set_clause fl md5 scs fs) ≡ lookup k fs
  set_loop-set_clause md5 fuel ts scs fs k h hk =
      lookup-set_clause md5 scs fs k
        (sym (ap (parsed_all all_variables) h) ∙ set_loop-variables fuel ts) hk
