-- ===== src/Mapr/Where/Clause.antt =====
-- internal/mapr/whereclause.go: how the operators of a where clause relate.
use dtail.Base.{
  ◌≡◌, Bool, true, false, not, ◌&&◌, List, [], ◌∷◌, ◌++◌, none, some, is_some, any, arith, refl,
  Bytes, str_eq,
}
use dtail.Base.Maps.{lookup}
use dtail.Mapr.Float.{Float64}
use dtail.Mapr.Where.{
  FieldType, undef_field_type, field, string, float, function_stack, QueryOperation, string_eq,
  string_ne, string_contains, string_not_contains, string_has_prefix, string_not_has_prefix,
  string_has_suffix, string_not_has_suffix, float_eq, float_ne, is_float, Fields, WhereCondition,
  float_clause, float_value, string_clause, string_value, float_values, string_values, where_clause,
}

-- `Negates op op'`: the second is the language's negation of the first.
pub data Negates : QueryOperation → QueryOperation → Type 0 where
  ne : Negates string_eq string_ne
  lacks : Negates string_contains string_not_contains
  nhasprefix : Negates string_has_prefix string_not_has_prefix
  nhassuffix : Negates string_has_suffix string_not_has_suffix
  differs : Negates float_eq float_ne

-- A text can be had from a constant, and from the name of a field that the line has.
abbrev pub has_text : Fields → Bytes → FieldType → Bool
has_text fields s field = any (λ f. str_eq f.0 s) fields
has_text fields s string = true
has_text fields s _ = false

is_some-lookup :
    (fields : Fields) (s : Bytes) → is_some (lookup s fields) ≡ any (λ f. str_eq f.0 s) fields
unfolding lookup
is_some-lookup [] s = refl
is_some-lookup (f ∷ fields) s = ground (arith, is_some-lookup fields s)

string_value-is_some :
    (fields : Fields) (s : Bytes) (type : FieldType)
    → is_some (string_value fields s type) ≡ has_text fields s type
unfolding string_value
string_value-is_some fields s undef_field_type = refl
string_value-is_some fields s field = is_some-lookup fields s
string_value-is_some fields s string = refl
string_value-is_some fields s float = refl
string_value-is_some fields s function_stack = refl

module _ (fl : Float64) where
  -- A number can be had from a constant, and from the name of a field whose text parses as one.
  abbrev pub has_number : Fields → Bytes → FieldType → Bool
  has_number fields s float = true
  has_number fields s field = elim (lookup s fields) [
    | none ↦ false
    | some text ↦ is_some (fl.parse_float text)
  ]
  has_number fields s _ = false

  float_value-is_some :
      (fields : Fields) (s : Bytes) (f : fl.Value) (type : FieldType)
      → is_some (float_value fl fields s f type) ≡ has_number fields s type
  unfolding float_value
  float_value-is_some fields s f undef_field_type = refl
  float_value-is_some fields s f field = ground arith
  float_value-is_some fields s f string = refl
  float_value-is_some fields s f float = refl
  float_value-is_some fields s f function_stack = refl

  -- Whether the line has what an operator compares, on both sides of a condition.
  abbrev pub has_both : Fields → QueryOperation → WhereCondition fl → Bool
  has_both fields op wc = elim (is_float op) [
    | true ↦ has_number fields wc.l_string wc.l_type && has_number fields wc.r_string wc.r_type
    | false ↦ has_text fields wc.l_string wc.l_type && has_text fields wc.r_string wc.r_type
  ]

  of_texts :
      (fields : Fields) (wc : WhereCondition fl)
      → (is_some (string_value fields wc.l_string wc.l_type)
          ≡ has_text fields wc.l_string wc.l_type)
        × (is_some (string_value fields wc.r_string wc.r_type)
            ≡ has_text fields wc.r_string wc.r_type)
  of_texts fields wc = (
    string_value-is_some fields wc.l_string wc.l_type,
    string_value-is_some fields wc.r_string wc.r_type,
  )

  where_clause-negation_one :
      (fields : Fields) (wc : WhereCondition fl) {op op' : QueryOperation}
      → Negates op op'
      → where_clause fl fields (record wc { operation = op' } ∷ []) ≡ (
          has_both fields op wc && not (where_clause fl fields (record wc { operation = op } ∷ [])))
  unfolding where_clause float_values string_values string_clause float_clause
  where_clause-negation_one fields wc ne = ground (arith, of_texts fields wc)
  where_clause-negation_one fields wc lacks = ground (arith, of_texts fields wc)
  where_clause-negation_one fields wc nhasprefix = ground (arith, of_texts fields wc)
  where_clause-negation_one fields wc nhassuffix = ground (arith, of_texts fields wc)
  where_clause-negation_one fields wc differs = ground (
    arith,
    float_value-is_some fields wc.l_string wc.l_float wc.l_type,
    float_value-is_some fields wc.r_string wc.r_float wc.r_type,
  )

  where_clause-append :
      (fields : Fields) (front back : List (WhereCondition fl))
      → where_clause fl fields (front ++ back)
        ≡ (where_clause fl fields front && where_clause fl fields back)
  unfolding where_clause
  where_clause-append fields [] back = refl
  where_clause-append fields (wc ∷ front) back =
      ground (arith, where_clause-append fields front back)

  -- A line passes a where clause with the negation of a condition in it just when it passes the
  -- other conditions, has what the operator compares on both sides, a text or a number, and does not
  -- pass the condition itself.
  pub where_clause-negation :
      (fields : Fields) (front back : List (WhereCondition fl)) (wc : WhereCondition fl)
      {op op' : QueryOperation}
      → Negates op op'
      → where_clause fl fields (front ++ record wc { operation = op' } ∷ back) ≡ (
          where_clause fl fields (front ++ back)
          && has_both fields op wc
          && not (where_clause fl fields (record wc { operation = op } ∷ [])))
  where_clause-negation fields front back wc {op = op} {op' = op'} n =
      let negated : WhereCondition fl = record wc { operation = op' } in
      ground (
        arith,
        where_clause-append fields front (negated ∷ back),
        where_clause-append fields (negated ∷ []) back,
        where_clause-append fields front back,
        where_clause-negation_one fields wc n,
      )
