-- ===== src/Mapr/Where.antt =====
-- internal/mapr/wherecondition.go and whereclause.go: the where clause and its interpretation.
-- A log line's fields are an association list.
pub mod Clause
use dtail.Base.{
  ℕ, suc, Bool, true, false, not, ◌&&◌, ◌||◌, List, [], ◌∷◌, Option, none, some, is_some,
  if◌then◌else◌, Bytes, codes, str_eq, contains, has_prefix, has_suffix, to_lower,
}
use dtail.Base.Maps.{lookup}
use dtail.Mapr.Float.{Float64}
use dtail.Mapr.Result.{
  Result, ok, err, ◌>>=◌, few_where_arguments, unknown_where_operation, left_not_bareword,
  right_not_bareword,
}
use dtail.Mapr.Token.{Token, tokens_consume_optional}

pub data FieldType : Type 0 where
  undef_field_type field string float function_stack : FieldType

pub data QueryOperation : Type 0 where
  undef_query_operation string_eq string_ne string_contains string_not_contains : QueryOperation
  string_has_prefix string_not_has_prefix string_has_suffix : QueryOperation
  string_not_has_suffix float_operation : QueryOperation
  float_eq float_ne float_lt float_le float_gt float_ge : QueryOperation

-- wc.Operation > FloatOperation
abbrev pub is_float : QueryOperation → Bool
is_float float_eq = true
is_float float_ne = true
is_float float_lt = true
is_float float_le = true
is_float float_gt = true
is_float float_ge = true
is_float _ = false

-- The switch over the operator's spelling.
unfoldable pub where_operation : Bytes → Option QueryOperation
unfolding str_eq
where_operation op =
    if str_eq op (codes "==")
    then some float_eq
    else if str_eq op (codes "!=")
    then some float_ne
    else if str_eq op (codes "<")
    then some float_lt
    else if str_eq op (codes "<=")
    then some float_le
    else if str_eq op (codes "=<")
    then some float_le
    else if str_eq op (codes ">")
    then some float_gt
    else if str_eq op (codes ">=")
    then some float_ge
    else if str_eq op (codes "=>")
    then some float_ge
    else if str_eq op (codes "eq")
    then some string_eq
    else if str_eq op (codes "ne")
    then some string_ne
    else if str_eq op (codes "contains")
    then some string_contains
    else if str_eq op (codes "lacks")
    then some string_not_contains
    else if str_eq op (codes "ncontains")
    then some string_not_contains
    else if str_eq op (codes "hasprefix")
    then some string_has_prefix
    else if str_eq op (codes "nhasprefix")
    then some string_not_has_prefix
    else if str_eq op (codes "hassuffix")
    then some string_has_suffix
    else if str_eq op (codes "nhassuffix")
    then some string_not_has_suffix
    else none

abbrev pub Fields : Type 0
Fields = List (Bytes × Bytes)

module _ (fl : Float64) where
  pub record WhereCondition : Type 0 where
    pub l_type : FieldType
    pub l_string : Bytes
    pub l_float : fl.Value
    pub operation : QueryOperation
    pub r_type : FieldType
    pub r_string : Bytes
    pub r_float : fl.Value

  -- A value that parses as a number is one, any other names a field.
  abbrev pub float_side : Bytes → FieldType × fl.Value
  float_side s = elim (fl.parse_float s) [ some f ↦ (float, f) | none ↦ (field, fl.of_nat 0) ]

  abbrev pub string_side : Token → FieldType
  string_side t = if t.is_bareword then field else string

  -- whereCondition.fill, on the two outer tokens of a condition.
  unfoldable pub fill : QueryOperation → Token → Token → Result WhereCondition
  fill op l r =
      if is_float op
      then (if not l.is_bareword
          then err (left_not_bareword l.str)
          else if not r.is_bareword
          then err (right_not_bareword r.str)
          else ok (record {
            l_type = (float_side l.str).0;
            l_string = l.str;
            l_float = (float_side l.str).1;
            operation = op;
            r_type = (float_side r.str).0;
            r_string = r.str;
            r_float = (float_side r.str).1;
          }))
      else ok (record {
        l_type = string_side l;
        l_string = l.str;
        l_float = fl.of_nat 0;
        operation = op;
        r_type = string_side r;
        r_string = r.str;
        r_float = fl.of_nat 0;
      })

  unfoldable pub parse_where : Token → Token → Token → Result WhereCondition
  unfolding where_operation fill to_lower
  parse_where l o r =
      let op = to_lower o.str in
      elim (where_operation op) [
        | none ↦ err (unknown_where_operation op)
        | some operation ↦ fill operation l r
      ]

  -- The loop over the conditions, the optional "and" behind a condition consumed. Each round
  -- takes three tokens, so their number is fuel enough.
  unfoldable pub where_loop : ℕ → List Token → Option (Result (List WhereCondition))
  unfolding parse_where tokens_consume_optional
  where_loop fuel [] = some (ok [])
  where_loop ℕ.zero (t ∷ ts) = none
  where_loop (suc fuel) (l ∷ (o ∷ (r ∷ ts))) = elim (parse_where l o r) [
    | err e ↦ some (err e)
    | ok wc ↦ elim (where_loop fuel (tokens_consume_optional ts (codes "and"))) [
      | none ↦ none
      | some (err e) ↦ some (err e)
      | some (ok wcs) ↦ some (ok (wc ∷ wcs))
    ]
  ]
  where_loop (suc fuel) _ = some (err few_where_arguments)

  unfoldable pub float_clause : QueryOperation → fl.Value → fl.Value → Bool
  float_clause float_eq l r = fl.eq l r
  float_clause float_ne l r = not (fl.eq l r)
  float_clause float_lt l r = fl.lt l r
  float_clause float_le l r = fl.le l r
  float_clause float_gt l r = fl.lt r l
  float_clause float_ge l r = fl.le r l
  float_clause _ l r = false

  unfoldable pub float_value : Fields → Bytes → fl.Value → FieldType → Option fl.Value
  unfolding lookup
  float_value fields str f float = some f
  float_value fields str f field = elim (lookup str fields) [
    | none ↦ none
    | some value ↦ fl.parse_float value
  ]
  float_value fields str f _ = none

unfoldable pub string_clause : QueryOperation → Bytes → Bytes → Bool
unfolding str_eq contains has_prefix has_suffix
string_clause string_eq l r = str_eq l r
string_clause string_ne l r = not (str_eq l r)
string_clause string_contains l r = contains l r
string_clause string_not_contains l r = not (contains l r)
string_clause string_has_prefix l r = has_prefix l r
string_clause string_not_has_prefix l r = not (has_prefix l r)
string_clause string_has_suffix l r = has_suffix l r
string_clause string_not_has_suffix l r = not (has_suffix l r)
string_clause _ l r = false

unfoldable pub string_value : Fields → Bytes → FieldType → Option Bytes
unfolding lookup
string_value fields str field = lookup str fields
string_value fields str string = some str
string_value fields str _ = none

module _ (fl : Float64) where
  unfoldable pub float_values : Fields → WhereCondition fl → Bool
  float_values fields wc = elim (float_value fl fields wc.l_string wc.l_float wc.l_type) [
    | none ↦ false
    | some l ↦ elim (float_value fl fields wc.r_string wc.r_float wc.r_type) [
      | none ↦ false
      | some r ↦ float_clause fl wc.operation l r
    ]
  ]

  unfoldable pub string_values : Fields → WhereCondition fl → Bool
  string_values fields wc = elim (string_value fields wc.l_string wc.l_type) [
    | none ↦ false
    | some l ↦ elim (string_value fields wc.r_string wc.r_type) [
      | none ↦ false
      | some r ↦ string_clause wc.operation l r
    ]
  ]

  unfoldable pub where_clause : Fields → List (WhereCondition fl) → Bool
  where_clause fields [] = true
  where_clause fields (wc ∷ wcs) =
      (if is_float wc.operation then float_values fields wc else string_values fields wc)
      && where_clause fields wcs
