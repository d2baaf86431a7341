-- ===== src/Mapr/Set.antt =====
-- internal/mapr/setcondition.go and setclause.go: the set clause and its interpretation.
pub mod Frame
use dtail.Base.{
  ℕ, suc, Bool, true, false, not, ◌&&◌, List, [], ◌∷◌, Option, none, some, if◌then◌else◌, Bytes,
  codes, str_eq, has_prefix, has_suffix,
}
use dtail.Base.Maps.{lookup, insert}
use dtail.Mapr.Float.{Float64}
use dtail.Mapr.Funcs.{FunctionStack, new_function_stack, call_stack}
use dtail.Mapr.Result.{
  Result, ok, err, few_set_arguments, unknown_set_operation, left_not_bareword, no_variable_name,
}
use dtail.Mapr.Token.{Token, tokens_consume_optional}
use dtail.Mapr.Where.{FieldType, field, float, function_stack, Fields}

module _ (fl : Float64) where
  pub record SetCondition : Type 0 where
    pub l_string : Bytes
    pub r_type : FieldType
    pub r_string : Bytes
    pub r_float : fl.Value
    pub functions : FunctionStack

  -- initSetConditions, on the three tokens of a condition.
  unfoldable pub init_set_condition : Token → Token → Token → Result SetCondition
  init_set_condition l o r =
      if not (str_eq o.str (codes "="))
      then err (unknown_set_operation o.str)
      else if not l.is_bareword
      then err (left_not_bareword l.str)
      else if not (has_prefix l.str (codes "$"))
      then err (no_variable_name l.str)
      else ok (record {
        l_string = l.str;
        r_type = field;
        r_string = r.str;
        r_float = fl.of_nat 0;
        functions = [];
      })

  -- The value of a condition: a field in backquotes, a function call, a number, or a field.
  unfoldable pub set_value : SetCondition → Token → Option (Result SetCondition)
  set_value sc r =
      if r.quotes_stripped
      then some (ok sc)
      else if has_suffix sc.r_string (codes ")")
      then (elim (new_function_stack r.str) [
        | none ↦ none
        | some (err e) ↦ some (err e)
        | some (ok (stack, arg)) ↦
            some (ok (record sc { functions = stack; r_type = function_stack; r_string = arg }))
      ])
      else (elim (fl.parse_float sc.r_string) [
        | some f ↦ some (ok (record sc { r_float = f; r_type = float }))
        | none ↦ some (ok sc)
      ])

  unfoldable pub parse_set : Token → Token → Token → Option (Result SetCondition)
  parse_set l o r = elim (init_set_condition l o r) [
    | err e ↦ some (err e)
    | ok sc ↦ set_value sc r
  ]

  -- The loop over the conditions; the number of tokens is fuel enough.
  unfoldable pub set_loop : ℕ → List Token → Option (Result (List SetCondition))
  set_loop fuel [] = some (ok [])
  set_loop ℕ.zero (t ∷ ts) = none
  set_loop (suc fuel) (l ∷ (o ∷ (r ∷ ts))) = elim (parse_set l o r) [
    | none ↦ none
    | some (err e) ↦ some (err e)
    | some (ok sc) ↦ elim (set_loop fuel (tokens_consume_optional ts (codes ","))) [
      | none ↦ none
      | some (err e) ↦ some (err e)
      | some (ok scs) ↦ some (ok (sc ∷ scs))
    ]
  ]
  set_loop (suc fuel) _ = some (err few_set_arguments)

  abbrev field_or_self : Fields → Bytes → Bytes
  field_or_self fields s = elim (lookup s fields) [ some value ↦ value | none ↦ s ]

  -- What SetClause assigns to the variable of a condition.
  unfoldable pub assigned : (Bytes → Bytes) → SetCondition → Fields → Bytes
  assigned md5 sc fields =
      let value = field_or_self fields sc.r_string in
      elim sc.r_type [ function_stack ↦ call_stack md5 sc.functions value | _ ↦ value ]

  -- SetClause writes the variables one after the other, so a later one reads an earlier one.
  unfoldable pub set_clause : (Bytes → Bytes) → List SetCondition → Fields → Fields
  set_clause md5 [] fields = fields
  set_clause md5 (sc ∷ scs) fields =
      set_clause md5 scs (insert sc.l_string (assigned md5 sc fields) fields)
