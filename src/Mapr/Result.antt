-- ===== src/Mapr/Result.antt =====
-- The errors of the query parser, by what they say, and its fallible results.
use dtail.Base.{Bytes}

pub data QueryError : Type 0 where
  no_select_field : QueryError
  order_not_selected : Bytes → QueryError
  no_table_name : QueryError
  many_table_names : QueryError
  unexpected_end : QueryError
  not_a_number : Bytes → QueryError
  bad_outfile : QueryError
  unexpected_keyword : Bytes → QueryError
  bad_aggregation : Bytes → QueryError
  bad_aggregation_field : Bytes → QueryError
  unknown_aggregation : Bytes → QueryError
  few_where_arguments : QueryError
  unknown_where_operation : Bytes → QueryError
  left_not_bareword : Bytes → QueryError
  right_not_bareword : Bytes → QueryError
  few_set_arguments : QueryError
  unknown_set_operation : Bytes → QueryError
  no_variable_name : Bytes → QueryError
  unparsable_function : Bytes → QueryError
  unknown_function : Bytes → QueryError
  stray_close : Bytes → QueryError
  unclosed_open : Bytes → QueryError

-- What a fallible function of the parser returns: the error, or the value of a nil error.
pub data Result {ℓ} (A : Type ℓ) : Type ℓ where
  err : QueryError → Result A
  ok : A → Result A

-- `if err != nil` and a return: an error ends the chain.
infixl 5 ◌>>=◌
abbrev pub ◌>>=◌ {ℓ κ} : {A : Type ℓ} {B : Type κ} → Result A → (A → Result B) → Result B
result >>= next = elim result [ err e ↦ err e | ok a ↦ next a ]
