-- ===== src/Mapr/Select.antt =====
-- internal/mapr/selectcondition.go: the select clause.
use dtail.Base.{
  not, ◌&&◌, ◌||◌, List, [], ◌∷◌, Option, none, some, if◌then◌else◌, Bytes, codes, str_eq, contains,
  split,
}
use dtail.Mapr.Result.{
  Result, ok, err, ◌>>=◌, bad_aggregation, bad_aggregation_field, unknown_aggregation,
}
use dtail.Mapr.Token.{Token}

-- AggregateOperation, with its Undef value, which only a selectCondition that was never parsed has.
pub data AggregateOperation : Type 0 where
  undef count sum minimum maximum last avg len percentage percentile : AggregateOperation

pub record SelectCondition : Type 0 where
  pub field : Bytes
  pub field_storage : Bytes
  pub operation : AggregateOperation

-- The switch over the aggregation's name.
unfoldable pub aggregation : Bytes → Option AggregateOperation
unfolding str_eq
aggregation agg =
    if str_eq agg (codes "count")
    then some count
    else if str_eq agg (codes "sum")
    then some sum
    else if str_eq agg (codes "min")
    then some minimum
    else if str_eq agg (codes "max")
    then some maximum
    else if str_eq agg (codes "last")
    then some last
    else if str_eq agg (codes "avg")
    then some avg
    else if str_eq agg (codes "len")
    then some len
    else if str_eq agg (codes "percentage")
    then some percentage
    else if str_eq agg (codes "percentile")
    then some percentile
    else none

-- `b` are the parts of what follows the opening parenthesis.
unfoldable pub aggregated : Bytes → Bytes → List Bytes → Result SelectCondition
unfolding aggregation
aggregated str agg (field ∷ (after ∷ [])) = elim (aggregation agg) [
  | some op ↦ ok (record { field = field; field_storage = str; operation = op })
  | none ↦ err (unknown_aggregation agg)
]
aggregated str agg _ = err (bad_aggregation_field str)

-- `a` are the parts around the opening parenthesis.
unfoldable pub aggregate_call : Bytes → List Bytes → Result SelectCondition
unfolding aggregated split
aggregate_call str (agg ∷ (call ∷ [])) = aggregated str agg (split call b')')
aggregate_call str _ = err (bad_aggregation str)

unfoldable pub parse_select : Token → Result SelectCondition
unfolding aggregate_call contains split
parse_select token =
    if token.quotes_stripped
      || (not (contains token.str (codes "(")) && not (contains token.str (codes ")")))
    then ok (record { field = token.str; field_storage = token.str; operation = last })
    else aggregate_call token.str (split token.str b'(')

unfoldable pub make_select_conditions : List Token → Result (List SelectCondition)
unfolding parse_select
make_select_conditions [] = ok []
make_select_conditions (token ∷ tokens) = do
  sc ← parse_select token
  rest ← make_select_conditions tokens
  ok (sc ∷ rest)
