-- ===== src/Mapr/Aggregation.antt =====
-- internal/mapr/aggregateset.go, groupset.go and globalgroupset.go, with what
-- internal/mapr/client/aggregate.go reads from a message: the aggregated values of a group, their
-- merging, and their way from the server to the client.
pub mod Messages
pub mod RoundTrip
pub mod MergeOne
pub mod Merge
pub mod Remaining
use dtail.Base.{
  ℕ, zero, suc, Bool, true, false, List, [], ◌∷◌, ◌++◌, Option, none, some, if◌then◌else◌, ltb,
  length, Bytes, codes, str_eq, cut, split_text, atoi, format_uint, ℤ, pos, negsuc, sum_ℤ,
}
use dtail.Base.Maps.{lookup, insert}
use dtail.Mapr.Float.{Float64}
use dtail.Mapr.Select.{
  AggregateOperation, SelectCondition, undef, count, sum, minimum, maximum, last, avg, len,
  percentage, percentile,
}

-- The bytes of "∥" and "≔".
abbrev pub aggregate_delimiter : Bytes
aggregate_delimiter = 226 ∷ 136 ∷ 165 ∷ []

abbrev pub aggregate_kv_delimiter : Bytes
aggregate_kv_delimiter = 226 ∷ 137 ∷ 148 ∷ []

-- strconv.Itoa
abbrev pub itoa : ℤ → Bytes
itoa (pos n) = format_uint n
itoa (negsuc n) = b'-' ∷ format_uint (suc n)

abbrev pub pair_text : Bytes → Bytes → Bytes
pair_text k v = k ++ aggregate_kv_delimiter ++ v ++ aggregate_delimiter

module _ (float : Float64) where
  pub record AggregateSet : Type 0 where
    pub samples : ℤ
    pub f_values : List (Bytes × float.Value)
    pub s_values : List (Bytes × Bytes)

  abbrev pub new_aggregate_set : AggregateSet
  new_aggregate_set = record { samples = pos 0; f_values = []; s_values = [] }

  -- What a Go map gives for a key, the zero value if there is none.
  abbrev pub float_or_zero : Option float.Value → float.Value
  float_or_zero none = float.of_nat 0
  float_or_zero (some v) = v

  abbrev pub text_or_empty : Option Bytes → Bytes
  text_or_empty none = []
  text_or_empty (some v) = v

  unfoldable pub set_float : Bytes → float.Value → AggregateSet → AggregateSet
  unfolding insert
  set_float key value s = record s { f_values = insert key value s.f_values }

  unfoldable pub set_string : Bytes → Bytes → AggregateSet → AggregateSet
  unfolding insert
  set_string key value s = record s { s_values = insert key value s.s_values }

  -- What stands under the key afterwards, by what stands there.
  abbrev pub added : float.Value → Option float.Value → float.Value
  added value none = value
  added value (some f) = float.add f value

  abbrev pub smaller : float.Value → Option float.Value → float.Value
  smaller value none = value
  smaller value (some f) = if float.lt value f then value else f

  abbrev pub larger : float.Value → Option float.Value → float.Value
  larger value none = value
  larger value (some f) = if float.lt f value then value else f

  unfoldable pub add_float : Bytes → float.Value → AggregateSet → AggregateSet
  unfolding set_float lookup
  add_float key value s = set_float key (added value (lookup key s.f_values)) s

  unfoldable pub add_float_min : Bytes → float.Value → AggregateSet → AggregateSet
  unfolding set_float lookup
  add_float_min key value s = set_float key (smaller value (lookup key s.f_values)) s

  unfoldable pub add_float_max : Bytes → float.Value → AggregateSet → AggregateSet
  unfolding set_float lookup
  add_float_max key value s = set_float key (larger value (lookup key s.f_values)) s

  -- One round of Merge's loop. No result says that the operation is unknown.
  unfoldable pub merge_one : SelectCondition → AggregateSet → AggregateSet → Option AggregateSet
  unfolding add_float add_float_min add_float_max set_string set_float lookup
  merge_one sc set s =
      let storage : Bytes = sc.field_storage in
      let f : float.Value = float_or_zero (lookup storage set.f_values) in
      let t : Bytes = text_or_empty (lookup storage set.s_values) in
      elim sc.operation [
        | undef ↦ none
        | count ↦ some (add_float storage f s)
        | sum ↦ some (add_float storage f s)
        | avg ↦ some (add_float storage f s)
        | percentage ↦ some (add_float storage f s)
        | percentile ↦ some (add_float storage f s)
        | minimum ↦ some (add_float_min storage f s)
        | maximum ↦ some (add_float_max storage f s)
        | last ↦ some (set_string storage t s)
        | len ↦ some (set_float storage f (set_string storage t s))
      ]

  -- What has been merged, and whether an unknown operation ended it.
  unfoldable pub merge_loop :
      List SelectCondition → AggregateSet → AggregateSet → AggregateSet × Bool
  unfolding merge_one
  merge_loop [] set s = (s, false)
  merge_loop (sc ∷ select) set s = elim (merge_one sc set s) [
    | none ↦ (s, true)
    | some merged ↦ merge_loop select set merged
  ]

  unfoldable pub merge : List SelectCondition → AggregateSet → AggregateSet → AggregateSet × Bool
  unfolding merge_loop
  merge select set s = merge_loop select set (record s { samples = sum_ℤ s.samples set.samples })

  -- Aggregate, for an operation that needs a number.
  unfoldable pub aggregate_float :
      Bytes → AggregateOperation → float.Value → AggregateSet → AggregateSet × Bool
  unfolding add_float add_float_min add_float_max
  aggregate_float key agg f s = elim agg [
    | sum ↦ (add_float key f s, false)
    | avg ↦ (add_float key f s, false)
    | percentage ↦ (add_float key f s, false)
    | percentile ↦ (add_float key f s, false)
    | minimum ↦ (add_float_min key f s, false)
    | maximum ↦ (add_float_max key f s, false)
    | _ ↦ (s, true)
  ]

  abbrev pub parsed_value :
      (float.Value → AggregateSet × Bool) → AggregateSet → Option float.Value → AggregateSet × Bool
  parsed_value rest s none = (s, true)
  parsed_value rest s (some f) = rest f

  -- The set, and whether there was an error.
  unfoldable pub aggregate :
      Bytes → AggregateOperation → Bytes → Bool → AggregateSet → AggregateSet × Bool
  unfolding aggregate_float add_float set_string set_float
  aggregate key agg value client_aggregation s = elim agg [
    | count ↦
        if client_aggregation
        then parsed_value (λ f. (add_float key f s, false)) s (float.parse_float value)
        else (add_float key (float.of_nat 1) s, false)
    | last ↦ (set_string key value s, false)
    | len ↦ (set_float key (float.of_nat (length value)) (set_string key value s), false)
    | other ↦ parsed_value (λ f. aggregate_float key other f s) s (float.parse_float value)
  ]

  -- strconv.FormatFloat is the library's.
  module _ (format_float : float.Value → Bytes) where
    unfoldable pub serialized_floats : List (Bytes × float.Value) → Bytes
    serialized_floats [] = []
    serialized_floats ((k, v) ∷ m) = pair_text k (format_float v) ++ serialized_floats m

    unfoldable pub serialized_strings : List (Bytes × Bytes) → Bytes
    serialized_strings [] = []
    serialized_strings ((k, v) ∷ m) = pair_text k v ++ serialized_strings m

    -- The message of Serialize.
    unfoldable pub serialized_set : Bytes → AggregateSet → Bytes
    unfolding serialized_floats serialized_strings
    serialized_set group_key s =
        group_key
        ++ aggregate_delimiter
        ++ itoa s.samples
        ++ aggregate_delimiter
        ++ serialized_floats s.f_values
        ++ serialized_strings s.s_values

  -- GroupSet: the sets by their group keys.
  abbrev pub GroupSet : Type 0
  GroupSet = List (Bytes × AggregateSet)

  abbrev pub set_or_new : Option AggregateSet → AggregateSet
  set_or_new none = new_aggregate_set
  set_or_new (some s) = s

  -- GetSet, without the insertion of a new set: its callers write the set back.
  unfoldable pub get_set : Bytes → GroupSet → AggregateSet
  unfolding lookup
  get_set group_key g = set_or_new (lookup group_key g)

  abbrev pub put_set :
      (GroupSet → GroupSet × Bool) → Bytes → GroupSet → AggregateSet × Bool → GroupSet × Bool
  put_set rest group_key g (s, true) = (insert group_key s g, true)
  put_set rest group_key g (s, false) = rest (insert group_key s g)

  -- The method merge of GlobalGroupSet: the global sets, and whether there was an error.
  unfoldable pub merge_groups : List SelectCondition → GroupSet → GroupSet → GroupSet × Bool
  unfolding merge get_set
  merge_groups select [] g = (g, false)
  merge_groups select ((group_key, set) ∷ group) g =
      put_set (merge_groups select group) group_key g (merge select set (get_set group_key g))

  -- Serialize of GroupSet, between two rounds of its loop: the messages sent, the map of the sets
  -- that remain, nil if there is none, and the flag.
  pub record Serialized : Type 0 where
    pub sent : List Bytes
    pub remaining : Option GroupSet
    pub aborted : Bool

  abbrev pub sets_or_nil : Option GroupSet → GroupSet
  sets_or_nil none = []
  sets_or_nil (some g) = g

  -- remaining[groupKey] = set, with the map made first if it is nil
  abbrev pub kept_back : Bytes → AggregateSet → Serialized → Serialized
  kept_back group_key set r = record r {
    remaining = some (insert group_key set (sets_or_nil r.remaining));
  }

  -- Which case the select of a set's Serialize takes, by the messages sent before and the one to
  -- send: the send, or the context's end.
  module _ (format_float : float.Value → Bytes) (goes_through : List Bytes → Bytes → Bool) where
    unfoldable pub serialize_one : Bytes → AggregateSet → Serialized → Serialized
    unfolding serialized_set insert
    serialize_one group_key set r =
        let message = serialized_set format_float group_key set in
        if r.aborted
        then kept_back group_key set r
        else if goes_through r.sent message
        then record r { sent = r.sent ++ message ∷ [] }
        else kept_back group_key set (record r { aborted = true })

    unfoldable pub serialize_loop : GroupSet → Serialized → Serialized
    serialize_loop [] r = r
    serialize_loop ((group_key, set) ∷ group) r =
        serialize_loop group (serialize_one group_key set r)

    unfoldable pub serialize_groups : GroupSet → Serialized
    serialize_groups group =
        serialize_loop group (record { sent = []; remaining = none; aborted = false })
