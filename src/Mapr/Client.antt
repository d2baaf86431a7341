-- ===== src/Mapr/Client.antt =====
-- internal/mapr/client/aggregate.go: what a client makes of the messages of one server, and its
-- hand-over to the set that all servers share.
pub mod Held
use dtail.Base.{
  ℕ, ◌==◌, Bool, true, false, not, List, [], ◌∷◌, ◌++◌, Option, none, some, if◌then◌else◌, Bytes,
  cut, split_text, atoi, ℤ, sum_ℤ, str_eq,
}
use dtail.Base.Maps.{lookup, insert}
use dtail.Mapr.Float.{Float64}
use dtail.Mapr.Select.{SelectCondition}
use dtail.Mapr.Aggregation.{
  aggregate_delimiter, aggregate_kv_delimiter, AggregateSet, GroupSet, get_set, aggregate,
  merge_groups,
}

-- makeFields
unfoldable pub make_fields_onto : List (Bytes × Bytes) → List Bytes → List (Bytes × Bytes)
unfolding insert
make_fields_onto fields [] = fields
make_fields_onto fields (part ∷ parts) = elim (cut aggregate_kv_delimiter part) [
  | none ↦ make_fields_onto fields parts
  | some (key, value) ↦ make_fields_onto (insert key value fields) parts
]

unfoldable pub make_fields : List Bytes → List (Bytes × Bytes)
unfolding make_fields_onto
make_fields parts = make_fields_onto [] parts

pub data ClientError : Type 0 where
  missing_session missing_query no_data bad_samples merge_failed : ClientError

-- What a message says: a group key, a number of samples and fields; or an error.
pub data Message : Type 0 where
  message : Bytes → ℤ → List (Bytes × Bytes) → Message
  unreadable : ClientError → Message

unfoldable pub sampled : Bytes → List Bytes → Option ℤ → Message
unfolding make_fields
sampled group_key parts none = unreadable bad_samples
sampled group_key parts (some samples) = message group_key samples (make_fields parts)

unfoldable pub message_of : List Bytes → Message
unfolding sampled atoi
message_of (group_key ∷ (samples ∷ (p ∷ (q ∷ parts)))) =
    sampled group_key (p ∷ (q ∷ parts)) (atoi samples)
message_of _ = unreadable no_data

unfoldable pub parse_message : Bytes → Message
unfolding message_of split_text
parse_message text = message_of (split_text text aggregate_delimiter)

module _ (float : Float64) where
  -- What the session holds at the time of a call: the select clause of its query, the global set,
  -- which another server's merge may hold, and the generation.
  pub record Snapshot : Type 0 where
    pub generation : ℕ
    pub select : List SelectCondition
    pub global : GroupSet float
    pub is_held : Bool

  pub record Aggregate : Type 0 where
    pub group : GroupSet float
    pub current_generation : ℕ

  -- A session that is missing, one without a query, or a snapshot.
  pub data Session : Type 0 where
    no_session : Session
    no_query : Session
    snapshot_of : Snapshot → Session

  unfoldable pub follow_generation : Snapshot → Aggregate → Aggregate
  follow_generation snapshot a =
      if snapshot.generation == a.current_generation
      then a
      else record { group = []; current_generation = snapshot.generation }

  -- The loop over the select clause; the flag is addedSamples. An error of Aggregate is logged.
  unfoldable pub add_field :
      SelectCondition → Option Bytes → AggregateSet float → Bool → AggregateSet float × Bool
  unfolding aggregate
  add_field sc none set was_added = (set, was_added)
  add_field sc (some val) set was_added =
      let (s, failed) = aggregate float sc.field_storage sc.operation val true set in
      (s, if failed then was_added else true)

  unfoldable pub add_fields :
      List SelectCondition
      → List (Bytes × Bytes)
      → AggregateSet float
      → Bool
      → AggregateSet float × Bool
  unfolding add_field lookup
  add_fields [] fields set was_added = (set, was_added)
  add_fields (sc ∷ select) fields set was_added =
      let (s, added) = add_field sc (lookup sc.field_storage fields) set was_added in
      add_fields select fields s added

  unfoldable pub add_samples : ℤ → AggregateSet float × Bool → AggregateSet float
  add_samples samples (set, true) = record set { samples = sum_ℤ set.samples samples }
  add_samples samples (set, false) = set

  -- The aggregate, the global set, and the error.
  abbrev pub Aggregated : Type 0
  Aggregated = Aggregate × GroupSet float × Option ClientError

  unfoldable pub merged : Aggregate → GroupSet float × Bool → Aggregated
  merged a (global, true) = (a, global, some merge_failed)
  merged a (global, false) = (record a { group = [] }, global, none)

  unfoldable pub aggregate_message : Snapshot → Message → Aggregate → Aggregated
  unfolding add_fields add_samples get_set insert merge_groups merged
  aggregate_message snapshot (unreadable err) a = (a, snapshot.global, some err)
  aggregate_message snapshot (message group_key samples fields) a =
      let set : AggregateSet float =
        add_samples samples
          (add_fields snapshot.select fields (get_set float group_key a.group) false) in
      let b : Aggregate = record a { group = insert group_key set a.group } in
      if snapshot.is_held
      then (b, snapshot.global, none)
      else merged b (merge_groups float snapshot.select b.group snapshot.global)

  -- The method Aggregate.
  unfoldable pub aggregate_text :
      Session → Bytes → Aggregate → Option (GroupSet float) × Aggregate × Option ClientError
  unfolding aggregate_message follow_generation parse_message
  aggregate_text no_session text a = (none, a, some missing_session)
  aggregate_text no_query text a = (none, a, some missing_query)
  aggregate_text (snapshot_of snapshot) text a =
      let (b, global, err) =
        aggregate_message snapshot (parse_message text) (follow_generation snapshot a) in
      (some global, b, err)

  unfoldable pub flush_current : Snapshot → Aggregate → Aggregated
  unfolding follow_generation merge_groups merged
  flush_current snapshot a =
      if snapshot.generation == a.current_generation
      then merged a (merge_groups float snapshot.select a.group snapshot.global)
      else (follow_generation snapshot a, snapshot.global, none)

  -- The method Flush, which waits for the global set.
  unfoldable pub flush :
      Session → Aggregate → Option (GroupSet float) × Aggregate × Option ClientError
  unfolding flush_current
  flush no_session a = (none, a, some missing_session)
  flush no_query a = (none, a, none)
  flush (snapshot_of snapshot) a =
      let (b, global, err) = flush_current snapshot a in (some global, b, err)
