-- ===== src/Tests/Aggregates.antt =====
-- The aggregation of one group, on small sets.
use dtail.Base.{
  ◌≡◌, refl, true, false, List, [], ◌∷◌, arith, sum_ℤ, Bool, Bytes, codes, pos, format_uint,
  format_digits, str_eq, contains, has_prefix,
}
use dtail.Base.Maps.{lookup, insert}
use dtail.Mapr.Select.{SelectCondition, count}
use dtail.Mapr.Aggregation.{
  AggregateSet, merge, merge_loop, merge_one, set_float, add_float, serialized_set,
  serialize_groups, GroupSet,
}
use dtail.Mapr.Aggregation.RoundTrip.{pairs, parse_message-serialized_set}
use dtail.Mapr.Aggregation.Messages.{fields_of}
use dtail.Mapr.Aggregation.Merge.{acting, on_value, on_text, merge-value}
use dtail.Mapr.Aggregation.Remaining.{IsSplit, serialize_groups-IsSplit}
use dtail.Mapr.Client.{
  message, parse_message, Snapshot, Aggregate, aggregate_message, flush_current,
}
use dtail.Mapr.Client.Held.{held, flush-held}
use dtail.Tests.Queries.{nat_float}

abbrev group : AggregateSet nat_float
group = record {
  samples = pos 3;
  f_values = (codes "count(a)", 2) ∷ [];
  s_values = (codes "b", codes "x") ∷ [];
}

parse_message-serialized_set_example :
    parse_message (serialized_set nat_float format_uint (codes "k") group)
    ≡ message (codes "k") (pos 3) (fields_of [] (pairs nat_float format_uint group))
parse_message-serialized_set_example =
    parse_message-serialized_set nat_float format_uint (codes "k") 3 group
      (unfold contains has_prefix in refl)
      (unfold contains has_prefix format_uint format_digits in refl) refl (omega arith)
      (λ e. absurd (omega (arith, e)))

abbrev counts : List SelectCondition
counts = record { field = codes "a"; field_storage = codes "count(a)"; operation = count } ∷ []

abbrev twice : AggregateSet nat_float
twice = record group { samples = pos 6; f_values = (codes "count(a)", 4) ∷ [] }

merge-group : merge nat_float counts group group ≡ (twice, false)
unfolding merge merge_loop merge_one add_float set_float lookup insert str_eq
merge-group = refl

merge-value_example :
    (lookup (codes "count(a)") twice.f_values
      ≡ acting nat_float
          (on_value nat_float (codes "count(a)") group)
          counts
          (lookup (codes "count(a)") group.f_values))
    × (lookup (codes "count(a)") twice.s_values
        ≡ acting nat_float
            (on_text nat_float (codes "count(a)") group)
            counts
            (lookup (codes "count(a)") group.s_values))
    × (twice.samples ≡ sum_ℤ group.samples group.samples)
merge-value_example = merge-value nat_float counts (codes "count(a)") group group twice merge-group

abbrev groups : GroupSet nat_float
groups = (codes "k", group) ∷ (codes "l", twice) ∷ []

-- One send goes through.
abbrev first_send : List Bytes → Bytes → Bool
first_send [] text = true
first_send (m ∷ sent) text = false

serialize_groups-IsSplit_example :
    IsSplit nat_float format_uint first_send [] groups
      (serialize_groups nat_float format_uint first_send groups)
serialize_groups-IsSplit_example =
    serialize_groups-IsSplit nat_float format_uint first_send groups
      (unfold str_eq in (refl, (refl, tt)))

abbrev snapshot : Snapshot nat_float
snapshot = record { generation = 1; select = counts; global = []; is_held = false }

abbrev client : Aggregate nat_float
client = record { group = []; current_generation = 1 }

flush-held_example :
    flush_current nat_float
      (held nat_float true snapshot)
      (aggregate_message nat_float
        (held nat_float true snapshot)
        (message (codes "k") (pos 3) ((codes "count(a)", codes "2") ∷ []))
        client).0
    ≡ aggregate_message nat_float
        (held nat_float false snapshot)
        (message (codes "k") (pos 3) ((codes "count(a)", codes "2") ∷ []))
        client
flush-held_example =
    flush-held nat_float snapshot client (codes "k") (pos 3) ((codes "count(a)", codes "2") ∷ [])
      refl
