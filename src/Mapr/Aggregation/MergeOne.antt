-- ===== src/Mapr/Aggregation/MergeOne.antt =====
-- internal/mapr/aggregateset.go: what one round of the loop of Merge does to a set.
use dtail.Base.{
  ◌≡◌, refl, ap, ◌∙◌, Bool, true, false, Option, some, if◌then◌else◌, inl, inr, Bool-cases, Bytes,
  str_eq, str_eq_iff,
}
use dtail.Base.Maps.{lookup, lookup-insert}
use dtail.Mapr.Float.{Float64}
use dtail.Mapr.Select.{
  AggregateOperation, undef, count, sum, minimum, maximum, last, avg, len, percentage, percentile,
}
use dtail.Mapr.Aggregation.{
  AggregateSet, float_or_zero, text_or_empty, added, smaller, larger, set_float, set_string,
  add_float, add_float_min, add_float_max, merge_one,
}

module _ (float : Float64) where
  -- What stands under the storage of a condition after its merge, by what stood there.
  abbrev pub value_after :
      AggregateOperation → float.Value → Option float.Value → Option float.Value
  value_after undef f before = before
  value_after count f before = some (added float f before)
  value_after sum f before = some (added float f before)
  value_after avg f before = some (added float f before)
  value_after percentage f before = some (added float f before)
  value_after percentile f before = some (added float f before)
  value_after minimum f before = some (smaller float f before)
  value_after maximum f before = some (larger float f before)
  value_after last f before = before
  value_after len f before = some f

  -- What stands under the storage of a condition among the texts after its merge.
  abbrev pub text_after : AggregateOperation → Bytes → Option Bytes → Option Bytes
  text_after last t before = some t
  text_after len t before = some t
  text_after _ t before = before

  set_float-value :
      (storage k : Bytes) (f : float.Value) (s : AggregateSet float)
      → lookup k ((set_float float storage f s).f_values)
        ≡ (if str_eq storage k then some f else lookup k s.f_values)
  unfolding set_float
  set_float-value storage k f s = lookup-insert storage k f s.f_values

  -- The value under the key, where a condition's storage is changed to what `g` makes of it.
  changed-value :
      (storage k : Bytes) (g : float.Value → Option float.Value → float.Value)
      (set s : AggregateSet float)
      → lookup k (
          (set_float float storage
            (g (float_or_zero float (lookup storage set.f_values)) (lookup storage s.f_values))
            s).f_values)
        ≡ (if str_eq storage k
            then some (g (float_or_zero float (lookup k set.f_values)) (lookup k s.f_values))
            else lookup k s.f_values)
  changed-value storage k g set s =
      set_float-value storage k
        (g (float_or_zero float (lookup storage set.f_values)) (lookup storage s.f_values)) s
      ∙ elim (Bool-cases (str_eq storage k)) [
        | inl h ↦ rw h (
            ap (λ j. some (g (float_or_zero float (lookup j set.f_values)) (lookup j s.f_values)))
              ((str_eq_iff storage k).0 h))
        | inr h ↦ rw h refl
      ]

  kept_value : (b : Bool) (v : Option float.Value) → v ≡ (if b then v else v)
  kept_value true v = refl
  kept_value false v = refl

  -- The value of the set that a step returns.
  from :
      {s s2 : AggregateSet float} {v : Option float.Value} (k : Bytes)
      → some s ≡ some s2
      → lookup k s.f_values ≡ v
      → lookup k s2.f_values ≡ v
  from {s = s} {s2 = s2} k h e = let same : s2 ≡ s = cc in ap (λ r. lookup k r.f_values) same ∙ e

  pub merge_one-value :
      (op : AggregateOperation) (field storage k : Bytes) (set s s2 : AggregateSet float)
      → merge_one float (record { field = field; field_storage = storage; operation = op }) set s
        ≡ some s2
      → lookup k s2.f_values ≡ (
          if str_eq storage k
          then value_after op (float_or_zero float (lookup k set.f_values)) (lookup k s.f_values)
          else lookup k s.f_values)
  unfolding merge_one add_float add_float_min add_float_max set_string
  merge_one-value undef field storage k set s s2 h = cc
  merge_one-value count field storage k set s s2 h =
      from k h (changed-value storage k (added float) set s)
  merge_one-value sum field storage k set s s2 h =
      from k h (changed-value storage k (added float) set s)
  merge_one-value avg field storage k set s s2 h =
      from k h (changed-value storage k (added float) set s)
  merge_one-value percentage field storage k set s s2 h =
      from k h (changed-value storage k (added float) set s)
  merge_one-value percentile field storage k set s s2 h =
      from k h (changed-value storage k (added float) set s)
  merge_one-value minimum field storage k set s s2 h =
      from k h (changed-value storage k (smaller float) set s)
  merge_one-value maximum field storage k set s s2 h =
      from k h (changed-value storage k (larger float) set s)
  merge_one-value last field storage k set s s2 h =
      from k h (kept_value (str_eq storage k) (lookup k s.f_values))
  merge_one-value len field storage k set s s2 h = from k h (
      changed-value storage k (λ f before. f) set
        (set_string float storage (text_or_empty float (lookup storage set.s_values)) s))

  changed-text :
      (storage k : Bytes) (set s : AggregateSet float)
      → lookup k (
          (set_string float storage (text_or_empty float (lookup storage set.s_values)) s).s_values)
        ≡ (if str_eq storage k
            then some (text_or_empty float (lookup k set.s_values))
            else lookup k s.s_values)
  unfolding set_string
  changed-text storage k set s =
      lookup-insert storage k (text_or_empty float (lookup storage set.s_values)) s.s_values
      ∙ elim (Bool-cases (str_eq storage k)) [
        | inl h ↦ rw h (
            ap (λ j. some (text_or_empty float (lookup j set.s_values)))
              ((str_eq_iff storage k).0 h))
        | inr h ↦ rw h refl
      ]

  kept_text : (b : Bool) (v : Option Bytes) → v ≡ (if b then v else v)
  kept_text true v = refl
  kept_text false v = refl

  from_text :
      {s s2 : AggregateSet float} {v : Option Bytes} (k : Bytes)
      → some s ≡ some s2
      → lookup k s.s_values ≡ v
      → lookup k s2.s_values ≡ v
  from_text {s = s} {s2 = s2} k h e =
      let same : s2 ≡ s = cc in ap (λ r. lookup k r.s_values) same ∙ e

  pub merge_one-text :
      (op : AggregateOperation) (field storage k : Bytes) (set s s2 : AggregateSet float)
      → merge_one float (record { field = field; field_storage = storage; operation = op }) set s
        ≡ some s2
      → lookup k s2.s_values ≡ (
          if str_eq storage k
          then text_after op (text_or_empty float (lookup k set.s_values)) (lookup k s.s_values)
          else lookup k s.s_values)
  unfolding merge_one add_float add_float_min add_float_max set_float
  merge_one-text undef field storage k set s s2 h = cc
  merge_one-text last field storage k set s s2 h = from_text k h (changed-text storage k set s)
  merge_one-text len field storage k set s s2 h = from_text k h (changed-text storage k set s)
  merge_one-text count field storage k set s s2 h =
      from_text k h (kept_text (str_eq storage k) (lookup k s.s_values))
  merge_one-text sum field storage k set s s2 h =
      from_text k h (kept_text (str_eq storage k) (lookup k s.s_values))
  merge_one-text avg field storage k set s s2 h =
      from_text k h (kept_text (str_eq storage k) (lookup k s.s_values))
  merge_one-text percentage field storage k set s s2 h =
      from_text k h (kept_text (str_eq storage k) (lookup k s.s_values))
  merge_one-text percentile field storage k set s s2 h =
      from_text k h (kept_text (str_eq storage k) (lookup k s.s_values))
  merge_one-text minimum field storage k set s s2 h =
      from_text k h (kept_text (str_eq storage k) (lookup k s.s_values))
  merge_one-text maximum field storage k set s s2 h =
      from_text k h (kept_text (str_eq storage k) (lookup k s.s_values))

  pub merge_one-samples :
      (op : AggregateOperation) (field storage : Bytes) (set s s2 : AggregateSet float)
      → merge_one float (record { field = field; field_storage = storage; operation = op }) set s
        ≡ some s2
      → s2.samples ≡ s.samples
  unfolding merge_one add_float add_float_min add_float_max set_float set_string
  merge_one-samples undef field storage set s s2 h = cc
  merge_one-samples count field storage set s s2 h = cc
  merge_one-samples sum field storage set s s2 h = cc
  merge_one-samples avg field storage set s s2 h = cc
  merge_one-samples percentage field storage set s s2 h = cc
  merge_one-samples percentile field storage set s s2 h = cc
  merge_one-samples minimum field storage set s s2 h = cc
  merge_one-samples maximum field storage set s s2 h = cc
  merge_one-samples last field storage set s s2 h = cc
  merge_one-samples len field storage set s s2 h = cc
