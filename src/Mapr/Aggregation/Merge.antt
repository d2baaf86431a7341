-- ===== src/Mapr/Aggregation/Merge.antt =====
-- internal/mapr/aggregateset.go: what Merge does to the values of a group.
use dtail.Base.{
  bools_differ, ◌≡◌, refl, sym, ap, ◌∙◌, Bool, true, false, sum_ℤ, List, [], ◌∷◌, Option, none,
  some, if◌then◌else◌, inl, inr, Option-cases, Bytes, str_eq,
}
use dtail.Base.Maps.{lookup}
use dtail.Mapr.Float.{Float64}
use dtail.Mapr.Select.{SelectCondition}
use dtail.Mapr.Aggregation.{
  AggregateSet, float_or_zero, text_or_empty, merge_one, merge_loop, merge,
}
use dtail.Mapr.Aggregation.MergeOne.{
  value_after, text_after, merge_one-value, merge_one-text, merge_one-samples,
}

module _ (float : Float64) where
  -- The conditions of a select clause, acting one after the other.
  abbrev pub acting : {X : Type 0} → (SelectCondition → X → X) → List SelectCondition → X → X
  acting act [] before = before
  acting act (sc ∷ select) before = acting act select (act sc before)

  -- A condition acts on the value under the key, if the key is its storage.
  abbrev pub on_value :
      Bytes → AggregateSet float → SelectCondition → Option float.Value → Option float.Value
  on_value k set sc before =
      if str_eq sc.field_storage k
      then value_after float sc.operation (float_or_zero float (lookup k set.f_values)) before
      else before

  abbrev pub on_text : Bytes → AggregateSet float → SelectCondition → Option Bytes → Option Bytes
  on_text k set sc before =
      if str_eq sc.field_storage k
      then text_after float sc.operation (text_or_empty float (lookup k set.s_values)) before
      else before

  stepped :
      List SelectCondition
      → AggregateSet float
      → AggregateSet float
      → Option (AggregateSet float)
      → AggregateSet float × Bool
  stepped select set s none = (s, true)
  stepped select set s (some merged) = merge_loop float select set merged

  merge_loop-step :
      (sc : SelectCondition) (select : List SelectCondition) (set s : AggregateSet float)
      → stepped select set s (merge_one float sc set s) ≡ merge_loop float (sc ∷ select) set s
  unfolding merge_loop stepped
  merge_loop-step sc select set s = elim (Option-cases (merge_one float sc set s)) [
    | inl e ↦ rw (e, merge_loop) refl
    | inr (merged, e) ↦ rw (e, merge_loop) refl
  ]

  -- What is seen of a set, where each condition of the loop acts on it.
  module _ {X : Type 0} (seen : AggregateSet float → X) (act : SelectCondition → X → X)
      (set : AggregateSet float)
      (one : (sc : SelectCondition) (s s2 : AggregateSet float)
        → merge_one float sc set s ≡ some s2
        → seen s2 ≡ act sc (seen s)) where
    step-seen :
        (sc : SelectCondition) (select : List SelectCondition) (s s2 : AggregateSet float)
        (o : Option (AggregateSet float))
        → merge_one float sc set s ≡ o
        → ((s3 s4 : AggregateSet float)
            → merge_loop float select set s3 ≡ (s4, false)
            → seen s4 ≡ acting act select (seen s3))
        → stepped select set s o ≡ (s2, false)
        → seen s2 ≡ acting act (sc ∷ select) (seen s)
    unfolding stepped
    step-seen sc select s s2 none e rest h = absurd (bools_differ (ap (λ r. r.1) h))
    step-seen sc select s s2 (some s3) e rest h =
        rest s3 s2 h ∙ ap (acting act select) (one sc s s3 e)

    merge_loop-seen :
        (select : List SelectCondition) (s s2 : AggregateSet float)
        → merge_loop float select set s ≡ (s2, false)
        → seen s2 ≡ acting act select (seen s)
    merge_loop-seen [] s s2 h = unfold merge_loop in ap (λ r. seen r.0) (sym h)
    merge_loop-seen (sc ∷ select) s s2 h =
        step-seen sc select s s2 (merge_one float sc set s) refl (merge_loop-seen select)
          (merge_loop-step sc select set s ∙ h)

  acting-kept :
      {X : Type 0} (select : List SelectCondition) (x : X) → acting (λ sc y. y) select x ≡ x
  acting-kept [] x = refl
  acting-kept (sc ∷ select) x = acting-kept select x

  -- A merge that meets no unknown operation does to each number and to each text what the conditions
  -- of the select clause with its key ask for, one after the other, where a number that the merged
  -- set lacks counts as zero and a text as empty; it leaves all other numbers and texts as they are,
  -- and adds the samples.
  pub merge-value :
      (select : List SelectCondition) (k : Bytes) (set s s2 : AggregateSet float)
      → merge float select set s ≡ (s2, false)
      → (lookup k s2.f_values ≡ acting (on_value k set) select (lookup k s.f_values))
        × (lookup k s2.s_values ≡ acting (on_text k set) select (lookup k s.s_values))
        × (s2.samples ≡ sum_ℤ s.samples set.samples)
  unfolding merge
  merge-value select k set s s2 h =
      let start : AggregateSet float = record s { samples = sum_ℤ s.samples set.samples } in
      (
        merge_loop-seen (λ r. lookup k r.f_values) (on_value k set) set
            (λ sc r r2. merge_one-value float sc.operation sc.field sc.field_storage k set r r2)
            select start s2 h,
        merge_loop-seen (λ r. lookup k r.s_values) (on_text k set) set
            (λ sc r r2. merge_one-text float sc.operation sc.field sc.field_storage k set r r2)
            select start s2 h,
        merge_loop-seen (λ r. r.samples) (λ sc n. n) set
              (λ sc r r2. merge_one-samples float sc.operation sc.field sc.field_storage set r r2)
              select start s2 h
            ∙ acting-kept select start.samples,
      )
