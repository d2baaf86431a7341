-- ===== src/Mapr/Aggregation/Remaining.antt =====
-- internal/mapr/groupset.go: what Serialize sends, and what it gives back.
use mathlib.Core.Path.{subst}
use dtail.Base.{
  ◌≡◌, refl, sym, ap, ◌∙◌, Bool, true, false, List, [], ◌∷◌, ◌++◌, append-nil, append_assoc, Option,
  none, some, inl, inr, Bool-cases, Bytes, str_eq, str_eq_iff, any, arith,
}
use dtail.Base.Maps.{insert}
use dtail.Mapr.Float.{Float64}
use dtail.Mapr.Aggregation.{
  AggregateSet, GroupSet, Serialized, serialized_set, serialize_one, serialize_loop,
  serialize_groups,
}

module _ (float : Float64) where
  abbrev pub has_key : Bytes → GroupSet float → Bool
  has_key k g = any (λ e. str_eq e.0 k) g

  -- The keys of a map are distinct.
  abbrev pub AreDistinct : GroupSet float → Type 0
  AreDistinct [] = Unit {0}
  AreDistinct ((k, s) ∷ g) = (has_key k g ≡ false) × AreDistinct g

  insert-new :
      (k : Bytes) (s : AggregateSet float) (g : GroupSet float)
      → has_key k g ≡ false
      → insert k s g ≡ g ++ (k, s) ∷ []
  unfolding insert
  insert-new k s [] h = refl
  insert-new k s (e ∷ g) h = ground (arith, h, insert-new k s g (ground (arith, h)))

  has_key-append :
      (k : Bytes) (g g2 : GroupSet float)
      → has_key k (g ++ g2) ≡ false
      → (has_key k g ≡ false) × (has_key k g2 ≡ false)
  has_key-append k [] g2 h = (refl, h)
  has_key-append k (e ∷ g) g2 h = ground (arith, h, has_key-append k g g2 (ground (arith, h)))

  -- A key behind others is none of them.
  middle_key :
      (k : Bytes) (s : AggregateSet float) (g g2 : GroupSet float)
      → AreDistinct (g ++ (k, s) ∷ g2)
      → has_key k g ≡ false
  middle_key k s [] g2 h = refl
  middle_key k s ((j, t) ∷ g) g2 (h, d) = ground (
    arith,
    (has_key-append j g ((k, s) ∷ g2) h).1,
    middle_key k s g g2 d,
    str_eq_iff j k,
    str_eq_iff k j,
  )

  module _ (format_float : float.Value → Bytes) (goes_through : List Bytes → Bytes → Bool) where
    abbrev pub messages_of : GroupSet float → List Bytes
    messages_of [] = []
    messages_of ((group_key, set) ∷ group) =
        serialized_set float format_float group_key set ∷ messages_of group

    -- The sends of these sets go through, one after the other, behind the messages sent before.
    abbrev pub Pass : List Bytes → GroupSet float → Type 0
    Pass sent [] = Unit {0}
    Pass sent ((k, s) ∷ g) =
        (goes_through sent (serialized_set float format_float k s) ≡ true)
        × Pass (sent ++ serialized_set float format_float k s ∷ []) g

    -- The send of the first of these sets does not go through.
    abbrev pub IsRefused : List Bytes → GroupSet float → Type 0
    IsRefused sent [] = Unit {0}
    IsRefused sent ((k, s) ∷ g) = goes_through sent (serialized_set float format_float k s) ≡ false

    -- A nil map for no set.
    abbrev pub nil_or : GroupSet float → Option (GroupSet float)
    nil_or [] = none
    nil_or (e ∷ g) = some (e ∷ g)

    -- The sets in front have been sent, and the ones behind are left, from the first one whose
    -- send did not go through.
    pub record IsSplit (sent : List Bytes) (group : GroupSet float) (r : Serialized float)
        : Type 0 where
      pub front : GroupSet float
      pub back : GroupSet float
      pub all_sets : group ≡ front ++ back
      pub are_sent : r.sent ≡ sent ++ messages_of front
      pub are_left : r.remaining ≡ nil_or back
      pub pass : Pass sent front
      pub is_refused : IsRefused (sent ++ messages_of front) back

    abbrev given_up : List Bytes → GroupSet float → Serialized float
    given_up sent left = record { sent = sent; remaining = some left; aborted = true }

    -- Nothing is sent any more.
    aborted_loop :
        (sent : List Bytes) (left group : GroupSet float) (e : Bytes × AggregateSet float)
        → AreDistinct ((e ∷ left) ++ group)
        → serialize_loop float format_float goes_through group (given_up sent (e ∷ left))
          ≡ given_up sent ((e ∷ left) ++ group)
    unfolding serialize_loop serialize_one
    aborted_loop sent left [] e d = ap (given_up sent) (sym (append-nil (e ∷ left)))
    aborted_loop sent left ((k, s) ∷ group) e d =
        let moved = append_assoc (e ∷ left) ((k, s) ∷ []) group in
        ap (λ g. serialize_loop float format_float goes_through group (given_up sent g))
          (insert-new k s (e ∷ left) (middle_key k s (e ∷ left) group d))
        ∙ aborted_loop sent (left ++ (k, s) ∷ []) group e (subst AreDistinct (sym moved) d)
        ∙ ap (given_up sent) moved

    one_sent :
        (sent : List Bytes) (k : Bytes) (s : AggregateSet float)
        → goes_through sent (serialized_set float format_float k s) ≡ true
        → serialize_one float format_float goes_through k s
            (record { sent = sent; remaining = none; aborted = false })
          ≡ record {
            sent = sent ++ serialized_set float format_float k s ∷ [];
            remaining = none;
            aborted = false;
          }
    unfolding serialize_one
    one_sent sent k s h = rw h refl

    one_refused :
        (sent : List Bytes) (k : Bytes) (s : AggregateSet float)
        → goes_through sent (serialized_set float format_float k s) ≡ false
        → serialize_one float format_float goes_through k s
            (record { sent = sent; remaining = none; aborted = false })
          ≡ given_up sent ((k, s) ∷ [])
    unfolding serialize_one insert
    one_refused sent k s h = rw h refl

    one_more :
        (sent : List Bytes) (k : Bytes) (s : AggregateSet float) (group : GroupSet float)
        {r : Serialized float}
        → goes_through sent (serialized_set float format_float k s) ≡ true
        → IsSplit (sent ++ serialized_set float format_float k s ∷ []) group r
        → IsSplit sent ((k, s) ∷ group) r
    one_more sent k s group h rest =
        let message = serialized_set float format_float k s in
        let order = append_assoc sent (message ∷ []) (messages_of rest.front) in
        record {
          front = (k, s) ∷ rest.front;
          back = rest.back;
          all_sets = ap (λ g. (k, s) ∷ g) rest.all_sets;
          are_sent = rest.are_sent ∙ order;
          are_left = rest.are_left;
          pass = (h, rest.pass);
          is_refused = subst (λ ms. IsRefused ms rest.back) order rest.is_refused;
        }

    loop-IsSplit :
        (sent : List Bytes) (group : GroupSet float)
        → AreDistinct group
        → IsSplit sent group (
            serialize_loop float format_float goes_through group
              (record { sent = sent; remaining = none; aborted = false }))
    unfolding serialize_loop
    loop-IsSplit sent [] d = record {
      front = [];
      back = [];
      all_sets = refl;
      are_sent = sym (append-nil sent);
      are_left = refl;
      pass = tt;
      is_refused = tt;
    }
    loop-IsSplit sent ((k, s) ∷ group) d =
        let message = serialized_set float format_float k s in
        let loop = serialize_loop float format_float goes_through group in
        elim (Bool-cases (goes_through sent message)) [
          | inl passes ↦
              subst (IsSplit sent ((k, s) ∷ group)) (sym (ap loop (one_sent sent k s passes)))
                (one_more sent k s group passes (loop-IsSplit (sent ++ message ∷ []) group d.1))
          | inr refused ↦
              subst (IsSplit sent ((k, s) ∷ group))
                (sym (ap loop (one_refused sent k s refused) ∙ aborted_loop sent [] group (k, s) d))
                (record {
                  front = [];
                  back = (k, s) ∷ group;
                  all_sets = refl;
                  are_sent = sym (append-nil sent);
                  are_left = refl;
                  pass = tt;
                  is_refused = rw (append-nil sent) refused;
                })
        ]

    -- Serialize sends the sets of the map, one message each and in the order of the iteration, up to
    -- the first send that the end of the context prevents; that set and all behind it are returned
    -- for a retry, in a map that is nil if there are none. No set is lost, and none is both sent and
    -- returned. The keys of the map are distinct.
    pub serialize_groups-IsSplit :
        (group : GroupSet float)
        → AreDistinct group
        → IsSplit [] group (serialize_groups float format_float goes_through group)
    unfolding serialize_groups
    serialize_groups-IsSplit group d = loop-IsSplit [] group d
