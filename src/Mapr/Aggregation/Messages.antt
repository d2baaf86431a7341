-- ===== src/Mapr/Aggregation/Messages.antt =====
-- The message of an aggregate set, as the client reads it.
use dtail.Base.{
  ℕ, ◌-◌, ◌≡◌, refl, ap, ◌∙◌, Bool, true, false, not, ◌&&◌, List, [], ◌∷◌, ◌++◌, append-nil,
  append_assoc, some, arith, ◌==◌, length, drop, Bytes, has_prefix, contains, cut, split_text_onto,
}
use dtail.Base.Maps.{insert}
use dtail.Mapr.Aggregation.{aggregate_delimiter, aggregate_kv_delimiter, pair_text}
use dtail.Mapr.Client.{make_fields_onto}

cut-here :
    (sep s : Bytes) (c : ℕ)
    → has_prefix (c ∷ s) sep ≡ true
    → cut sep (c ∷ s) ≡ some ([], drop (length sep) (c ∷ s))
unfolding cut
cut-here sep s c h = rw (h, cut) refl

split-here :
    (sep cur s : Bytes) (c : ℕ)
    → has_prefix (c ∷ s) sep ≡ true
    → split_text_onto sep cur 0 (c ∷ s) ≡ cur ∷ split_text_onto sep [] (length sep - 1) s
unfolding split_text_onto
split-here sep cur s c h = rw (h, split_text_onto) refl

-- Both delimiters are three bytes, the first of which is neither the second nor the third.
module _ (x y : ℕ) (hx : (226 == x) ≡ false) (hy : (226 == y) ≡ false) where
  abbrev delimiter : Bytes
  delimiter = 226 ∷ x ∷ y ∷ []

  -- A delimiter does not begin in the text before it.
  has_prefix-before :
      (c : ℕ) (k r : Bytes)
      → contains (c ∷ k) delimiter ≡ false
      → has_prefix ((c ∷ k) ++ (delimiter ++ r)) delimiter ≡ false
  unfolding contains has_prefix
  has_prefix-before c [] r h = ground (arith, hx)
  has_prefix-before c (d ∷ []) r h = ground (arith, hy)
  has_prefix-before c (d ∷ (e ∷ k)) r h = ground (arith, h)

  has_prefix-delimiter : (r : Bytes) → has_prefix (delimiter ++ r) delimiter ≡ true
  unfolding has_prefix
  has_prefix-delimiter r = ground arith

  contains-rest :
      (c : ℕ) (k : Bytes) → contains (c ∷ k) delimiter ≡ false → contains k delimiter ≡ false
  unfolding contains
  contains-rest c k h = ground (arith, h)

  cut-delimited :
      (k r : Bytes)
      → contains k delimiter ≡ false
      → cut delimiter (k ++ (delimiter ++ r)) ≡ some (k, r)
  unfolding cut
  cut-delimited [] r h = cut-here delimiter (x ∷ (y ∷ r)) 226 (has_prefix-delimiter r)
  cut-delimited (c ∷ k) r h =
      rw (has_prefix-before c k r h, cut-delimited k r (contains-rest c k h), cut) refl

  pub split-delimited :
      (cur k r : Bytes)
      → contains k delimiter ≡ false
      → split_text_onto delimiter cur 0 (k ++ (delimiter ++ r))
        ≡ (cur ++ k) ∷ split_text_onto delimiter [] 0 r
  unfolding split_text_onto
  split-delimited cur [] r h =
      split-here delimiter cur (x ∷ (y ∷ r)) 226 (has_prefix-delimiter r) ∙ rw (append-nil cur) refl
  split-delimited cur (c ∷ k) r h =
      rw
        (
          has_prefix-before c k r h,
          split-delimited (cur ++ c ∷ []) k r (contains-rest c k h),
          append_assoc cur (c ∷ []) k,
          split_text_onto,
        )
        refl

abbrev pub undelimited : Bytes → Bool
undelimited s = not (contains s aggregate_delimiter)

-- A pair that a message can carry.
abbrev pub is_pair : Bytes × Bytes → Bool
is_pair (k, v) =
    not (contains k aggregate_kv_delimiter) && undelimited (k ++ (aggregate_kv_delimiter ++ v))

-- The pairs of a message, in their order.
abbrev pub pairs_text : List (Bytes × Bytes) → Bytes
pairs_text [] = []
pairs_text ((k, v) ∷ m) = pair_text k v ++ pairs_text m

abbrev pub all_pairs : List (Bytes × Bytes) → Bool
all_pairs [] = true
all_pairs (kv ∷ m) = is_pair kv && all_pairs m

-- The map that is made of the pairs.
abbrev pub fields_of : List (Bytes × Bytes) → List (Bytes × Bytes) → List (Bytes × Bytes)
fields_of fields [] = fields
fields_of fields ((k, v) ∷ m) = fields_of (insert k v fields) m

pub pair-split :
    (k v rest : Bytes)
    → is_pair (k, v) ≡ true
    → split_text_onto aggregate_delimiter [] 0 (pair_text k v ++ rest)
      ≡ (k ++ (aggregate_kv_delimiter ++ v)) ∷ split_text_onto aggregate_delimiter [] 0 rest
pair-split k v rest h =
    ap (split_text_onto aggregate_delimiter [] 0) (simp append_assoc)
    ∙ split-delimited 136 165 refl refl [] (k ++ (aggregate_kv_delimiter ++ v)) rest
        (ground (arith, h))

fields-pair :
    (k v : Bytes) (fields : List (Bytes × Bytes)) (parts : List Bytes)
    → is_pair (k, v) ≡ true
    → make_fields_onto fields ((k ++ (aggregate_kv_delimiter ++ v)) ∷ parts)
      ≡ make_fields_onto (insert k v fields) parts
unfolding make_fields_onto
fields-pair k v fields parts h =
    rw (cut-delimited 137 148 refl refl k v (ground (arith, h)), make_fields_onto) refl

-- The fields that are made of the text of pairs.
pub fields-pairs :
    (m fields : List (Bytes × Bytes))
    → all_pairs m ≡ true
    → make_fields_onto fields (split_text_onto aggregate_delimiter [] 0 (pairs_text m))
      ≡ fields_of fields m
fields-pairs [] fields h = unfold make_fields_onto split_text_onto cut in refl
fields-pairs ((k, v) ∷ m) fields h =
    ap (make_fields_onto fields) (pair-split k v (pairs_text m) (ground (arith, h)))
    ∙ fields-pair k v fields (split_text_onto aggregate_delimiter [] 0 (pairs_text m))
        (ground (arith, h))
    ∙ fields-pairs m (insert k v fields) (ground (arith, h))
