-- ===== src/Mapr/Aggregation/RoundTrip.antt =====
-- What a server serializes of a group, the client reads.
use dtail.Base.{
  ℕ, ◌<◌, ◌≡◌, ◌≢◌, refl, ap, ◌∙◌, true, false, List, [], ◌∷◌, ◌++◌, append_assoc, some, arith,
  ◌==◌, length, Bytes, has_prefix, contains, split_text_onto, split_text, atoi, pos, format_uint,
  is_empty, parse_digits,
}
use dtail.Mapr.Float.{Float64}
use dtail.Mapr.Aggregation.{
  aggregate_delimiter, itoa, AggregateSet, pair_text, serialized_floats, serialized_strings,
  serialized_set,
}
use dtail.Mapr.Aggregation.Messages.{
  undelimited, all_pairs, pairs_text, fields_of, split-delimited, pair-split, fields-pairs,
}
use dtail.Mapr.Client.{make_fields, sampled, message, message_of, parse_message}
use dtail.Wire.Cut.{has_byte, has_byte-format_uint, parse_digits-format_uint, is_empty-format_uint}

contains-other : (s : Bytes) → has_byte 226 s ≡ false → contains s aggregate_delimiter ≡ false
unfolding contains has_prefix
contains-other [] h = refl
contains-other (c ∷ s) h = ground (arith, h, contains-other s (ground (arith, h)))

atoi-digits :
    (s : Bytes) (n : ℕ)
    → is_empty s ≡ false
    → has_byte b'-' s ≡ false
    → has_byte b'+' s ≡ false
    → parse_digits 9223372036854775807 s ≡ some n
    → atoi s ≡ some (pos n)
unfolding atoi
atoi-digits [] n e minus plus p = cc
atoi-digits (c ∷ s) n e minus plus p =
    let no_minus : (c == b'-') ≡ false = ground (arith, minus) in
    let no_plus : (c == b'+') ≡ false = ground (arith, plus) in rw (no_minus, no_plus, p) refl

atoi-format_uint : (n : ℕ) → n < 9223372036854775808 → atoi (format_uint n) ≡ some (pos n)
atoi-format_uint n h =
    atoi-digits (format_uint n) n (is_empty-format_uint n) (has_byte-format_uint b'-' n refl)
      (has_byte-format_uint b'+' n refl)
      (parse_digits-format_uint 9223372036854775807 n (omega arith))

module _ (float : Float64) (format_float : float.Value → Bytes) where
  abbrev pub formatted : List (Bytes × float.Value) → List (Bytes × Bytes) → List (Bytes × Bytes)
  formatted [] strings = strings
  formatted ((k, v) ∷ m) strings = (k, format_float v) ∷ formatted m strings

  -- The key and value texts of a set: the numbers, then the strings.
  abbrev pub pairs : AggregateSet float → List (Bytes × Bytes)
  pairs s = formatted s.f_values s.s_values

  strings-pairs :
      (m : List (Bytes × Bytes)) → serialized_strings float format_float m ≡ pairs_text m
  unfolding serialized_strings
  strings-pairs [] = refl
  strings-pairs ((k, v) ∷ m) = ap (λ t. pair_text k v ++ t) (strings-pairs m)

  floats-pairs :
      (m : List (Bytes × float.Value)) (strings : List (Bytes × Bytes))
      → serialized_floats float format_float m ++ serialized_strings float format_float strings
        ≡ pairs_text (formatted m strings)
  unfolding serialized_floats
  floats-pairs [] strings = strings-pairs strings
  floats-pairs ((k, v) ∷ m) strings =
      append_assoc (pair_text k (format_float v)) (serialized_floats float format_float m)
        (serialized_strings float format_float strings)
      ∙ ap (λ t. pair_text k (format_float v) ++ t) (floats-pairs m strings)

parts_of : List (Bytes × Bytes) → List Bytes
parts_of m = split_text_onto aggregate_delimiter [] 0 (pairs_text m)

-- A message with a value has enough parts.
message_of-pairs :
    (key number : Bytes) (kv : Bytes × Bytes) (m : List (Bytes × Bytes))
    → all_pairs (kv ∷ m) ≡ true
    → message_of (key ∷ (number ∷ parts_of (kv ∷ m)))
      ≡ sampled key (parts_of (kv ∷ m)) (atoi number)
unfolding message_of parts_of
message_of-pairs key number (k, v) [] h =
    rw (pair-split k v [] (ground (arith, h))) (unfold split_text_onto in refl)
message_of-pairs key number (k, v) ((k2, v2) ∷ m) h =
    rw
      (
        pair-split k v (pairs_text ((k2, v2) ∷ m)) (ground (arith, h)),
        pair-split k2 v2 (pairs_text m) (ground (arith, h)),
      )
      refl

message-split :
    (key : Bytes) (n : ℕ) (m : List (Bytes × Bytes))
    → undelimited key ≡ true
    → split_text
        (key ++ (aggregate_delimiter ++ (format_uint n ++ (aggregate_delimiter ++ pairs_text m))))
        aggregate_delimiter
      ≡ key ∷ (format_uint n ∷ parts_of m)
unfolding split_text parts_of
message-split key n m h =
    split-delimited 136 165 refl refl [] key
      (format_uint n ++ (aggregate_delimiter ++ pairs_text m)) (ground (arith, h))
    ∙ ap (λ parts. key ∷ parts)
        (split-delimited 136 165 refl refl [] (format_uint n) (pairs_text m)
          (contains-other (format_uint n) (has_byte-format_uint 226 n refl)))

read-pairs :
    (key : Bytes) (n : ℕ) (kv : Bytes × Bytes) (m : List (Bytes × Bytes))
    → undelimited key ≡ true
    → all_pairs (kv ∷ m) ≡ true
    → n < 9223372036854775808
    → parse_message (
        key
        ++ (aggregate_delimiter ++ (format_uint n ++ (aggregate_delimiter ++ pairs_text (kv ∷ m)))))
      ≡ message key (pos n) (fields_of [] (kv ∷ m))
unfolding parse_message make_fields
read-pairs key n kv m clean h small =
    ap message_of (message-split key n (kv ∷ m) clean)
    ∙ message_of-pairs key (format_uint n) kv m h
    ∙ ap (sampled key (parts_of (kv ∷ m))) (atoi-format_uint n small)
    ∙ unfold sampled in ap (message key (pos n)) (unfold parts_of in fields-pairs (kv ∷ m) [] h)

module _ (float : Float64) (format_float : float.Value → Bytes) where
  read-some :
      (key : Bytes) (n : ℕ) (m : List (Bytes × Bytes))
      → undelimited key ≡ true
      → all_pairs m ≡ true
      → n < 9223372036854775808
      → length m ≢ 0
      → parse_message
          (key ++ (aggregate_delimiter ++ (format_uint n ++ (aggregate_delimiter ++ pairs_text m))))
        ≡ message key (pos n) (fields_of [] m)
  read-some key n [] clean h small some_value = absurd (some_value refl)
  read-some key n (kv ∷ m) clean h small some_value = read-pairs key n kv m clean h small

  -- The message that a server serializes of a set with at least one value is read by the client
  -- with the same group key, the same number of samples and a field for each value, where of two
  -- values under one key the string is kept. The delimiters do not occur in the keys and values,
  -- and the number of samples is a non-negative int.
  pub parse_message-serialized_set :
      (key : Bytes) (n : ℕ) (s : AggregateSet float)
      → undelimited key ≡ true
      → all_pairs (pairs float format_float s) ≡ true
      → s.samples ≡ pos n
      → n < 9223372036854775808
      → length (pairs float format_float s) ≢ 0
      → parse_message (serialized_set float format_float key s)
        ≡ message key (pos n) (fields_of [] (pairs float format_float s))
  unfolding serialized_set
  parse_message-serialized_set key n s clean h samples small some_value =
      ap parse_message (
        ap
          (λ i.
            key
            ++ aggregate_delimiter
            ++ itoa i
            ++ aggregate_delimiter
            ++ serialized_floats float format_float s.f_values
            ++ serialized_strings float format_float s.s_values)
          samples
        ∙ (simp append_assoc)
        ∙ ap (λ t. key ++ (aggregate_delimiter ++ (format_uint n ++ (aggregate_delimiter ++ t))))
            (floats-pairs float format_float s.f_values s.s_values))
      ∙ read-some key n (pairs float format_float s) clean h small some_value
