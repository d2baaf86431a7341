-- ===== src/Wire/Options/RoundTrip.antt =====
-- The options that a client sends are those that the server reads.
use mathlib.Core.Path.{fun_ext}
use dtail.Base.{
  ◌≡◌, refl, ap, ◌∙◌, false, ◌||◌, [], ◌∷◌, ◌++◌, Option, none, arith, ◌==◌, inl, inr, Bool-cases,
  any, any-append, All, Bytes, is_empty, has_prefix, cut_byte, split, join, trim_space,
}
use dtail.Fs.LineContext.{LineContext}
use dtail.Wire.Cut.{has_byte, cut_byte-append, split-join}
use dtail.Wire.Options.{
  no_context, OptionMap, base64_mark, sorted, is_special, OptionsRead, options_read,
  serialize_option_value, serialize_option, serialized, serialize_option_map, set_option,
  set_decoded, set_value, set_pair, then_read, set_all, deserialize_options,
}

module _ (encode_base64 : Bytes → Bytes) (decode_base64 : Bytes → Bytes × Option Bytes)
    (atoi_error : Bytes → Bytes) where
  -- The options set one after the other, until one is wrong.
  abbrev pub set_pairs : OptionMap → OptionMap → LineContext → OptionsRead
  set_pairs [] options ltx = options_read options ltx
  set_pairs ((k, v) ∷ m) options ltx =
      then_read decode_base64 atoi_error (set_option decode_base64 atoi_error k v options ltx)
        (set_pairs m)

  -- base64 undone by the server and without a colon, and a key without '=' and ':'.
  abbrev pub IsSendable : Bytes × Bytes → Type 0
  IsSendable (k, v) =
      (decode_base64 (encode_base64 v) ≡ (v, none))
      × (has_byte b':' (encode_base64 v) ≡ false)
      × (has_byte b':' k ≡ false)
      × (has_byte b'=' k ≡ false)

  no_colon : (v : Bytes) → any is_special v ≡ false → has_byte b':' v ≡ false
  no_colon [] h = refl
  no_colon (c ∷ v) h = ground (arith, h, no_colon v (ground (arith, h)))

  value-read :
      (k v : Bytes) (options : OptionMap) (ltx : LineContext)
      → IsSendable (k, v)
      → set_value decode_base64 atoi_error k (serialize_option_value encode_base64 v) options ltx
        ≡ set_option decode_base64 atoi_error k v options ltx
  unfolding serialize_option_value set_value
  value-read k v options ltx (inverse, _, _, _) =
      elim (Bool-cases (any is_special v || has_prefix v base64_mark)) [
        | inl e ↦ rw e (unfold has_prefix in rw inverse (unfold set_decoded in refl))
        | inr e ↦
            let plain : has_prefix v base64_mark ≡ false = ground (arith, e) in rw e (rw plain refl)
      ]

  value-colon :
      (k v : Bytes)
      → IsSendable (k, v)
      → has_byte b':' (serialize_option_value encode_base64 v) ≡ false
  unfolding serialize_option_value
  value-colon k v (_, clean, _, _) =
      elim (Bool-cases (any is_special v || has_prefix v base64_mark)) [
        | inl e ↦ rw e clean
        | inr e ↦ rw e (no_colon v (ground (arith, e)))
      ]

  option-colon :
      (k v : Bytes)
      → IsSendable (k, v)
      → has_byte b':' (serialize_option encode_base64 (k, v)) ≡ false
  unfolding serialize_option
  option-colon k v s =
      let (_, _, key, _) = s in
      any-append (λ c. c == b':') k (b'=' ∷ serialize_option_value encode_base64 v)
      ∙ ground (arith, key, value-colon k v s)

  options-colon :
      (m : OptionMap) → All IsSendable m → any (has_byte b':') (serialized encode_base64 m) ≡ false
  unfolding serialized
  options-colon [] _ = refl
  options-colon ((k, v) ∷ m) (s, rest) = rw (option-colon k v s, options-colon m rest) refl

  pair-read :
      (k v : Bytes) (options : OptionMap) (ltx : LineContext)
      → IsSendable (k, v)
      → set_pair decode_base64 atoi_error
          (serialize_option encode_base64 (k, v))
          (cut_byte b'=' (serialize_option encode_base64 (k, v)))
          options
          ltx
        ≡ set_option decode_base64 atoi_error k v options ltx
  unfolding serialize_option
  pair-read k v options ltx s =
      let (_, _, _, key) = s in
      let text : Bytes = k ++ (b'=' ∷ serialize_option_value encode_base64 v) in
      ap (λ o. set_pair decode_base64 atoi_error text o options ltx)
        (cut_byte-append b'=' k (serialize_option_value encode_base64 v) key)
      ∙ unfold set_pair in value-read k v options ltx s

  set_all-serialized :
      (m options : OptionMap) (ltx : LineContext)
      → All IsSendable m
      → set_all decode_base64 atoi_error (serialized encode_base64 m) options ltx
        ≡ set_pairs m options ltx
  unfolding serialized set_all
  set_all-serialized [] options ltx _ = refl
  set_all-serialized ((k, v) ∷ m) options ltx (s, rest) =
      ap
        (λ r.
          then_read decode_base64 atoi_error r
            (set_all decode_base64 atoi_error (serialized encode_base64 m)))
        (pair-read k v options ltx s)
      ∙ ap
          (then_read decode_base64 atoi_error (set_option decode_base64 atoi_error k v options ltx))
          (fun_ext (λ o. fun_ext (λ l. set_all-serialized m o l rest)))

  joined :
      (m : OptionMap)
      → All IsSendable m
      → is_empty (join (serialized encode_base64 m) b':') ≡ false
      → set_all decode_base64 atoi_error
          (split (join (serialized encode_base64 m) b':') b':')
          []
          no_context
        ≡ set_pairs m [] no_context
  unfolding serialized
  joined [] _ e = unfold join in cc
  joined (kv ∷ m) s e =
      ap (λ parts. set_all decode_base64 atoi_error parts [] no_context)
        (split-join b':' (serialize_option encode_base64 kv) (serialized encode_base64 m)
          (options-colon (kv ∷ m) s))
      ∙ set_all-serialized (kv ∷ m) [] no_context s

  -- The options that a client serializes are set by the server, one after the other in the order of
  -- their keys, with the values that they had. Keys have no colon and no equals sign, base64 text has
  -- no colon and is undone by the server, and the text neither is empty nor begins or ends with a space.
  pub deserialize_options-serialize :
      (m : OptionMap)
      → All IsSendable (sorted m)
      → is_empty (serialize_option_map encode_base64 m) ≡ false
      → trim_space (serialize_option_map encode_base64 m) ≡ serialize_option_map encode_base64 m
      → deserialize_options decode_base64 atoi_error (serialize_option_map encode_base64 m ∷ [])
        ≡ set_pairs (sorted m) [] no_context
  unfolding deserialize_options serialize_option_map
  deserialize_options-serialize m s e trimmed = rw (trimmed, e) (joined (sorted m) s e)
