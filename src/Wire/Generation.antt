-- ===== src/Wire/Generation.antt =====
-- The tag that a session's generation puts in front of a message: generation_output.go of
-- internal/server/handlers.
use dtail.Base.{
  ℕ, zero, suc, ◌<◌, ◌≡◌, refl, ap, ◌∙◌, false, [], ◌∷◌, ◌++◌, append_assoc, Option, none, some,
  arith, ◌==◌, if◌then◌else◌, Bytes, codes, has_prefix, length, drop, cut_byte, parse_uint,
  format_uint,
}
use dtail.Wire.Cut.{has_byte-format_uint, cut_byte-append, parse_uint-format_uint}

-- \x1egen:
abbrev pub generation_output_prefix : Bytes
generation_output_prefix = 30 ∷ codes "gen:"

unfoldable pub encode_generated_message : ℕ → Bytes → Bytes
encode_generated_message generation message =
    if generation == 0
    then message
    else generation_output_prefix ++ (format_uint generation ++ 30 ∷ message)

-- The number and the message after the prefix.
parsed_number : Bytes → Bytes → Option ℕ → ℕ × Bytes
parsed_number message rest none = (0, message)
parsed_number message rest (some generation) = (generation, rest)

decoded_rest : Bytes → Option (Bytes × Bytes) → ℕ × Bytes
unfolding parsed_number
decoded_rest message none = (0, message)
decoded_rest message (some (digits, rest)) = parsed_number message rest (parse_uint digits)

unfoldable pub decode_generated_message : Bytes → ℕ × Bytes
unfolding decoded_rest has_prefix
decode_generated_message message =
    if has_prefix message generation_output_prefix
    then decoded_rest message (cut_byte 30 (drop (length generation_output_prefix) message))
    else (0, message)

unfoldable pub encode_generated_bytes : ℕ → Bytes → Bytes
encode_generated_bytes generation payload =
    if generation == 0
    then payload
    else generation_output_prefix ++ (format_uint generation ++ 30 ∷ []) ++ payload

unfoldable pub decode_generated_bytes : Bytes → ℕ × Bytes
decode_generated_bytes payload =
    let (generation, decoded) = decode_generated_message payload in
    if generation == 0 then (0, payload) else (generation, decoded)

decode-prefix :
    (m : Bytes)
    → decode_generated_message (generation_output_prefix ++ m)
      ≡ decoded_rest (generation_output_prefix ++ m) (cut_byte 30 m)
unfolding decode_generated_message has_prefix
decode-prefix m = refl

decode-tagged :
    (g : ℕ) (m : Bytes)
    → g < 18446744073709551616
    → decode_generated_message (generation_output_prefix ++ (format_uint g ++ 30 ∷ m)) ≡ (g, m)
unfolding decoded_rest parsed_number
decode-tagged g m h =
    let whole : Bytes = generation_output_prefix ++ (format_uint g ++ 30 ∷ m) in
    decode-prefix (format_uint g ++ 30 ∷ m)
    ∙ ap (decoded_rest whole)
        (cut_byte-append 30 (format_uint g) m (has_byte-format_uint 30 g refl))
    ∙ ap (parsed_number whole m) (parse_uint-format_uint g h)

encode-tagged :
    (g : ℕ) (m : Bytes)
    → encode_generated_message (suc g) m
      ≡ generation_output_prefix ++ (format_uint (suc g) ++ 30 ∷ m)
unfolding encode_generated_message
encode-tagged g m = ground arith

encode_bytes-encode_message :
    (g : ℕ) (m : Bytes) → encode_generated_bytes g m ≡ encode_generated_message g m
unfolding encode_generated_bytes encode_generated_message
encode_bytes-encode_message g m = rw (append_assoc (format_uint g) (30 ∷ []) m) refl

-- What the server tags with a generation that fits in 64 bits is read back with that generation.
-- A message without a generation is sent as it is, and is read back if it does not itself begin
-- like a tag.
pub decode_generated_message-encode :
    (g : ℕ) (m : Bytes)
    → g < 18446744073709551616
    → (g ≡ 0 → has_prefix m generation_output_prefix ≡ false)
    → decode_generated_message (encode_generated_message g m) ≡ (g, m)
unfolding decode_generated_message encode_generated_message
decode_generated_message-encode zero m h plain = rw (plain refl) refl
decode_generated_message-encode (suc g) m h plain =
    rw (encode-tagged g m) (decode-tagged (suc g) m h)

-- The same of the bytes of a line.
pub decode_generated_bytes-encode :
    (g : ℕ) (m : Bytes)
    → g < 18446744073709551616
    → (g ≡ 0 → has_prefix m generation_output_prefix ≡ false)
    → decode_generated_bytes (encode_generated_bytes g m) ≡ (g, m)
unfolding decode_generated_bytes
decode_generated_bytes-encode zero m h plain =
    rw (encode_bytes-encode_message 0 m, decode_generated_message-encode 0 m h plain)
      (unfold encode_generated_message in refl)
decode_generated_bytes-encode (suc g) m h plain =
    rw (encode_bytes-encode_message (suc g) m, decode_generated_message-encode (suc g) m h plain)
      (ground arith)
