-- ===== src/Wire/Serve/Commands.antt =====
-- A command on its way from the client's SendMessage to the server's handler, and the frames that
-- the server refuses.
use dtail.Base.{
  ℕ, ◌≡◌, refl, sym, ap, ◌∙◌, true, false, List, [], ◌∷◌, ◌++◌, append_assoc, Option, none, some,
  All, inl, inr, Bool-cases, Bytes, codes, is_empty, cut_byte, split, split_onto, str_eq,
}
use dtail.Wire.Cut.{has_byte, split_onto-whole}
use dtail.Wire.Codec.{handle_protocol_version, handle_base64, decoded_text}
use dtail.Wire.Receive.{command_frame, protocol_compat}
use dtail.Wire.Serve.{
  ServerHandler, Timed, timed, timeout_error, handle_options, with_options, dispatch_named,
  dispatch_timed, apply_command_timeout, handle_command, handle_versioned, handle_decoded,
  dispatch_command, report, write, next_byte,
}
use dtail.Wire.Options.{OptionMap, OptionsRead, options_read, options_error, deserialize_options}
use dtail.Wire.Serve.Frames.{is_frame, framed, all_frames, handled, handled_all, write-framed}

-- The text of a command without the semicolon.
abbrev pub command_text : Bytes → Bytes
command_text encoded = codes "protocol " ++ protocol_compat ++ codes " base64 " ++ encoded

command_parts :
    (encoded : Bytes)
    → has_byte b' ' encoded ≡ false
    → split (command_text encoded) b' '
      ≡ codes "protocol" ∷ protocol_compat ∷ codes "base64" ∷ encoded ∷ []
unfolding split split_onto
command_parts encoded h =
    ap (λ rest. codes "protocol" ∷ protocol_compat ∷ codes "base64" ∷ rest)
      (split_onto-whole b' ' [] encoded h)

abbrev buffered : Bytes → ServerHandler → ServerHandler
buffered b h = record h { write_buf = b }

handle_options-buffered :
    (o : OptionMap) (b : Bytes) (h : ServerHandler)
    → handle_options o (buffered b h) ≡ buffered b (handle_options o h)
unfolding handle_options
handle_options-buffered o b h = elim (Bool-cases h.options_known) [
  | inl e ↦ rw e refl
  | inr e ↦ rw e refl
]

module _ (encode_base64 : Bytes → Bytes) (decode_base64 : Bytes → Bytes × Option Bytes)
    (atoi_error error_line : Bytes → Bytes) where
  -- What the server does with a command itself.
  abbrev pub dispatched : Bytes → ServerHandler → ServerHandler
  dispatched command h =
      report decode_base64 atoi_error error_line
        (dispatch_command decode_base64 atoi_error error_line (split command b' ') h)

  abbrev pub dispatched_all : List Bytes → ServerHandler → ServerHandler
  dispatched_all [] h = h
  dispatched_all (c ∷ cs) h = dispatched_all cs (dispatched c h)

  -- Dispatching a command neither reads nor writes the buffer.
  read_options-buffered :
      (d : Option ℕ) (args : List Bytes) (name b : Bytes) (r : OptionsRead) (h : ServerHandler)
      → report decode_base64 atoi_error error_line
          (with_options decode_base64 atoi_error error_line d args name r (buffered b h))
        ≡ buffered b (
            report decode_base64 atoi_error error_line
              (with_options decode_base64 atoi_error error_line d args name r h))
  unfolding with_options report
  read_options-buffered d args name b (options_read o ltx) h =
      rw (handle_options-buffered o b h) refl
  read_options-buffered d args name b (options_error err o ltx) h = refl

  named-buffered :
      (d : Option ℕ) (args : List Bytes) (word b : Bytes) (c : Option (Bytes × Bytes))
      (h : ServerHandler)
      → report decode_base64 atoi_error error_line
          (dispatch_named decode_base64 atoi_error error_line d args word c (buffered b h))
        ≡ buffered b (
            report decode_base64 atoi_error error_line
              (dispatch_named decode_base64 atoi_error error_line d args word c h))
  unfolding dispatch_named
  named-buffered d args word b none h = unfold report in refl
  named-buffered d args word b (some (name, o)) h = elim (Bool-cases (is_empty o)) [
    | inl e ↦ rw e (unfold report in refl)
    | inr e ↦ rw e (
        read_options-buffered d args name b (deserialize_options decode_base64 atoi_error (o ∷ []))
          h)
  ]

  timed-buffered :
      (b : Bytes) (t : Timed) (h : ServerHandler)
      → report decode_base64 atoi_error error_line
          (dispatch_timed decode_base64 atoi_error error_line t (buffered b h))
        ≡ buffered b (
            report decode_base64 atoi_error error_line
              (dispatch_timed decode_base64 atoi_error error_line t h))
  unfolding dispatch_timed
  timed-buffered b (timeout_error err) h = unfold report in refl
  timed-buffered b (timed d []) h = unfold report in refl
  timed-buffered b (timed d (arg ∷ args)) h =
      named-buffered d (arg ∷ args) arg b (cut_byte b':' arg) h

  dispatched-buffered :
      (command b : Bytes) (h : ServerHandler)
      → dispatched command (buffered b h) ≡ buffered b (dispatched command h)
  unfolding dispatch_command
  dispatched-buffered command b h =
      timed-buffered b
        (apply_command_timeout decode_base64 atoi_error error_line (split command b' ')) h

  handle_command-text :
      (command : Bytes) (h : ServerHandler)
      → has_byte b' ' (encode_base64 command) ≡ false
      → decode_base64 (encode_base64 command) ≡ (command, none)
      → handle_command decode_base64 atoi_error error_line (command_text (encode_base64 command)) h
        ≡ dispatched command h
  unfolding handle_command handle_versioned handle_protocol_version str_eq handle_base64
      decoded_text handle_decoded
  handle_command-text command h clean inverse =
      ap
        (λ args.
          handle_versioned decode_base64 atoi_error error_line (handle_protocol_version args) h)
        (command_parts (encode_base64 command) clean)
      ∙ ap
          (λ d. handle_decoded decode_base64 atoi_error error_line (decoded_text decode_base64 d) h)
          inverse

  -- What a client's SendMessage hands over, for one command after the other.
  abbrev pub sent : List Bytes → Bytes
  sent [] = []
  sent (c ∷ cs) = command_frame (encode_base64 c) ++ sent cs

  abbrev command_texts : List Bytes → List Bytes
  command_texts [] = []
  command_texts (c ∷ cs) = command_text (encode_base64 c) ∷ command_texts cs

  sent-framed : (cs : List Bytes) → sent cs ≡ framed (command_texts cs)
  unfolding command_frame
  sent-framed [] = refl
  sent-framed (c ∷ cs) =
      rw (append_assoc (encode_base64 c) (b';' ∷ []) (sent cs), sent-framed cs) refl

  -- base64 text has neither a semicolon nor a space, and decodes to what was encoded.
  abbrev pub IsCarried : ℕ → Bytes → Type 0
  IsCarried max c =
      (decode_base64 (encode_base64 c) ≡ (c, none))
      × (has_byte b' ' (encode_base64 c) ≡ false)
      × (is_frame max (command_text (encode_base64 c)) ≡ true)

  handled-dispatched :
      (max : ℕ) (c : Bytes) (h : ServerHandler)
      → IsCarried max c
      → h.write_buf ≡ []
      → handled decode_base64 atoi_error error_line max (command_text (encode_base64 c)) h
        ≡ dispatched c h
  handled-dispatched max c h (inverse, clean, f) e =
      let text : Bytes = command_text (encode_base64 c) in
      ap (buffered []) (handle_command-text c (buffered text h) clean inverse)
      ∙ ap (buffered []) (dispatched-buffered c text h)
      ∙ sym (dispatched-buffered c [] h)
      ∙ ap (λ b. dispatched c (buffered b h)) (sym e)

  dispatched-empty :
      (c : Bytes) (h : ServerHandler) → h.write_buf ≡ [] → (dispatched c h).write_buf ≡ []
  dispatched-empty c h e =
      ap (λ b. (dispatched c (buffered b h)).write_buf) e
      ∙ ap (λ g. g.write_buf) (dispatched-buffered c [] h)

  handled_all-dispatched_all :
      (max : ℕ) (cs : List Bytes) (h : ServerHandler)
      → All (IsCarried max) cs
      → h.write_buf ≡ []
      → handled_all decode_base64 atoi_error error_line max (command_texts cs) h
        ≡ dispatched_all cs h
  handled_all-dispatched_all max [] h _ e = refl
  handled_all-dispatched_all max (c ∷ cs) h (carried, rest) e =
      ap (handled_all decode_base64 atoi_error error_line max (command_texts cs))
        (handled-dispatched max c h carried e)
      ∙ handled_all-dispatched_all max cs (dispatched c h) rest (dispatched-empty c h e)

  all_frames-texts :
      (max : ℕ) (cs : List Bytes)
      → All (IsCarried max) cs
      → all_frames max (command_texts cs) ≡ true
  all_frames-texts max [] _ = refl
  all_frames-texts max (c ∷ cs) ((_, _, f), rest) = rw (f, all_frames-texts max cs rest) refl

  -- The commands that a client sends are dispatched by the server, in their order and each split
  -- into its words, however the stream of bytes is cut in two, if the server's limit has room for
  -- each, its decoder undoes the client's encoder and base64 text has no space and no semicolon.
  pub write-sent :
      (max : ℕ) (cs : List Bytes) (p q : Bytes) (h : ServerHandler)
      → All (IsCarried max) cs
      → h.write_buf ≡ []
      → p ++ q ≡ sent cs
      → next_byte
          (write decode_base64 atoi_error error_line max q)
          (write decode_base64 atoi_error error_line max p h)
        ≡ (dispatched_all cs h, false)
  write-sent max cs p q h carried e cut =
      write-framed decode_base64 atoi_error error_line max (command_texts cs) p q h
        (all_frames-texts max cs carried) e (cut ∙ sent-framed cs)
      ∙ ap (λ g. (g, false)) (handled_all-dispatched_all max cs h carried e)
