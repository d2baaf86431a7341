-- ===== src/Wire/Receive/Confused.antt =====
-- Lines of a file that the client takes for messages of the protocol.
use mathlib.Core.List.{reverse, reverse-append, reverse-reverse}
use dtail.Base.{
  ℕ, ◌≡◌, refl, sym, ap, ◌∙◌, Bool, true, false, [], ◌∷◌, ◌++◌, append_assoc, arith, ◌==◌,
  any-append, format_uint, Bytes, codes, has_prefix, split, split_onto, trim_space, trim_left,
  is_space,
}
use dtail.Wire.Cut.{has_byte}
use dtail.Wire.Format.{message_delimiter, field_delimiter, format_remote_header, format_remote_line}
use dtail.Wire.Receive.{
  ClientHandler, handle_message, handle_hidden_message, shown, last_part, auth_key_payload, write,
  parse_auth_key_message, auth_key_ok, handle_auth_key_message, shutdown,
}
use dtail.Wire.Receive.Frames.{framed, write-whole}

last_part-split_onto :
    (s t cur y : Bytes) (b : ℕ)
    → last_part s (split_onto b cur y) ≡ last_part t (split_onto b cur y)
unfolding split_onto
last_part-split_onto s t cur [] b = refl
last_part-split_onto s t cur (c ∷ y) b =
    ground (arith, last_part-split_onto s t (cur ++ c ∷ []) y b)

-- The last part of a text is the last part of what stands behind one of its delimiters.
last_part-split :
    (s cur x y : Bytes) (b : ℕ)
    → last_part s (split_onto b cur (x ++ b ∷ y)) ≡ last_part s (split_onto b [] y)
unfolding split_onto
last_part-split s cur [] y b = ground (arith, last_part-split_onto s cur [] y b)
last_part-split s cur (c ∷ x) y b = ground (
  arith,
  last_part-split s (cur ++ c ∷ []) x y b,
  last_part-split s [] x y b,
  last_part-split_onto s cur [] (x ++ b ∷ y) b,
)

trim_left-visible : (c : ℕ) (m : Bytes) → is_space c ≡ false → trim_left (c ∷ m) ≡ c ∷ m
unfolding trim_left
trim_left-visible c m v = rw v refl

-- A text that neither begins nor ends with a space stays as it is.
trim_space-visible :
    (c d : ℕ) (m : Bytes)
    → is_space c ≡ false
    → is_space d ≡ false
    → trim_space ((c ∷ m) ++ d ∷ []) ≡ (c ∷ m) ++ d ∷ []
unfolding trim_space
trim_space-visible c d m vc vd =
    rw
      (
        trim_left-visible c (m ++ d ∷ []) vc,
        reverse-append (c ∷ m) (d ∷ []),
        trim_left-visible d (reverse (c ∷ m)) vd,
        sym (reverse-append (c ∷ m) (d ∷ [])),
        reverse-reverse ((c ∷ m) ++ d ∷ []),
      )
      refl

auth_key_message :
    (c : ℕ) (m : Bytes)
    → is_space c ≡ false
    → parse_auth_key_message ((c ∷ m) ++ field_delimiter ∷ codes "AUTHKEY OK") ≡ auth_key_ok
unfolding parse_auth_key_message split
auth_key_message c m v =
    let ends : (c ∷ m) ++ field_delimiter ∷ codes "AUTHKEY OK"
        ≡ (c ∷ (m ++ field_delimiter ∷ codes "AUTHKEY O")) ++ b'K' ∷ [] =
      sym (append_assoc (c ∷ m) (field_delimiter ∷ codes "AUTHKEY O") (b'K' ∷ [])) in
    let whole : trim_space ((c ∷ m) ++ field_delimiter ∷ codes "AUTHKEY OK")
        ≡ (c ∷ m) ++ field_delimiter ∷ codes "AUTHKEY OK" =
      ap trim_space ends
      ∙ trim_space-visible c b'K' (m ++ field_delimiter ∷ codes "AUTHKEY O") v refl
      ∙ sym ends in
    rw
      (
        whole,
        last_part-split ((c ∷ m) ++ field_delimiter ∷ codes "AUTHKEY OK") [] (c ∷ m)
            (codes "AUTHKEY OK") field_delimiter,
      )
      (unfold split_onto trim_space auth_key_payload in refl)

module _ (hostname transmitted_perc source_id : Bytes) (line_num : ℕ) where
  abbrev header : Bytes
  header = format_remote_header [] hostname transmitted_perc line_num source_id

  header_front : Bytes
  header_front =
      codes "EMOTE"
      ++ (field_delimiter ∷ hostname)
      ++ (field_delimiter ∷ transmitted_perc)
      ++ (field_delimiter ∷ format_uint line_num)
      ++ (field_delimiter ∷ source_id)

  header-front :
      (content : Bytes) → header ++ content ≡ (b'R' ∷ header_front) ++ field_delimiter ∷ content
  unfolding format_remote_header header_front
  header-front content = append_assoc (b'R' ∷ header_front) (field_delimiter ∷ []) content

  framed_line :
      (content : Bytes)
      → format_remote_line [] hostname transmitted_perc line_num source_id content
        ≡ framed ((header ++ content) ∷ [])
  unfolding format_remote_line
  framed_line content = refl

  module _ (encode_base64 : Bytes → Bytes) (takes : ClientHandler → Bytes → Bool) where
    handle_auth_key_line :
        (h : ClientHandler)
        → handle_message encode_base64 takes (header ++ codes "AUTHKEY OK") h ≡ h
    unfolding handle_message
    handle_auth_key_line h =
        rw (header-front (codes "AUTHKEY OK"), auth_key_message b'R' header_front refl)
          (unfold shown handle_auth_key_message in refl)

    -- A line of a file that reads AUTHKEY OK, sent with the header of a remote line, is not shown:
    -- the client takes it for the answer to a command of its own.
    pub write-auth_key_line :
        (h : ClientHandler)
        → has_byte message_delimiter header ≡ false
        → h.receive_buf ≡ []
        → write encode_base64 takes
            (format_remote_line [] hostname transmitted_perc line_num source_id
              (codes "AUTHKEY OK"))
            h
          ≡ h
    write-auth_key_line h clean e =
        let m : Bytes = header ++ codes "AUTHKEY OK" in
        ap (λ bytes. write encode_base64 takes bytes h) (framed_line (codes "AUTHKEY OK"))
        ∙ write-whole encode_base64 takes (m ∷ []) h
            (ground
              (arith, clean, any-append (λ c. c == message_delimiter) header (codes "AUTHKEY OK")))
            e
        ∙ rw (handle_auth_key_line (record h { receive_buf = m }), sym e) refl

    two_frames :
        (s t : Bytes)
        → framed ((header ++ (s ++ message_delimiter ∷ t)) ∷ []) ≡ framed ((header ++ s) ∷ t ∷ [])
    two_frames s t =
        ap (λ m. framed (m ∷ [])) (sym (append_assoc header s (message_delimiter ∷ t)))
        ∙ append_assoc (header ++ s) (message_delimiter ∷ t) (message_delimiter ∷ [])

    close_message :
        (h : ClientHandler)
        → (handle_message encode_base64 takes (codes ".syn close connection") h).done ≡ true
    unfolding handle_message handle_hidden_message has_prefix shutdown
    close_message h = refl

    -- A line of a file with the byte of the delimiter in it ends there for the client, which takes
    -- what follows for a message: a line can close the connection.
    pub write-closing_line :
        (s : Bytes) (h : ClientHandler)
        → has_byte message_delimiter (header ++ s) ≡ false
        → h.receive_buf ≡ []
        → (write encode_base64 takes
            (format_remote_line [] hostname transmitted_perc line_num source_id
              (s ++ message_delimiter ∷ codes ".syn close connection"))
            h).done
          ≡ true
    write-closing_line s h clean e =
        let close : Bytes = codes ".syn close connection" in
        ap (λ bytes. (write encode_base64 takes bytes h).done)
          (framed_line (s ++ message_delimiter ∷ close) ∙ two_frames s close)
        ∙ ap (λ g. g.done)
            (write-whole encode_base64 takes ((header ++ s) ∷ close ∷ []) h (ground (arith, clean))
              e)
        ∙ close_message _
