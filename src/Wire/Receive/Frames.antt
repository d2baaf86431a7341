-- ===== src/Wire/Receive/Frames.antt =====
-- The messages that the client takes from the stream of bytes.
use dtail.Base.{
  ◌≡◌, refl, sym, ap, ◌∙◌, Bool, true, false, not, List, [], ◌∷◌, ◌++◌, append-nil, append_assoc,
  arith, ◌==◌, any, Bytes,
}
use dtail.Wire.Cut.{has_byte}
use dtail.Wire.Format.{message_delimiter}
use dtail.Wire.Receive.{ClientHandler, handle_message, write_byte, write}

-- The bytes of messages, each with its delimiter.
abbrev pub framed : List Bytes → Bytes
framed [] = []
framed (m ∷ ms) = m ++ (message_delimiter ∷ framed ms)

abbrev pub undelimited : Bytes → Bool
undelimited m = not (has_byte message_delimiter m)

module _ (encode_base64 : Bytes → Bytes) (takes : ClientHandler → Bytes → Bool) where
  -- One message handled, and the buffer that held it cleared.
  abbrev pub received : Bytes → ClientHandler → ClientHandler
  received m h = record (handle_message encode_base64 takes m (record h { receive_buf = m })) {
    receive_buf = [];
  }

  abbrev pub received_all : List Bytes → ClientHandler → ClientHandler
  received_all [] h = h
  received_all (m ∷ ms) h = received_all ms (received m h)

  pub write-append :
      (p q : Bytes) (h : ClientHandler)
      → write encode_base64 takes (p ++ q) h
        ≡ write encode_base64 takes q (write encode_base64 takes p h)
  unfolding write
  write-append [] q h = refl
  write-append (b ∷ p) q h = write-append p q (write_byte encode_base64 takes b h)

  pub write-undelimited :
      (m : Bytes) (h : ClientHandler)
      → undelimited m ≡ true
      → write encode_base64 takes m h ≡ record h { receive_buf = h.receive_buf ++ m }
  unfolding write write_byte
  write-undelimited [] h _ = rw (append-nil h.receive_buf) refl
  write-undelimited (b ∷ m) h u =
      let plain : (b == message_delimiter) ≡ false = ground (arith, u) in
      rw
        (
          plain,
          write-undelimited m (record h { receive_buf = h.receive_buf ++ b ∷ [] })
              (ground (arith, u)),
          append_assoc h.receive_buf (b ∷ []) m,
        )
        refl

  write-frame :
      (m rest : Bytes) (h : ClientHandler)
      → undelimited m ≡ true
      → h.receive_buf ≡ []
      → write encode_base64 takes (m ++ message_delimiter ∷ rest) h
        ≡ write encode_base64 takes rest (received m h)
  write-frame m rest h u e =
      let buffered : write encode_base64 takes m h ≡ record h { receive_buf = m } =
        write-undelimited m h u ∙ rw e refl in
      write-append m (message_delimiter ∷ rest) h
      ∙ ap (write encode_base64 takes (message_delimiter ∷ rest)) buffered
      ∙ unfold write write_byte in refl

  pub write-whole :
      (ms : List Bytes) (h : ClientHandler)
      → any (has_byte message_delimiter) ms ≡ false
      → h.receive_buf ≡ []
      → write encode_base64 takes (framed ms) h ≡ received_all ms h
  write-whole [] h u e = unfold write in refl
  write-whole (m ∷ ms) h u e =
      write-frame m (framed ms) h (ground (arith, u)) e
      ∙ write-whole ms (received m h) (ground (arith, u)) refl

  -- A client with nothing buffered handles exactly the messages that were sent, in their order,
  -- however the stream of bytes is cut up, if no message has the delimiter's byte.
  pub write-framed :
      (ms : List Bytes) (p q : Bytes) (h : ClientHandler)
      → any (has_byte message_delimiter) ms ≡ false
      → h.receive_buf ≡ []
      → p ++ q ≡ framed ms
      → write encode_base64 takes q (write encode_base64 takes p h) ≡ received_all ms h
  write-framed ms p q h u e cut =
      sym (write-append p q h)
      ∙ ap (λ bytes. write encode_base64 takes bytes h) cut
      ∙ write-whole ms h u e
