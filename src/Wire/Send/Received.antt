-- ===== src/Wire/Send/Received.antt =====
-- From the events of the server to the messages that the client handles.
use dtail.Base.{
  ℕ, ◌≡◌, refl, sym, ◌∙◌, Bool, true, false, not, ◌&&◌, ◌||◌, List, [], ◌∷◌, ◌++◌, append_assoc,
  arith, ◌==◌, if◌then◌else◌, any, get_or, is_empty, Bytes, codes, str_eq,
}
use dtail.Wire.Cut.{has_byte}
use dtail.Wire.Generation.{decode_generated_message}
use dtail.Wire.Format.{
  message_delimiter, field_delimiter, format_remote_header, format_remote_line,
  format_server_message,
}
use dtail.Wire.Receive.{ClientHandler, write}
use dtail.Wire.Receive.Frames.{framed, received_all, write-framed}
use dtail.Wire.Send.{
  Event, server_message, mapr_message, line, nil_line, closed, polled, Handler, Line,
  should_drop_generation, padded, server_round, mapr_round, line_round, round_of,
}
use dtail.Wire.Send.Delivered.{read_all, round_bytes, event_bytes, read_all-outstanding}

-- The messages that an event stands for: one, or none.
abbrev pub server_texts : Handler → ℕ × Bytes → List Bytes
server_texts h (generation, message) =
    if should_drop_generation h.active_generation generation
    then []
    else if not (is_empty message) && get_or message 0 0 == b'.'
    then message ∷ []
    else if h.serverless || (h.plain && (is_empty message || str_eq message (10 ∷ [])))
    then []
    else ((if h.plain
          then []
          else [] ++ codes "SERVER" ++ (field_delimiter ∷ h.hostname) ++ (field_delimiter ∷ []))
        ++ message)
      ∷ []

abbrev pub mapr_texts : Handler → ℕ × Bytes → List Bytes
mapr_texts h (generation, message) =
    if should_drop_generation h.active_generation generation
    then []
    else (codes "AGGREGATE" ++ (field_delimiter ∷ h.hostname) ++ (field_delimiter ∷ message)) ∷ []

abbrev pub line_texts : Handler → Line → List Bytes
line_texts h l =
    if should_drop_generation h.active_generation l.line_generation
    then []
    else if h.plain
    then l.content ∷ []
    else (format_remote_header [] h.hostname (padded l.transmitted_perc) l.count l.source_id
        ++ l.content)
      ∷ []

abbrev pub event_texts : Handler → Event → List Bytes
event_texts h (server_message message) = server_texts h (decode_generated_message message)
event_texts h (mapr_message message) = mapr_texts h (decode_generated_message message)
event_texts h (line l) = line_texts h l
event_texts h nil_line = []
event_texts h closed = []
event_texts h (polled _) = []

abbrev pub texts_of : Handler → List Event → List Bytes
texts_of h [] = []
texts_of h (event ∷ events) = event_texts h event ++ texts_of h events

server_round-texts :
    (h : Handler) (m : ℕ × Bytes) → round_bytes (server_round h m) ≡ framed (server_texts h m)
unfolding server_round format_server_message
server_round-texts h (generation, message) = ground arith

mapr_round-texts :
    (h : Handler) (m : ℕ × Bytes) → round_bytes (mapr_round h m) ≡ framed (mapr_texts h m)
unfolding mapr_round
mapr_round-texts h (generation, message) = ground arith

line_round-texts : (h : Handler) (l : Line) → round_bytes (line_round h l) ≡ framed (line_texts h l)
unfolding line_round format_remote_line
line_round-texts h l = ground arith

round_of-texts :
    (h : Handler) (event : Event) → round_bytes (round_of h event) ≡ framed (event_texts h event)
unfolding round_of
round_of-texts h (server_message message) = server_round-texts h (decode_generated_message message)
round_of-texts h (mapr_message message) = mapr_round-texts h (decode_generated_message message)
round_of-texts h (line l) = line_round-texts h l
round_of-texts h nil_line = refl
round_of-texts h closed = refl
round_of-texts h (polled true) = refl
round_of-texts h (polled false) = refl

framed-append : (ms ns : List Bytes) → framed (ms ++ ns) ≡ framed ms ++ framed ns
framed-append [] ns = refl
framed-append (m ∷ ms) ns =
    rw (framed-append ms ns) (sym (append_assoc m (message_delimiter ∷ framed ms) (framed ns)))

event_bytes-texts :
    (h : Handler) (events : List Event) → event_bytes h events ≡ framed (texts_of h events)
event_bytes-texts h [] = refl
event_bytes-texts h (event ∷ events) =
    rw (round_of-texts h event, event_bytes-texts h events)
      (sym (framed-append (event_texts h event) (texts_of h events)))

module _ (encode_base64 : Bytes → Bytes) (takes : ClientHandler → Bytes → Bool) where
  -- Whatever room the calls of the server's Read have, a client with nothing buffered that is given
  -- the bytes they return, and then those that are still outstanding, handles exactly the messages
  -- of the server's events, in their order, if no message has the delimiter's byte. Messages of
  -- another generation are dropped, and empty ones in plain mode.
  pub write-read_all :
      (h : Handler) (sizes : List ℕ) (events : List Event) (c : ClientHandler)
      → any (has_byte message_delimiter) (texts_of h events) ≡ false
      → c.receive_buf ≡ []
      → write encode_base64 takes
          ((read_all h sizes [] events).1 ++ event_bytes h (read_all h sizes [] events).2)
          (write encode_base64 takes (read_all h sizes [] events).0 c)
        ≡ received_all encode_base64 takes (texts_of h events) c
  write-read_all h sizes events c clean empty =
      write-framed encode_base64 takes (texts_of h events) (read_all h sizes [] events).0
        ((read_all h sizes [] events).1 ++ event_bytes h (read_all h sizes [] events).2) c clean
        empty (read_all-outstanding h sizes [] events ∙ event_bytes-texts h events)
