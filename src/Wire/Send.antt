-- ===== src/Wire/Send.antt =====
-- basehandler.go of internal/server/handlers: Read, which hands the server's messages to the
-- client, while the output mode is off. An event is what a select of its loop goes on with.
pub mod Delivered
pub mod Received
use dtail.Base.{
  ℕ, Bool, true, false, not, ◌&&◌, ◌||◌, List, [], ◌∷◌, ◌++◌, Option, none, some, leb, ◌==◌,
  if◌then◌else◌, length, take, drop, get_or, is_empty, Bytes, codes, str_eq, format_uint,
}
use dtail.Wire.Generation.{decode_generated_message}
use dtail.Wire.Format.{
  message_delimiter, field_delimiter, format_remote_line, format_server_message,
}

pub record Line : Type 0 where
  pub content : Bytes
  pub count : ℕ
  pub transmitted_perc : ℕ
  pub source_id : Bytes
  pub line_generation : ℕ

-- A message of one of the channels, a nil line, the closing of Done(), or the poll interval, after
-- which Done() may be closed.
pub data Event : Type 0 where
  server_message : Bytes → Event
  mapr_message : Bytes → Event
  line : Line → Event
  nil_line : Event
  closed : Event
  polled : Bool → Event

-- What the handler is set to; the generation is what activeGeneration returns, if it is set.
pub record Handler : Type 0 where
  pub hostname : Bytes
  pub plain : Bool
  pub serverless : Bool
  pub active_generation : Option ℕ

unfoldable pub should_drop_generation : Option ℕ → ℕ → Bool
should_drop_generation none generation = false
should_drop_generation (some active) generation =
    not (generation == 0) && not (active == 0) && not (active == generation)

-- fmt.Sprintf("%3d", n)
unfoldable pub padded : ℕ → Bytes
padded n =
    if leb 100 n
    then format_uint n
    else if leb 10 n
    then b' ' ∷ format_uint n
    else b' ' ∷ (b' ' ∷ format_uint n)

-- What a round of Read's loop does: it goes on to the next event, returns with the message that it
-- has formatted into the buffer, or returns io.EOF.
pub data Round : Type 0 where
  next_round : Round
  formatted : Bytes → Round
  at_eof : Round

unfoldable pub server_round : Handler → ℕ × Bytes → Round
unfolding should_drop_generation str_eq
server_round h (generation, message) =
    if should_drop_generation h.active_generation generation
    then next_round
    else if not (is_empty message) && get_or message 0 0 == b'.'
    then formatted (message ++ message_delimiter ∷ [])
    else if h.serverless || (h.plain && (is_empty message || str_eq message (10 ∷ [])))
    then formatted []
    else formatted (format_server_message [] h.hostname message h.plain)

unfoldable pub mapr_round : Handler → ℕ × Bytes → Round
unfolding should_drop_generation
mapr_round h (generation, message) =
    if should_drop_generation h.active_generation generation
    then next_round
    else formatted (
        codes "AGGREGATE"
        ++ (field_delimiter ∷ h.hostname)
        ++ (field_delimiter ∷ message)
        ++ (message_delimiter ∷ []))

unfoldable pub line_round : Handler → Line → Round
unfolding should_drop_generation padded
line_round h l =
    if should_drop_generation h.active_generation l.line_generation
    then next_round
    else if h.plain
    then formatted (l.content ++ message_delimiter ∷ [])
    else formatted
        (format_remote_line [] h.hostname (padded l.transmitted_perc) l.count l.source_id l.content)

unfoldable pub round_of : Handler → Event → Round
unfolding server_round mapr_round line_round decode_generated_message
round_of h (server_message message) = server_round h (decode_generated_message message)
round_of h (mapr_message message) = mapr_round h (decode_generated_message message)
round_of h (line l) = line_round h l
round_of h nil_line = next_round
round_of h closed = at_eof
round_of h (polled true) = at_eof
round_of h (polled false) = formatted []

-- A call of Read: the bytes it returns, or io.EOF; the buffer, and the events that are left. No
-- result says that it waits for an event.
pub record Reading : Type 0 where
  pub bytes : Bytes
  pub is_eof : Bool
  pub read_buf : Bytes
  pub events : List Event

-- drainReadBuf into a slice of so many bytes.
unfoldable pub drain_read_buf : ℕ → Bytes → List Event → Reading
drain_read_buf size buf events = record {
  bytes = take size buf;
  is_eof = false;
  read_buf = drop size buf;
  events = events;
}

unfoldable pub after_round : ℕ → Option Reading → List Event → Round → Option Reading
unfolding drain_read_buf
after_round size waiting events next_round = waiting
after_round size waiting events (formatted message) = some (drain_read_buf size message events)
after_round size waiting events at_eof =
    some (record { bytes = []; is_eof = true; read_buf = []; events = events })

unfoldable pub read_events : Handler → ℕ → List Event → Option Reading
unfolding after_round
read_events h size [] = none
read_events h size (event ∷ events) =
    let waiting = read_events h size events in after_round size waiting events (round_of h event)

unfoldable pub read : Handler → ℕ → Bytes → List Event → Option Reading
unfolding read_events drain_read_buf
read h size [] events = read_events h size events
read h size (b ∷ buf) events = some (drain_read_buf size (b ∷ buf) events)
