-- ===== src/Wire/Send/Delivered.antt =====
-- Read loses no byte of a message, whatever room its calls have.
use dtail.Base.{
  ℕ, ◌≡◌, refl, sym, ap, ◌∙◌, true, List, [], ◌∷◌, ◌++◌, append_assoc, Option, none, some, take,
  drop, take-drop, Bytes,
}
use dtail.Wire.Send.{
  Event, Handler, Round, next_round, formatted, at_eof, round_of, Reading, drain_read_buf,
  after_round, read_events, read,
}

-- The bytes of a message that a round formats.
abbrev pub round_bytes : Round → Bytes
round_bytes next_round = []
round_bytes (formatted message) = message
round_bytes at_eof = []

-- The bytes that the events stand for, one message behind the other.
abbrev pub event_bytes : Handler → List Event → Bytes
event_bytes h [] = []
event_bytes h (event ∷ events) = round_bytes (round_of h event) ++ event_bytes h events

-- The bytes of a call, of its buffer and of the events that are left.
abbrev pub outstanding : Handler → Reading → Bytes
outstanding h r = r.bytes ++ (r.read_buf ++ event_bytes h r.events)

drain-outstanding :
    (h : Handler) (size : ℕ) (buf : Bytes) (events : List Event)
    → outstanding h (drain_read_buf size buf events) ≡ buf ++ event_bytes h events
unfolding drain_read_buf
drain-outstanding h size buf events =
    sym (append_assoc (take size buf) (drop size buf) (event_bytes h events))
    ∙ ap (λ b. b ++ event_bytes h events) (take-drop size buf)

after_round-outstanding :
    (h : Handler) (size : ℕ) (waiting : Option Reading) (events : List Event) (round : Round)
    (r : Reading)
    → (waiting ≡ some r → outstanding h r ≡ event_bytes h events)
    → after_round size waiting events round ≡ some r
    → outstanding h r ≡ round_bytes round ++ event_bytes h events
unfolding after_round
after_round-outstanding h size waiting events next_round r ih e = ih e
after_round-outstanding h size waiting events (formatted message) r ih e =
    let same : r ≡ drain_read_buf size message events = cc in
    ap (outstanding h) same ∙ drain-outstanding h size message events
after_round-outstanding h size waiting events at_eof r ih e =
    let same : r ≡ record { bytes = []; is_eof = true; read_buf = []; events = events } = cc in
    ap (outstanding h) same

read_events-outstanding :
    (h : Handler) (size : ℕ) (events : List Event) (r : Reading)
    → read_events h size events ≡ some r
    → outstanding h r ≡ event_bytes h events
unfolding read_events
read_events-outstanding h size [] r e = cc
read_events-outstanding h size (event ∷ events) r e =
    after_round-outstanding h size (read_events h size events) events (round_of h event) r
      (read_events-outstanding h size events r) e

read-outstanding :
    (h : Handler) (size : ℕ) (buf : Bytes) (events : List Event) (r : Reading)
    → read h size buf events ≡ some r
    → outstanding h r ≡ buf ++ event_bytes h events
unfolding read
read-outstanding h size [] events r e = read_events-outstanding h size events r e
read-outstanding h size (b ∷ buf) events r e =
    let same : r ≡ drain_read_buf size (b ∷ buf) events = cc in
    ap (outstanding h) same ∙ drain-outstanding h size (b ∷ buf) events

-- Calls of Read with the given room, until one waits for an event: the bytes that they return
-- together, the buffer and the events that are left.
read_next :
    (Bytes → List Event → Bytes × Bytes × List Event)
    → Bytes
    → List Event
    → Option Reading
    → Bytes × Bytes × List Event
read_next rest buf events none = ([], buf, events)
read_next rest buf events (some r) =
    let (bytes, left, later) = rest r.read_buf r.events in (r.bytes ++ bytes, left, later)

unfoldable pub read_all : Handler → List ℕ → Bytes → List Event → Bytes × Bytes × List Event
unfolding read_next
read_all h [] buf events = ([], buf, events)
read_all h (size ∷ sizes) buf events =
    read_next (read_all h sizes) buf events (read h size buf events)

read_next-outstanding :
    (h : Handler) (rest : Bytes → List Event → Bytes × Bytes × List Event) (buf : Bytes)
    (events : List Event) (o : Option Reading)
    → ((b : Bytes) (es : List Event)
        → (rest b es).0 ++ ((rest b es).1 ++ event_bytes h (rest b es).2) ≡ b ++ event_bytes h es)
    → ((r : Reading) → o ≡ some r → outstanding h r ≡ buf ++ event_bytes h events)
    → (read_next rest buf events o).0
        ++ ((read_next rest buf events o).1 ++ event_bytes h (read_next rest buf events o).2)
      ≡ buf ++ event_bytes h events
unfolding read_next
read_next-outstanding h rest buf events none ih one = refl
read_next-outstanding h rest buf events (some r) ih one =
    append_assoc r.bytes (rest r.read_buf r.events).0
      ((rest r.read_buf r.events).1 ++ event_bytes h (rest r.read_buf r.events).2)
    ∙ ap (λ b. r.bytes ++ b) (ih r.read_buf r.events)
    ∙ one r refl

-- Whatever room the calls of Read have, the bytes that they return, then the buffer, then the
-- messages of the events that are left are the messages of all events in their order: no message is
-- cut off, none is mixed with another.
pub read_all-outstanding :
    (h : Handler) (sizes : List ℕ) (buf : Bytes) (events : List Event)
    → (read_all h sizes buf events).0
        ++ ((read_all h sizes buf events).1 ++ event_bytes h (read_all h sizes buf events).2)
      ≡ buf ++ event_bytes h events
unfolding read_all
read_all-outstanding h [] buf events = refl
read_all-outstanding h (size ∷ sizes) buf events =
    read_next-outstanding h (read_all h sizes) buf events (read h size buf events)
      (read_all-outstanding h sizes) (read-outstanding h size buf events)
