-- ===== src/Wire/Output/Network.antt =====
-- line_writer.go of internal/server/handlers: NetworkWriter. Its lock is held for the changes of its
-- state and not for the send, so a line, a Flush and the send of an earlier buffer interleave: the
-- steps are the locked parts and the send. A call for a stale generation does nothing.
use dtail.Base.{
  bools_differ, ℕ, ◌≡◌, refl, sym, ap, ◌∙◌, Bool, true, false, not, ◌||◌, List, [], ◌∷◌, ◌++◌,
  append-nil, append_assoc, Option, none, some, ltb, arith, inl, inr, Bool-cases, if◌then◌else◌,
  length, Bytes, is_empty,
}
use dtail.Wire.Generation.{encode_generated_bytes}
use dtail.Wire.Output.{Settings, counted}
use dtail.Wire.Format.{message_delimiter, default_transmitted_perc, format_remote_line}

-- A buffer that was taken for sending: put on the output channel, or given up because the context
-- was cancelled, the generation became stale or there is no channel.
pub data Payload : Type 0 where
  sent : Bytes → Payload
  lost : Bytes → Payload

-- `sending` is set from the taking of a buffer to finishSending; `in_flight` is the buffer as long
-- as sendToChannel has it.
pub record NetworkWriter : Type 0 where
  pub write_buf : Bytes
  pub sending : Bool
  pub in_flight : Option Bytes
  pub payloads : List Payload
  pub lines_written : ℕ
  pub bytes_written : ℕ

abbrev pub new_network_writer : NetworkWriter
new_network_writer = record {
  write_buf = [];
  sending = false;
  in_flight = none;
  payloads = [];
  lines_written = 0;
  bytes_written = 0;
}

-- The bytes of a line.
unfoldable pub network_line : Settings → Bytes → ℕ → Bytes → Bytes
unfolding format_remote_line
network_line s content line_num source_id =
    if not s.plain
    then (if not s.serverless
        then format_remote_line [] s.hostname default_transmitted_perc line_num source_id content
        else content ++ message_delimiter ∷ [])
    else content ++ message_delimiter ∷ []

-- The buffer is copied and reset, and the send marked.
unfoldable pub take_buffer : NetworkWriter → NetworkWriter
take_buffer w = record w { write_buf = []; sending = true; in_flight = some w.write_buf }

abbrev pub appended : Bytes → NetworkWriter → NetworkWriter
appended text w = record w {
  write_buf = w.write_buf ++ text;
  lines_written = counted w.lines_written 1;
  bytes_written = counted w.bytes_written (length text);
}

-- The locked part of WriteLineData.
unfoldable pub append_line : Settings → Bytes → NetworkWriter → NetworkWriter
unfolding take_buffer
append_line s text w =
    if ltb (length (w.write_buf ++ text)) s.buf_size || w.sending
    then appended text w
    else take_buffer (appended text w)

-- sendToChannel, on the buffer that is in flight.
unfoldable pub settle : (Bytes → Payload) → Option Bytes → NetworkWriter → NetworkWriter
settle outcome none w = w
settle outcome (some bytes) w = record w {
  in_flight = none;
  payloads = w.payloads ++ outcome bytes ∷ [];
}

unfoldable pub finish_sending : NetworkWriter → NetworkWriter
finish_sending w = record w { sending = false }

-- The channel holds the payloads with their generation's tag.
abbrev pub on_channel : Settings → List Payload → List Bytes
on_channel s [] = []
on_channel s (sent bytes ∷ ps) = encode_generated_bytes s.generation bytes ∷ on_channel s ps
on_channel s (lost bytes ∷ ps) = on_channel s ps

-- One step of one of the goroutines that use the writer, with the bytes of the line it adds.
pub data Step (s : Settings) : NetworkWriter → Bytes → NetworkWriter → Type 0 where
  write_line :
      (content : Bytes) (line_num : ℕ) (source_id : Bytes) (w : NetworkWriter)
      → Step s w
          (network_line s content line_num source_id)
          (append_line s (network_line s content line_num source_id) w)
  flush_round :
      (w : NetworkWriter)
      → w.sending ≡ false
      → is_empty w.write_buf ≡ false
      → Step s w [] (take_buffer w)
  send_done : (w : NetworkWriter) → Step s w [] (settle sent w.in_flight w)
  send_given_up : (w : NetworkWriter) → Step s w [] (settle lost w.in_flight w)
  send_finished : (w : NetworkWriter) → w.in_flight ≡ none → Step s w [] (finish_sending w)

-- What a writer can come to, with the bytes of all lines written to it in their order.
pub data Reachable (s : Settings) : NetworkWriter → Bytes → Type 0 where
  fresh : Reachable s new_network_writer []
  then_step :
      {w v : NetworkWriter} {text line : Bytes}
      → Reachable s w text
      → Step s w line v
      → Reachable s v (text ++ line)

abbrev pub payload_bytes : List Payload → Bytes
payload_bytes [] = []
payload_bytes (sent bytes ∷ ps) = bytes ++ payload_bytes ps
payload_bytes (lost bytes ∷ ps) = bytes ++ payload_bytes ps

abbrev pub flight_bytes : Option Bytes → Bytes
flight_bytes none = []
flight_bytes (some bytes) = bytes

-- The bytes that have gone through the writer, in the order of the channel.
abbrev pub through : NetworkWriter → Bytes
through w = payload_bytes w.payloads ++ (flight_bytes w.in_flight ++ w.write_buf)

payload_bytes-append :
    (ps qs : List Payload) → payload_bytes (ps ++ qs) ≡ payload_bytes ps ++ payload_bytes qs
payload_bytes-append [] qs = refl
payload_bytes-append (sent b ∷ ps) qs =
    rw (payload_bytes-append ps qs) (sym (append_assoc b (payload_bytes ps) (payload_bytes qs)))
payload_bytes-append (lost b ∷ ps) qs =
    rw (payload_bytes-append ps qs) (sym (append_assoc b (payload_bytes ps) (payload_bytes qs)))

-- Nothing is in flight unless the mark is set, and nothing is lost or out of order.
abbrev Ordered : NetworkWriter → Bytes → Type 0
Ordered w text = (w.sending ≡ false → w.in_flight ≡ none) × (through w ≡ text)

take_buffer-through : (w : NetworkWriter) → w.in_flight ≡ none → through (take_buffer w) ≡ through w
unfolding take_buffer
take_buffer-through w idle = rw (idle, append-nil w.write_buf) refl

settle-through :
    (outcome : Bytes → Payload) (flight : Option Bytes) (w : NetworkWriter)
    → ((b : Bytes) → payload_bytes (outcome b ∷ []) ≡ b)
    → w.in_flight ≡ flight
    → through (settle outcome flight w) ≡ through w
unfolding settle
settle-through outcome none w law e = refl
settle-through outcome (some b) w law e =
    rw (e, payload_bytes-append w.payloads (outcome b ∷ []), law b)
      (append_assoc (payload_bytes w.payloads) b w.write_buf)

appended-through :
    (text : Bytes) (w : NetworkWriter) → through (appended text w) ≡ through w ++ text
appended-through text w = simp append_assoc

append_line-Ordered :
    (s : Settings) (text before : Bytes) (w : NetworkWriter)
    → Ordered w before
    → Ordered (append_line s text w) (before ++ text)
unfolding append_line
append_line-Ordered s text before w (idle, ordered) =
    elim (Bool-cases (ltb (length (w.write_buf ++ text)) s.buf_size || w.sending)) [
      | inl stays ↦ rw stays (idle, appended-through text w ∙ ap (λ b. b ++ text) ordered)
      | inr full ↦ rw full (
        unfold take_buffer in λ e. absurd (bools_differ e),
        take_buffer-through (appended text w) (idle (ground (arith, full)))
            ∙ appended-through text w
            ∙ ap (λ b. b ++ text) ordered,
      )
    ]

settle-Ordered :
    (outcome : Bytes → Payload) (flight : Option Bytes) (text : Bytes) (w : NetworkWriter)
    → ((b : Bytes) → payload_bytes (outcome b ∷ []) ≡ b)
    → w.in_flight ≡ flight
    → Ordered w text
    → Ordered (settle outcome flight w) text
settle-Ordered outcome none text w law e (idle, ordered) = unfold settle in (idle, ordered)
settle-Ordered outcome (some b) text w law e (idle, ordered) =
    (unfold settle in λ h. refl, settle-through outcome (some b) w law e ∙ ordered)

Step-Ordered :
    (s : Settings) (w v : NetworkWriter) (line before : Bytes)
    → Step s w line v
    → Ordered w before
    → Ordered v (before ++ line)
Step-Ordered s w v line before (write_line content line_num source_id _) o =
    append_line-Ordered s (network_line s content line_num source_id) before w o
Step-Ordered s w v line before (flush_round _ idle _) (free, ordered) = (
  unfold take_buffer in λ e. absurd (bools_differ e),
  take_buffer-through w (free idle) ∙ ordered ∙ sym (append-nil before),
)
Step-Ordered s w v line before (send_done _) o =
    rw (append-nil before) (settle-Ordered sent w.in_flight before w (λ b. append-nil b) refl o)
Step-Ordered s w v line before (send_given_up _) o =
    rw (append-nil before) (settle-Ordered lost w.in_flight before w (λ b. append-nil b) refl o)
Step-Ordered s w v line before (send_finished _ nothing) (free, ordered) =
    rw (append-nil before) (unfold finish_sending in (λ e. nothing, ordered))

Reachable-Ordered :
    (s : Settings) (w : NetworkWriter) (text : Bytes) → Reachable s w text → Ordered w text
Reachable-Ordered s w text fresh = (λ e. refl, refl)
Reachable-Ordered s v text (then_step {w = w} {text = before} {line = line} r step) =
    Step-Ordered s w v line before step (Reachable-Ordered s w before r)

-- However lines, flushes and sends interleave, what was sent or given up, then what is in flight,
-- then the buffer are the bytes of the lines in the order of the writes; and where no send is going
-- on and the buffer is empty, as when Flush returns, they have all been sent or given up.
pub Reachable-ordered :
    (s : Settings) (w : NetworkWriter) (text : Bytes)
    → Reachable s w text
    → (through w ≡ text) × (w.sending ≡ false → w.write_buf ≡ [] → payload_bytes w.payloads ≡ text)
Reachable-ordered s w text r =
    let (free, ordered) = Reachable-Ordered s w text r in
    (
      ordered,
      λ idle empty.
          sym (append-nil (payload_bytes w.payloads))
          ∙ ap (λ b. payload_bytes w.payloads ++ b) (rw (free idle, empty) refl)
          ∙ ordered,
    )
