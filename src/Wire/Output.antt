-- ===== src/Wire/Output.antt =====
-- line_writer.go of internal/server/handlers: DirectWriter. Each method holds the writer's lock, so
-- it is one step.
pub mod Emitted
pub mod Delivered
pub mod Network
use dtail.Base.{
  ℕ, zero, suc, ◌+◌, ◌-◌, ◌%◌, ◌^◌, ◌≤◌, ◌<◌, ◌≡◌, Bool, true, false, not, ◌&&◌, ◌||◌, List, [],
  ◌∷◌, ◌++◌, Option, none, some, ltb, leb, ◌==◌, if◌then◌else◌, length, take, drop, get_or, Bytes,
  codes, str_eq, is_empty,
}
use dtail.Wire.Format.{
  message_delimiter, default_transmitted_perc, format_remote_header, format_remote_line,
  format_server_message,
}

-- shouldWriteGeneration; the second argument is what activeGeneration returns, if it is set.
unfoldable pub should_write_generation : ℕ → Option ℕ → Bool
should_write_generation generation none = true
should_write_generation generation (some current) =
    generation == 0 || current == 0 || current == generation

-- An error of the writer, or io.ErrShortWrite.
pub data WriteError (E : Type 0) : Type 0 where
  failed : E → WriteError E
  short_write : WriteError E

-- io.Writer, as its documentation has it: Write takes a number of the bytes, from the front, and
-- returns this number, with an error or not. A writer without the method Flush has one here that does
-- nothing.
pub record Writer (W E : Type 0) : Type 1 where
  pub write : Bytes → W → W × ℕ × Option E
  pub flush : W → W × Option E
  pub taken : W → Bytes
  pub write-taken :
      (bytes : Bytes) (w : W)
      → taken ((write bytes w).0) ≡ taken w ++ take ((write bytes w).1) bytes
  pub flush-taken : (w : W) → taken ((flush w).0) ≡ taken w

pub record Settings : Type 0 where
  pub hostname : Bytes
  pub plain : Bool
  pub serverless : Bool
  pub generation : ℕ
  pub buf_size : ℕ

-- A line, or the text without its last newline.
abbrev pub ends_with_newline : Bytes → Bool
ends_with_newline s = get_or s (length s - 1) 0 == 10

unfoldable pub plain_line : Bytes → Bytes
plain_line content =
    if not (is_empty content) && not (ends_with_newline content)
    then content ++ 10 ∷ []
    else content

unfoldable pub without_newline : Bytes → Bytes
without_newline content =
    if not (is_empty content) && ends_with_newline content
    then take (length content - 1) content
    else content

module _ (colorfy : Bytes → Bytes) where
  -- What writeServerlessLine or writeNetworkLine adds to the buffer.
  unfoldable pub formatted_line : Settings → Bytes → ℕ → Bytes → Bytes
  unfolding plain_line without_newline format_remote_line format_remote_header
  formatted_line s content line_num source_id =
      if s.plain
      then plain_line content
      else if s.serverless
      then colorfy (
          format_remote_header [] s.hostname default_transmitted_perc line_num source_id
          ++ without_newline content)
        ++ 10 ∷ []
      else format_remote_line [] s.hostname default_transmitted_perc line_num source_id content

-- What WriteServerMessage adds to the buffer, if it does anything.
unfoldable pub formatted_message : Settings → Bytes → Option Bytes
unfolding str_eq format_server_message
formatted_message s message =
    if s.plain && (is_empty message || str_eq message (10 ∷ []))
    then none
    else if not (is_empty message) && get_or message 0 0 == b'.'
    then some (message ++ message_delimiter ∷ [])
    else some (format_server_message [] s.hostname message s.plain)

pub record DirectWriter (W : Type 0) : Type 0 where
  pub writer : W
  pub write_buf : Bytes
  pub lines_written : ℕ
  pub bytes_written : ℕ

unfoldable pub new_direct_writer : {W : Type 0} → W → DirectWriter W
new_direct_writer writer = record {
  writer = writer;
  write_buf = [];
  lines_written = 0;
  bytes_written = 0;
}

-- 64-bit counters
abbrev pub counted : ℕ → ℕ → ℕ
counted n k = (n + k) % 2 ^ 64

module _ {W E : Type 0} (io : Writer W E) (colorfy : Bytes → Bytes) (s : Settings) where
  -- The writer, and the error that ended the loop. No result says that the fuel ran out.
  abbrev pub Flushed : Type 0
  Flushed = Option (W × Option (WriteError E))

  unfoldable pub next_write : (Bytes → W → Flushed) → Bytes → W × ℕ × Option E → Flushed
  next_write rest bytes (w, n, some e) = some (w, some (failed e))
  next_write rest bytes (w, zero, none) = some (w, some short_write)
  next_write rest bytes (w, suc n, none) = rest (drop (suc n) bytes) w

  -- The loop of flushBuffer.
  unfoldable pub write_loop : ℕ → Bytes → W → Flushed
  unfolding next_write
  write_loop fuel [] w = some (w, none)
  write_loop zero (b ∷ bytes) w = none
  write_loop (suc fuel) (b ∷ bytes) w =
      next_write (write_loop fuel) (b ∷ bytes) (io.write (b ∷ bytes) w)

  -- The writer's state after a call, and its error.
  abbrev pub Outcome : Type 0
  Outcome = Option (DirectWriter W × Option (WriteError E))

  unfoldable pub emptied : DirectWriter W → Flushed → Outcome
  emptied d none = none
  emptied d (some (w, err)) = some (record d { writer = w; write_buf = [] }, err)

  unfoldable pub flush_buffer : DirectWriter W → Outcome
  unfolding emptied write_loop
  flush_buffer d = emptied d (write_loop (length d.write_buf) d.write_buf d.writer)

  -- The line is in the buffer, and counted.
  unfoldable pub buffered_line : Bytes → DirectWriter W → DirectWriter W
  buffered_line text d = record d {
    write_buf = d.write_buf ++ text;
    lines_written = counted d.lines_written 1;
    bytes_written = counted d.bytes_written (length text);
  }

  unfoldable pub flush_if_full : DirectWriter W → Outcome
  unfolding flush_buffer
  flush_if_full d = elim (leb s.buf_size (length d.write_buf)) [
    | true ↦ flush_buffer d
    | false ↦ some (d, none)
  ]

  unfoldable pub write_line_data : Option ℕ → Bytes → ℕ → Bytes → DirectWriter W → Outcome
  unfolding should_write_generation buffered_line flush_if_full formatted_line
  write_line_data active content line_num source_id d =
      elim (should_write_generation s.generation active) [
        | false ↦ some (d, none)
        | true ↦
            flush_if_full (buffered_line (formatted_line colorfy s content line_num source_id) d)
      ]

  unfoldable pub buffered_message : Option Bytes → DirectWriter W → Outcome
  unfolding flush_buffer
  buffered_message none d = some (d, none)
  buffered_message (some text) d = flush_buffer (record d { write_buf = d.write_buf ++ text })

  unfoldable pub write_server_message : Option ℕ → Bytes → DirectWriter W → Outcome
  unfolding should_write_generation buffered_message formatted_message
  write_server_message active message d =
      elim (should_write_generation s.generation active && not s.serverless) [
        | false ↦ some (d, none)
        | true ↦ buffered_message (formatted_message s message) d
      ]

  unfoldable pub writer_flushed : Bool → W → W × Option E
  writer_flushed true w = io.flush w
  writer_flushed false w = (w, none)

  unfoldable pub flushed_writer :
      Outcome → Option (DirectWriter W × Option (WriteError E) × Option E)
  unfolding writer_flushed
  flushed_writer none = none
  flushed_writer (some (d, err)) =
      let (w, flush_err) = writer_flushed s.serverless d.writer in
      some (record d { writer = w }, err, flush_err)

  -- The method Flush; its two errors are joined in the code.
  unfoldable pub flush : DirectWriter W → Option (DirectWriter W × Option (WriteError E) × Option E)
  unfolding flush_buffer flushed_writer
  flush d = flushed_writer (flush_buffer d)
