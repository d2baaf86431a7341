-- ===== src/Wire/Output/Emitted.antt =====
-- What a DirectWriter promises: the bytes that its calls emit reach the writer behind it, in order.
use dtail.Base.{
  take-drop, ℕ, zero, suc, ◌≡◌, refl, sym, ap, ◌∙◌, Bool, true, false, not, ◌&&◌, ◌||◌, List, [],
  ◌∷◌, ◌++◌, append-nil, append_assoc, Option, none, some, is_some, leb, if◌then◌else◌, length,
  take, drop, Bytes,
}
use dtail.Wire.Output.{
  Settings, Writer, WriteError, DirectWriter, Flushed, Outcome, should_write_generation,
  formatted_line, formatted_message, next_write, write_loop, emptied, flush_buffer, buffered_line,
  flush_if_full, write_line_data, buffered_message, write_server_message, writer_flushed,
  flushed_writer, flush,
}

if-same {ℓ} : {A : Type ℓ} (b : Bool) (a : A) → (if b then a else a) ≡ a
if-same true a = refl
if-same false a = refl

under_if :
    (s : Bytes) (b : Bool) (t u : Bytes)
    → (if b then s ++ t else s ++ u) ≡ s ++ (if b then t else u)
under_if s true t u = refl
under_if s false t u = refl

-- A call of one of the writer's methods, with what activeGeneration returns at that time.
pub data Call : Type 0 where
  line_data : Option ℕ → Bytes → ℕ → Bytes → Call
  server_message : Option ℕ → Bytes → Call
  flush_call : Call

abbrev text_or_nothing : Option Bytes → Bytes
text_or_nothing none = []
text_or_nothing (some text) = text

module _ {W E : Type 0} (io : Writer W E) (colorfy : Bytes → Bytes) (s : Settings) where
  -- The bytes that a call puts on the stream.
  abbrev pub emitted : Call → Bytes
  emitted (line_data active content line_num source_id) =
      if should_write_generation s.generation active
      then formatted_line colorfy s content line_num source_id
      else []
  emitted (server_message active message) =
      if should_write_generation s.generation active && not s.serverless
      then text_or_nothing (formatted_message s message)
      else []
  emitted flush_call = []

  abbrev pub emitted_all : List Call → Bytes
  emitted_all [] = []
  emitted_all (c ∷ cs) = emitted c ++ emitted_all cs

  -- The writer's state, and whether a call has returned an error.
  abbrev pub Ran : Type 0
  Ran = Option (DirectWriter W × Bool)

  abbrev pub without_error : Outcome io colorfy s → Ran
  without_error none = none
  without_error (some (d, err)) = some (d, is_some err)

  abbrev pub without_errors : Option (DirectWriter W × Option (WriteError E) × Option E) → Ran
  without_errors none = none
  without_errors (some (d, err, flush_err)) = some (d, is_some err || is_some flush_err)

  abbrev pub called : Call → DirectWriter W → Ran
  called (line_data active content line_num source_id) d =
      without_error (write_line_data io colorfy s active content line_num source_id d)
  called (server_message active message) d =
      without_error (write_server_message io colorfy s active message d)
  called flush_call d = without_errors (flush io colorfy s d)

  spoiled : Ran → Ran
  spoiled none = none
  spoiled (some (d, _)) = some (d, true)

  unfoldable pub next_call : (DirectWriter W → Ran) → Ran → Ran
  unfolding spoiled
  next_call rest none = none
  next_call rest (some (d, true)) = spoiled (rest d)
  next_call rest (some (d, false)) = rest d

  unfoldable pub run : List Call → DirectWriter W → Ran
  unfolding next_call
  run [] d = some (d, false)
  run (c ∷ cs) d = next_call (run cs) (called c d)

  -- Everything emitted: what the writer has taken, and what waits in the buffer.
  abbrev pub stream : DirectWriter W → Bytes
  stream d = io.taken d.writer ++ d.write_buf

  next_write-taken :
      (rest : Bytes → W → Flushed io colorfy s) (bytes t : Bytes) (r : W × ℕ × Option E) (w2 : W)
      → ((b : Bytes) (w : W) → rest b w ≡ some (w2, none) → io.taken w2 ≡ io.taken w ++ b)
      → io.taken r.0 ≡ t ++ take r.1 bytes
      → next_write io colorfy s rest bytes r ≡ some (w2, none)
      → io.taken w2 ≡ t ++ bytes
  unfolding next_write
  next_write-taken rest bytes t (w, n, some e) w2 ih law h = cc
  next_write-taken rest bytes t (w, zero, none) w2 ih law h = cc
  next_write-taken rest bytes t (w, suc n, none) w2 ih law h =
      ih (drop (suc n) bytes) w h
      ∙ ap (λ x. x ++ drop (suc n) bytes) law
      ∙ append_assoc t (take (suc n) bytes) (drop (suc n) bytes)
      ∙ ap (λ x. t ++ x) (take-drop (suc n) bytes)

  write_loop-taken :
      (fuel : ℕ) (bytes : Bytes) (w w2 : W)
      → write_loop io colorfy s fuel bytes w ≡ some (w2, none)
      → io.taken w2 ≡ io.taken w ++ bytes
  unfolding write_loop
  write_loop-taken fuel [] w w2 h =
      let same : w2 ≡ w = cc in ap io.taken same ∙ sym (append-nil (io.taken w))
  write_loop-taken zero (b ∷ bytes) w w2 h = cc
  write_loop-taken (suc fuel) (b ∷ bytes) w w2 h =
      next_write-taken (write_loop io colorfy s fuel) (b ∷ bytes) (io.taken w)
        (io.write (b ∷ bytes) w) w2 (λ c v. write_loop-taken fuel c v w2)
        (io.write-taken (b ∷ bytes) w) h

  emptied-stream :
      (d d2 : DirectWriter W) (f : Flushed io colorfy s)
      → ((w : W) → f ≡ some (w, none) → io.taken w ≡ stream d)
      → without_error (emptied io colorfy s d f) ≡ some (d2, false)
      → stream d2 ≡ stream d
  unfolding emptied
  emptied-stream d d2 none law h = cc
  emptied-stream d d2 (some (w, some e)) law h = cc
  emptied-stream d d2 (some (w, none)) law h =
      let after : d2 ≡ record d { writer = w; write_buf = [] } = cc in
      ap stream after ∙ append-nil (io.taken w) ∙ law w refl

  flush_buffer-stream :
      (d d2 : DirectWriter W)
      → without_error (flush_buffer io colorfy s d) ≡ some (d2, false)
      → stream d2 ≡ stream d
  unfolding flush_buffer
  flush_buffer-stream d d2 h =
      emptied-stream d d2 (write_loop io colorfy s (length d.write_buf) d.write_buf d.writer)
        (λ w. write_loop-taken (length d.write_buf) d.write_buf d.writer w) h

  kept-stream :
      (d d2 : DirectWriter W)
      → without_error (some (d, none)) ≡ some (d2, false)
      → stream d2 ≡ stream d
  kept-stream d d2 h = let same : d2 ≡ d = cc in ap stream same

  -- One of two branches is taken.
  either-stream :
      (b : Bool) (o p : Outcome io colorfy s) (d2 : DirectWriter W) (t u : Bytes)
      → (without_error o ≡ some (d2, false) → stream d2 ≡ t)
      → (without_error p ≡ some (d2, false) → stream d2 ≡ u)
      → without_error (elim b [ true ↦ o | false ↦ p ]) ≡ some (d2, false)
      → stream d2 ≡ (if b then t else u)
  either-stream true o p d2 t u f g h = f h
  either-stream false o p d2 t u f g h = g h

  line_data-stream :
      (text : Bytes) (d d2 : DirectWriter W)
      → without_error (flush_if_full io colorfy s (buffered_line io colorfy s text d))
        ≡ some (d2, false)
      → stream d2 ≡ stream d ++ text
  unfolding flush_if_full
  line_data-stream text d d2 h =
      let after : DirectWriter W = buffered_line io colorfy s text d in
      let longer : stream after ≡ stream d ++ text =
        unfold buffered_line in sym (append_assoc (io.taken d.writer) d.write_buf text) in
      let full : Bool = leb s.buf_size (length after.write_buf) in
      either-stream full (flush_buffer io colorfy s after) (some (after, none)) d2 (stream after)
        (stream after) (flush_buffer-stream after d2) (kept-stream after d2) h
      ∙ if-same full (stream after)
      ∙ longer

  message-stream :
      (text : Option Bytes) (d d2 : DirectWriter W)
      → without_error (buffered_message io colorfy s text d) ≡ some (d2, false)
      → stream d2 ≡ stream d ++ text_or_nothing text
  unfolding buffered_message
  message-stream none d d2 h = kept-stream d d2 h ∙ sym (append-nil (stream d))
  message-stream (some text) d d2 h =
      flush_buffer-stream (record d { write_buf = d.write_buf ++ text }) d2 h
      ∙ sym (append_assoc (io.taken d.writer) d.write_buf text)

  writer_flushed-taken :
      (b : Bool) (w : W) → io.taken ((writer_flushed io colorfy s b w).0) ≡ io.taken w
  unfolding writer_flushed
  writer_flushed-taken true w = io.flush-taken w
  writer_flushed-taken false w = refl

  flushed-stream :
      (o : Outcome io colorfy s) (d d2 : DirectWriter W)
      → ((d3 : DirectWriter W) → without_error o ≡ some (d3, false) → stream d3 ≡ stream d)
      → without_errors (flushed_writer io colorfy s o) ≡ some (d2, false)
      → stream d2 ≡ stream d
  unfolding flushed_writer
  flushed-stream none d d2 law h = cc
  flushed-stream (some (d3, some e)) d d2 law h = cc
  flushed-stream (some (d3, none)) d d2 law h =
      let w : W = (writer_flushed io colorfy s s.serverless d3.writer).0 in
      let same : d2 ≡ record d3 { writer = w } = cc in
      ap stream same
      ∙ ap (λ t. t ++ d3.write_buf) (writer_flushed-taken s.serverless d3.writer)
      ∙ law d3 refl

  pub called-stream :
      (c : Call) (d d2 : DirectWriter W)
      → called c d ≡ some (d2, false)
      → stream d2 ≡ stream d ++ emitted c
  unfolding write_line_data write_server_message flush
  called-stream (line_data active content line_num source_id) d d2 h =
      let text : Bytes = formatted_line colorfy s content line_num source_id in
      either-stream (should_write_generation s.generation active)
        (flush_if_full io colorfy s (buffered_line io colorfy s text d)) (some (d, none)) d2
        (stream d ++ text) (stream d ++ []) (line_data-stream text d d2)
        (λ e. kept-stream d d2 e ∙ sym (append-nil (stream d))) h
      ∙ under_if (stream d) (should_write_generation s.generation active) text []
  called-stream (server_message active message) d d2 h =
      let text : Option Bytes = formatted_message s message in
      let sends : Bool = should_write_generation s.generation active && not s.serverless in
      either-stream sends (buffered_message io colorfy s text d) (some (d, none)) d2
        (stream d ++ text_or_nothing text) (stream d ++ []) (message-stream text d d2)
        (λ e. kept-stream d d2 e ∙ sym (append-nil (stream d))) h
      ∙ under_if (stream d) sends (text_or_nothing text) []
  called-stream flush_call d d2 h =
      flushed-stream (flush_buffer io colorfy s d) d d2 (flush_buffer-stream d) h
      ∙ sym (append-nil (stream d))

  failed_rest : (r : Ran) (d2 : DirectWriter W) → ¬ (spoiled r ≡ some (d2, false))
  unfolding spoiled
  failed_rest none d2 h = cc
  failed_rest (some (d, _)) d2 h = cc

  next_call-stream :
      (r : Ran) (rest : DirectWriter W → Ran) (d2 : DirectWriter W) (t u : Bytes)
      → ((d : DirectWriter W) → r ≡ some (d, false) → stream d ≡ t)
      → ((d : DirectWriter W) → rest d ≡ some (d2, false) → stream d2 ≡ stream d ++ u)
      → next_call rest r ≡ some (d2, false)
      → stream d2 ≡ t ++ u
  unfolding next_call
  next_call-stream none rest d2 t u f g h = cc
  next_call-stream (some (d, false)) rest d2 t u f g h = g d h ∙ ap (λ x. x ++ u) (f d refl)
  next_call-stream (some (d, true)) rest d2 t u f g h = absurd (failed_rest (rest d) d2 h)

  -- Calls that report no error have put on the stream exactly what they emit, in the order of the
  -- calls: what the writer behind has taken, followed by what waits in the buffer.
  pub run-emitted :
      (cs : List Call) (d d2 : DirectWriter W)
      → run cs d ≡ some (d2, false)
      → stream d2 ≡ stream d ++ emitted_all cs
  unfolding run
  run-emitted [] d d2 h = kept-stream d d2 h ∙ sym (append-nil (stream d))
  run-emitted (c ∷ cs) d d2 h =
      next_call-stream (called c d) (run cs) d2 (stream d ++ emitted c) (emitted_all cs)
        (λ d3. called-stream c d d3) (λ d3. run-emitted cs d3 d2) h
      ∙ append_assoc (stream d) (emitted c) (emitted_all cs)
