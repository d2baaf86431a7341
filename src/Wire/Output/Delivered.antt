-- ===== src/Wire/Output/Delivered.antt =====
-- A DirectWriter in front of a writer that makes progress delivers everything.
use dtail.Base.{
  ℕ, zero, suc, ◌≤◌, ◌≡◌, refl, sym, ap, ◌∙◌, Bool, true, false, not, ◌&&◌, List, [], ◌∷◌, ◌++◌,
  append-nil, Option, none, some, is_some, arith, leb, length, length-drop, drop, Bytes,
}
use dtail.Wire.Output.{
  Settings, Writer, DirectWriter, new_direct_writer, Flushed, Outcome, should_write_generation,
  formatted_line, formatted_message, next_write, write_loop, emptied, flush_buffer, buffered_line,
  flush_if_full, write_line_data, buffered_message, write_server_message, writer_flushed,
  flushed_writer, flush,
}
use dtail.Wire.Output.Emitted.{
  Call, line_data, server_message, flush_call, emitted_all, Ran, without_error, without_errors,
  called, called-stream, stream, next_call, run, run-emitted,
}

module _ {W E : Type 0} (io : Writer W E) (colorfy : Bytes → Bytes) (s : Settings) where
  -- A write of some bytes takes at least one of them, and no call fails.
  abbrev pub MakesProgress : Type 0
  MakesProgress =
      ((c : ℕ) (bytes : Bytes) (w : W)
        → (1 ≤ (io.write (c ∷ bytes) w).1) × ((io.write (c ∷ bytes) w).2 ≡ none))
      × ((w : W) → (io.flush w).1 ≡ none)

  -- The call has returned, and no error.
  abbrev pub Returned : Ran io colorfy s → Type 0
  Returned r = (d : DirectWriter W) × (r ≡ some (d, false))

  next_write-done :
      (rest : Bytes → W → Flushed io colorfy s) (bytes : Bytes) (r : W × ℕ × Option E) (fuel : ℕ)
      → 1 ≤ r.1
      → r.2 ≡ none
      → length bytes ≤ suc fuel
      → ((b : Bytes) (w : W) → length b ≤ fuel → (v : W) × (rest b w ≡ some (v, none)))
      → (v : W) × (next_write io colorfy s rest bytes r ≡ some (v, none))
  unfolding next_write
  next_write-done rest bytes (w, n, some e) fuel p q l ih = cc
  next_write-done rest bytes (w, zero, none) fuel p q l ih = absurd (omega (arith, p))
  next_write-done rest bytes (w, suc n, none) fuel p q l ih =
      ih (drop (suc n) bytes) w (omega (arith, length-drop (suc n) bytes))

  write_loop-done :
      (fuel : ℕ) (bytes : Bytes) (w : W)
      → MakesProgress
      → length bytes ≤ fuel
      → (v : W) × (write_loop io colorfy s fuel bytes w ≡ some (v, none))
  unfolding write_loop
  write_loop-done fuel [] w p l = (w, refl)
  write_loop-done zero (c ∷ bytes) w p l = absurd (omega arith)
  write_loop-done (suc fuel) (c ∷ bytes) w p l =
      next_write-done (write_loop io colorfy s fuel) (c ∷ bytes) (io.write (c ∷ bytes) w) fuel
        ((p.0 c bytes w).0) ((p.0 c bytes w).1) l (λ b v k. write_loop-done fuel b v p k)

  flush_buffer-done :
      (d : DirectWriter W)
      → MakesProgress
      → (v : W) × (flush_buffer io colorfy s d
          ≡ some (record d { writer = v; write_buf = [] }, none))
  unfolding flush_buffer
  flush_buffer-done d p =
      let (v, done) = write_loop-done (length d.write_buf) d.write_buf d.writer p (omega arith) in
      (v, ap (emptied io colorfy s d) done ∙ unfold emptied in refl)

  flush_buffer-Returned :
      (d : DirectWriter W)
      → MakesProgress
      → Returned (without_error io colorfy s (flush_buffer io colorfy s d))
  flush_buffer-Returned d p =
      let (v, done) = flush_buffer-done d p in
      (record d { writer = v; write_buf = [] }, ap (without_error io colorfy s) done)

  either-Returned :
      (b : Bool) (o q : Outcome io colorfy s)
      → Returned (without_error io colorfy s o)
      → Returned (without_error io colorfy s q)
      → Returned (without_error io colorfy s (elim b [ true ↦ o | false ↦ q ]))
  either-Returned true o q f g = f
  either-Returned false o q f g = g

  message-Returned :
      (text : Option Bytes) (d : DirectWriter W)
      → MakesProgress
      → Returned (without_error io colorfy s (buffered_message io colorfy s text d))
  unfolding buffered_message
  message-Returned none d p = (d, refl)
  message-Returned (some text) d p =
      flush_buffer-Returned (record d { write_buf = d.write_buf ++ text }) p

  writer_flushed-done :
      (b : Bool) (w : W) → MakesProgress → (writer_flushed io colorfy s b w).1 ≡ none
  unfolding writer_flushed
  writer_flushed-done true w p = p.1 w
  writer_flushed-done false w p = refl

  -- After Flush the buffer is empty.
  flush-done :
      (d : DirectWriter W)
      → MakesProgress
      → (d2 : DirectWriter W) × (called io colorfy s flush_call d ≡ some (d2, false))
        × (d2.write_buf ≡ [])
  unfolding flush
  flush-done d p =
      let (v, done) = flush_buffer-done d p in
      let w : W × Option E = writer_flushed io colorfy s s.serverless v in
      (
        record d { writer = w.0; write_buf = [] },
        ap (λ o. without_errors io colorfy s (flushed_writer io colorfy s o)) done
            ∙ unfold flushed_writer in
              ap (λ e. some (record d { writer = w.0; write_buf = [] }, is_some e))
                (writer_flushed-done s.serverless v p),
        refl,
      )

  called-Returned :
      (c : Call) (d : DirectWriter W) → MakesProgress → Returned (called io colorfy s c d)
  unfolding write_line_data write_server_message flush_if_full
  called-Returned (line_data active content line_num source_id) d p =
      let after : DirectWriter W =
        buffered_line io colorfy s (formatted_line colorfy s content line_num source_id) d in
      either-Returned (should_write_generation s.generation active)
        (flush_if_full io colorfy s after) (some (d, none))
        (either-Returned (leb s.buf_size (length after.write_buf)) (flush_buffer io colorfy s after)
          (some (after, none)) (flush_buffer-Returned after p) (after, refl))
        (d, refl)
  called-Returned (server_message active message) d p =
      either-Returned (should_write_generation s.generation active && not s.serverless)
        (buffered_message io colorfy s (formatted_message s message) d) (some (d, none))
        (message-Returned (formatted_message s message) d p) (d, refl)
  called-Returned flush_call d p = let (d2, done, _) = flush-done d p in (d2, done)

  run-Returned :
      (cs : List Call) (d : DirectWriter W) → MakesProgress → Returned (run io colorfy s cs d)
  unfolding run
  run-Returned [] d p = (d, refl)
  run-Returned (c ∷ cs) d p =
      let (d2, done) = called-Returned c d p in
      let (d3, rest) = run-Returned cs d2 p in
      (d3, ap (next_call io colorfy s (run io colorfy s cs)) done ∙ unfold next_call in rest)

  -- In front of a writer that makes progress and does not fail, any calls and then a Flush return
  -- without an error, and the writer has then taken exactly what the calls emit.
  pub run-delivered :
      (cs : List Call) (w : W)
      → MakesProgress
      → (d : DirectWriter W) × (d2 : DirectWriter W) × (run io colorfy s cs (new_direct_writer w)
          ≡ some (d, false))
        × (called io colorfy s flush_call d ≡ some (d2, false))
        × (io.taken d2.writer ≡ io.taken w ++ emitted_all io colorfy s cs)
  run-delivered cs w p =
      let (d, done) = run-Returned cs (new_direct_writer w) p in
      let (d2, flushed, empty) = flush-done d p in
      (
        d,
        d2,
        done,
        flushed,
        sym (append-nil (io.taken d2.writer))
            ∙ ap (λ b. io.taken d2.writer ++ b) (sym empty)
            ∙ called-stream io colorfy s flush_call d d2 flushed
            ∙ append-nil (stream io colorfy s d)
            ∙ run-emitted io colorfy s cs (new_direct_writer w) d done
            ∙ unfold new_direct_writer in
              ap (λ t. t ++ emitted_all io colorfy s cs) (append-nil (io.taken w)),
      )
