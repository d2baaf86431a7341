-- ===== src/Journal/Steps.antt =====
-- One line through the filters of internal/io/fs/readfile_processor.go and
-- internal/io/journal/filter.go: either both go on alike, or the journal filter ends.
use dtail.Base.{
  ℕ, ◌-◌, ◌%◌, ◌≤◌, ◌≡◌, refl, ◌≢◌, ◌⊎◌, inl, inr, Bool, true, false, ◌&&◌, [], Option, none, some,
  arith, ltb, ◌==◌, if◌then◌else◌, Bool-cases, length, is_positive, Bytes,
}
use dtail.Fs.LineContext.{LineContext, IsInt, before}
use dtail.Fs.Stats.{
  Stats, u64_mod, update_line_matched, update_line_transmitted, update_line_not_matched,
  update_line_not_transmitted,
}
use dtail.Fs.Filter.{
  Outcome, more, stopped, failed, outcome, Processor, Filter, and_then, hand_over, process_before,
  remember, context_miss, count_match, context_hit, process_with_context, process_filtered_raw,
}
use dtail.Fs.Filter.Bounds.{Shape}
use dtail.Fs.Filter.Context.Steps.{numbered}
use dtail.Journal.Filter.{
  processor_sink, JournalFilter, remember_before, emit_line, process_context_miss,
  process_journal_with_context, process_without_context,
}
use dtail.Journal.Mirror.{mirror, mirror_with, numbered-remember, journal_hit, file_hit, no_buffer}

module _ {P E : Type 0} where
  -- Both go on in the same state; or the journal filter stops and the file filter is closed for
  -- good; or both end, with the same failure and the same processor.
  abbrev pub StepAgrees : Filter P × Outcome E → JournalFilter P × Outcome E → Type 0
  StepAgrees r j =
      ((r.1 ≡ more) × (j.1 ≡ more) × (j.0 ≡ mirror r.0))
      ⊎ (((r.1 ≡ more)
            × (j.1 ≡ stopped)
            × (j.0.sink ≡ r.0.processor)
            × (r.0.max_reached ≡ true)
            × (r.0.after_count ≡ 0))
          ⊎ ((r.1 ≢ more) × (j.1 ≡ r.1) × (j.0.sink ≡ r.0.processor)))

module _ {P E : Type 0} where
  -- A line of after context, `e` being the processor's error.
  printed_agrees :
      (e : Option E) (g : Filter P)
      → g.before_buf ≡ []
      → StepAgrees
          (g, outcome e)
          (and_then
            (mirror g, outcome e)
            (λ f'. (f', if f'.max_closed && f'.after_left == 0 then stopped else more)))
  printed_agrees none g b = elim (Bool-cases (g.max_reached && g.after_count == 0)) [
    | inl last ↦ inr (inl (refl, rw last, refl, ground arith, ground arith))
    | inr on ↦ inl (refl, rw on, refl)
  ]
  printed_agrees (some x) g b = inr (inr (cc, refl, refl))

matched_count : (s : Stats) → (update_line_matched s).line_count ≡ s.line_count
unfolding update_line_matched
matched_count s = ground arith

missed_count : (s : Stats) → (update_line_not_matched s).line_count ≡ s.line_count
unfolding update_line_not_matched
missed_count s = ground arith

dropped_count :
    (s : Stats)
    → (update_line_not_transmitted (update_line_not_matched s)).line_count ≡ s.line_count
unfolding update_line_not_matched update_line_not_transmitted
dropped_count s = ground arith

module _ {P E : Type 0} (proc : Processor P E) (ltx : LineContext) (id : Bytes) where
  abbrev pub miss : Filter P → Bytes → Filter P × Outcome E
  miss f line = context_miss proc ltx id f line f.stats.line_count

  abbrev pub journal_miss : Filter P → Bytes → JournalFilter P × Outcome E
  journal_miss f line =
      process_context_miss (processor_sink proc) ltx id
        (mirror_with (numbered f.stats.line_count f.before_buf) f) line

  pub closed_agrees :
      (f : Filter P) (line : Bytes)
      → (f.max_reached && f.after_count == 0) ≡ true
      → StepAgrees (miss f line) (journal_miss f line)
  unfolding context_miss process_context_miss
  closed_agrees f line c =
      inr (inl (ground arith, ground arith, ground arith, ground arith, ground arith))

  pub after_agrees :
      (f : Filter P) (line : Bytes)
      → Shape ltx f
      → ltb 0 f.after_count ≡ true
      → StepAgrees (miss f line) (journal_miss f line)
  after_agrees f line v p =
      let missed = record f {
        after_count = f.after_count - 1;
        stats = update_line_transmitted (update_line_not_matched f.stats);
      } in
      let file : miss f line ≡ hand_over proc ltx id missed line f.stats.line_count =
        unfold context_miss in ground (arith, v.after_bounded) in
      let r = proc.process_line f.processor line f.stats.line_count id in
      let journal : journal_miss f line
          ≡ and_then (mirror (record missed { processor = r.0 }), outcome r.1)
              (λ f'. (f', if f'.max_closed && f'.after_left == 0 then stopped else more)) =
        unfold process_context_miss emit_line processor_sink update_line_not_matched in
        ground (arith, v.empty_after (ground arith)) in
      rw (file, journal)
        (unfold hand_over in
          printed_agrees r.1 (record missed { processor = r.0 }) (v.empty_after (ground arith)))

  pub quiet_agrees :
      (f : Filter P) (line : Bytes)
      → IsInt ltx
      → Shape ltx f
      → f.stats.line_count % u64_mod ≡ f.stats.line_count
      → ltb 0 f.after_count ≡ false
      → f.max_reached ≡ false
      → StepAgrees (miss f line) (journal_miss f line)
  unfolding context_miss process_context_miss
  quiet_agrees f line i v m q o =
      let n = f.stats.line_count in
      let missed = update_line_not_matched f.stats in
      let dropped = record f { stats = update_line_not_transmitted missed } in
      elim (Bool-cases (is_positive ltx.before_context)) [
        | inl kept ↦
            let g = record dropped { before_buf = remember ltx f.before_buf line } in
            let file : miss f line ≡ (g, more) = ground arith in
            let lines = remember_before ltx (numbered n f.before_buf) line n in
            let journal : journal_miss f line ≡ (mirror_with lines g, more) =
              ground (arith, missed_count f.stats) in
            rw (file, journal)
              (inl (
                refl,
                refl,
                rw (dropped_count f.stats, numbered-remember ltx n f.before_buf line i v.short, m),
              ))
        | inr none_ ↦
            let b : f.before_buf ≡ [] = ground (arith, no_buffer f.before_buf, v.short) in
            let file : miss f line ≡ (dropped, more) = ground arith in
            let journal : journal_miss f line ≡ (mirror dropped, more) = ground (arith, b) in
            rw (file, journal) (inl (refl, refl, refl))
      ]

  count_match-empty :
      (f : Filter P) → f.before_buf ≡ [] → (count_match proc ltx id f).0.before_buf ≡ []
  unfolding count_match
  count_match-empty f b = ground arith

  context_hit-empty :
      (f : Filter P) (line : Bytes) (n : ℕ)
      → f.before_buf ≡ []
      → (context_hit proc ltx id f line n).0.before_buf ≡ []
  unfolding context_hit hand_over
  context_hit-empty f line n b =
      let r = proc.process_line f.processor line n id in
      after_error r.1 (record f { processor = r.0; stats = update_line_transmitted f.stats }) b
    where
      after_error :
          (e : Option E) (g : Filter P)
          → g.before_buf ≡ []
          → (and_then (g, outcome e) (count_match proc ltx id)).0.before_buf ≡ []
      after_error none g b = count_match-empty g b
      after_error (some x) g b = b

  -- A match that is not the end empties the buffer.
  pub hit_agrees :
      (f : Filter P) (line : Bytes)
      → length f.before_buf ≤ before ltx
      → f.max_reached ≡ false
      → StepAgrees (process_with_context proc ltx id f line f.stats.line_count true) (
          process_journal_with_context
            (processor_sink proc)
            ltx
            id
            (mirror_with (numbered f.stats.line_count f.before_buf) f)
            line
            true)
  hit_agrees f line l o =
      let n = f.stats.line_count in
      let hit = record f { stats = update_line_matched f.stats } in
      let r = process_before proc ltx id hit f.before_buf n in
      rw
        (
          journal_hit proc ltx id f line (numbered n f.before_buf) refl l o,
          file_hit proc ltx id f line n l o,
        )
        (split r.1 r.0 n)
    where
      same :
          (e : Outcome E) (g : Filter P)
          → g.before_buf ≡ []
          → StepAgrees (g, e) (mirror_with [] g, e)
      same more g b = inl (refl, refl, rw b)
      same stopped g b = inr (inr (cc, refl, refl))
      same (failed x) g b = inr (inr (cc, refl, refl))

      split :
          (e : Outcome E) (g : Filter P) (n : ℕ)
          → let r =
              and_then
                (g, e)
                (λ f'. context_hit proc ltx id (record f' { before_buf = [] }) line n) in
            StepAgrees r (mirror_with [] r.0, r.1)
      split more g n =
          let h = context_hit proc ltx id (record g { before_buf = [] }) line n in
          same h.1 h.0 (context_hit-empty (record g { before_buf = [] }) line n refl)
      split stopped g n = inr (inr (cc, refl, refl))
      split (failed x) g n = inr (inr (cc, refl, refl))

  pub plain_agrees :
      (f : Filter P) (line : Bytes) (matched : Bool)
      → f.before_buf ≡ []
      → StepAgrees
          (process_filtered_raw proc ltx id f line matched)
          (process_without_context (processor_sink proc) ltx id (mirror_with [] f) line matched)
  unfolding process_filtered_raw process_without_context update_line_matched
  plain_agrees f line false b = inl (refl, refl, rw b)
  plain_agrees f line true b =
      let hit = update_line_transmitted (update_line_matched f.stats) in
      let r = proc.process_line f.processor line f.stats.line_count id in
      unfold hand_over emit_line processor_sink in
      rw (matched_count f.stats) (after_error r.1 (record f { processor = r.0; stats = hit }) b)
    where
      after_error :
          (e : Option E) (g : Filter P)
          → g.before_buf ≡ []
          → StepAgrees (g, outcome e) (mirror_with [] g, outcome e)
      after_error none g b = inl (refl, refl, rw b)
      after_error (some x) g b = inr (inr (cc, refl, refl))
