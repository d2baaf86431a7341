-- ===== src/Journal/Filter.antt =====
-- internal/io/journal/filter.go: the journal reader's filter, written anew for a sink. Its
-- journalStats is Stats of internal/io/fs/stats.go line by line, so that model is used here. The
-- percentage that Emit is also given is left out: processorSink, the only sink, ignores it.
use dtail.Base.{
  ℕ, ◌+◌, ◌-◌, Bool, true, false, ◌&&◌, List, [], ◌∷◌, ◌++◌, Option, ltb, leb, ◌==◌, if◌then◌else◌,
  length, drop, pos, pos_part, eq_ℤ, is_positive, Bytes,
}
use dtail.Fs.LineContext.{LineContext, has}
use dtail.Fs.Stats.{
  Stats, new_stats, total_line_count, update_position, update_line_matched, update_line_transmitted,
  update_line_not_matched, update_line_not_transmitted,
}
use dtail.Fs.Filter.{Outcome, more, stopped, failed, outcome, and_then, Processor}

-- The interface journalSink.
pub record Sink (S E : Type 0) : Type 0 where
  pub emit : S → Bytes → ℕ → Bytes → S × Option E
  pub full : S → Bool

unfoldable pub processor_sink : {P E : Type 0} → Processor P E → Sink P E
processor_sink proc = record { emit = proc.process_line; full = λ _. false }

pub record JournalFilter (S : Type 0) : Type 0 where
  pub sink : S
  pub stats : Stats
  pub before_lines : List (Bytes × ℕ)
  pub after_left : ℕ
  pub max_hit : ℕ
  pub max_closed : Bool

unfoldable pub new_journal_filter : {S : Type 0} → S → JournalFilter S
new_journal_filter s = record {
  sink = s;
  stats = new_stats;
  before_lines = [];
  after_left = 0;
  max_hit = 0;
  max_closed = false;
}

-- The oldest line makes room for the newest.
unfoldable pub remember_before : LineContext → List (Bytes × ℕ) → Bytes → ℕ → List (Bytes × ℕ)
remember_before ltx lines line n =
    (if leb (pos_part ltx.before_context) (length lines) then drop 1 lines else lines)
    ++ (line, n) ∷ []

module _ {S E : Type 0} (snk : Sink S E) (ltx : LineContext) (source_id : Bytes) where
  -- The transmission of a line is counted, and the line goes to the sink.
  unfoldable pub emit_line : JournalFilter S → Bytes → ℕ → JournalFilter S × Outcome E
  emit_line f line n =
      let counted = record f { stats = update_line_transmitted f.stats } in
      let (s, e) = snk.emit f.sink line n source_id in (record counted { sink = s }, outcome e)

  -- discardBeforeFrom: on an error the buffer is emptied.
  abbrev pub discard_on_error : JournalFilter S × Outcome E → JournalFilter S × Outcome E
  discard_on_error (f, more) = (f, more)
  discard_on_error (f, stopped) = (f, stopped)
  discard_on_error (f, failed x) = (record f { before_lines = [] }, failed x)

  unfoldable pub emit_before : JournalFilter S → List (Bytes × ℕ) → JournalFilter S × Outcome E
  emit_before f [] = (record f { before_lines = [] }, more)
  emit_before f ((line, n) ∷ lines) =
      discard_on_error (and_then (emit_line f line n) (λ f'. emit_before f' lines))

  unfoldable pub process_context_miss : JournalFilter S → Bytes → JournalFilter S × Outcome E
  process_context_miss f line =
      let missed = record f { stats = update_line_not_matched f.stats } in
      let dropped = record missed { stats = update_line_not_transmitted missed.stats } in
      let n = total_line_count missed.stats in
      if f.max_closed && f.after_left == 0
      then (missed, stopped)
      else if ltb 0 f.after_left
      then and_then (emit_line (record missed { after_left = f.after_left - 1 }) line n)
          (λ f'. (f', if f'.max_closed && f'.after_left == 0 then stopped else more))
      else if is_positive ltx.before_context
      then (record dropped { before_lines = remember_before ltx f.before_lines line n }, more)
      else (dropped, more)

  -- After the matched line went to the sink.
  unfoldable pub count_hit : JournalFilter S → JournalFilter S × Outcome E
  count_hit f =
      let hit = record f { max_hit = f.max_hit + 1 } in
      let reset = λ (g : JournalFilter S).
        if is_positive ltx.after_context
        then record g { after_left = pos_part ltx.after_context }
        else g in
      if is_positive ltx.max_count
      then (if leb (pos_part ltx.max_count) hit.max_hit
          then (if eq_ℤ ltx.after_context (pos 0)
              then (hit, stopped)
              else (reset (record hit { max_closed = true }), more))
          else (reset hit, more))
      else (reset f, more)

  -- The matched line itself, behind the lines before it.
  unfoldable pub emit_hit : JournalFilter S → Bytes → JournalFilter S × Outcome E
  emit_hit f line = and_then (emit_line f line (total_line_count f.stats)) count_hit

  -- The flag is `f.re.Match(rawLine)`.
  unfoldable pub process_journal_with_context :
      JournalFilter S → Bytes → Bool → JournalFilter S × Outcome E
  process_journal_with_context f line false = process_context_miss f line
  process_journal_with_context f line true =
      let hit = record f { stats = update_line_matched f.stats } in
      if f.max_closed
      then (hit, stopped)
      else and_then (emit_before hit f.before_lines) (λ f'. emit_hit f' line)

  unfoldable pub process_without_context :
      JournalFilter S → Bytes → Bool → JournalFilter S × Outcome E
  process_without_context f line false =
      let missed = record f { stats = update_line_not_matched f.stats } in
      (record missed { stats = update_line_not_transmitted missed.stats }, more)
  process_without_context f line true =
      let hit = record f { stats = update_line_matched f.stats } in
      if snk.full f.sink
      then (record hit { stats = update_line_not_transmitted hit.stats }, more)
      else emit_line hit line (total_line_count hit.stats)

  unfoldable pub process : JournalFilter S → Bytes → Bool → JournalFilter S × Outcome E
  process f line matched =
      let g = record f { stats = update_position f.stats } in
      if has ltx
      then process_journal_with_context g line matched
      else process_without_context g line matched

  -- The reader's loop over complete lines: an error, errStopReading included, ends it.
  unfoldable pub read_journal :
      (Bytes → Bool) → JournalFilter S → List Bytes → JournalFilter S × Outcome E
  read_journal matches f [] = (f, more)
  read_journal matches f (line ∷ rest) =
      and_then (process f line (matches line)) (λ f'. read_journal matches f' rest)
