-- ===== src/Journal/Agreement.antt =====
-- The filters of internal/io/fs/readfile_processor.go and internal/io/journal/filter.go hand the
-- same lines to the same processor. The journal's filter may stop sooner, once its after context
-- is used up behind the last wanted match.
use dtail.Base.{
  ◌%◌, ◌≡◌, refl, sym, ◌∙◌, ◌⊎◌, inl, inr, Bool, true, false, ◌&&◌, List, [], ◌∷◌, none, arith, ltb,
  ◌==◌, Bool-cases, is_positive, Bytes,
}
use dtail.Fs.LineContext.{LineContext, has, IsInt}
use dtail.Fs.Stats.{u64_mod, update_position}
use dtail.Fs.Filter.{
  more, stopped, Processor, Filter, new_filter, and_then-more, and_then-ended, context_miss,
  process_with_context, process_filtered_raw, process_filtered_line, read_lines,
}
use dtail.Fs.Filter.Bounds.{Shape, process_filtered_line-Shape, with_stats, new_filter-Shape}
use dtail.Fs.Stats.Bounds.{update_position-IsValid}
use mathlib.Core.Path.{subst}
use dtail.Fs.Filter.Context.Steps.{numbered}
use dtail.Journal.Filter.{
  processor_sink, JournalFilter, new_journal_filter, process_journal_with_context,
  process_without_context, process, read_journal,
}
use dtail.Journal.Mirror.{mirror, failure, mirror_with, no_buffer}
use dtail.Journal.Steps.{
  StepAgrees, closed_agrees, after_agrees, quiet_agrees, hit_agrees, plain_agrees,
}

module _ {P E : Type 0} (proc : Processor P E) (ltx : LineContext) (id : Bytes) where
  context_agrees :
      (g : Filter P) (line : Bytes) (matched : Bool)
      → IsInt ltx
      → Shape ltx g
      → g.stats.line_count % u64_mod ≡ g.stats.line_count
      → StepAgrees (process_with_context proc ltx id g line g.stats.line_count matched) (
          process_journal_with_context
            (processor_sink proc)
            ltx
            id
            (mirror_with (numbered g.stats.line_count g.before_buf) g)
            line
            matched)
  context_agrees g line true i v m = elim (Bool-cases g.max_reached) [
    | inl closed ↦
        unfold process_with_context process_journal_with_context in
        inr (inr (ground arith, ground arith, ground arith))
    | inr on ↦ hit_agrees proc ltx id g line v.short on
  ]
  context_agrees g line false i v m =
      unfold process_with_context process_journal_with_context in
      elim (Bool-cases (g.max_reached && g.after_count == 0)) [
        | inl closed ↦ closed_agrees proc ltx id g line closed
        | inr on ↦ elim (Bool-cases (ltb 0 g.after_count)) [
          | inl printed ↦ after_agrees proc ltx id g line v printed
          | inr quiet ↦ quiet_agrees proc ltx id g line i v m quiet (ground arith)
        ]
      ]

  line_agrees :
      (f : Filter P) (line : Bytes) (matched : Bool)
      → IsInt ltx
      → Shape ltx f
      → StepAgrees
          (process_filtered_line proc ltx id
            (record f { stats = update_position f.stats })
            line
            matched)
          (process (processor_sink proc) ltx id (mirror f) line matched)
  unfolding update_position
  line_agrees f line matched i v =
      let g = record f { stats = update_position f.stats } in
      let w = with_stats proc ltx id f v (update_position-IsValid v.stats_valid) in
      elim (Bool-cases (has ltx)) [
        | inl context ↦
            unfold process_filtered_line process in
            rw context (context_agrees g line matched i w (omega arith))
        | inr plain ↦
            let b : f.before_buf ≡ [] =
              unfold has in ground (arith, no_buffer f.before_buf, v.short) in
            let none_ : numbered g.stats.line_count f.before_buf ≡ [] = rw b in
            unfold process_filtered_line process in
            rw plain (
              subst
                (λ l. StepAgrees (process_filtered_raw proc ltx id g line matched) (
                  process_without_context (processor_sink proc) ltx id (mirror_with l g) line
                    matched))
                (sym none_) (plain_agrees proc ltx id g line matched b))
      ]

  closed_line :
      (f : Filter P) (line : Bytes) (matched : Bool)
      → has ltx ≡ true
      → f.max_reached ≡ true
      → f.after_count ≡ 0
      → let r = process_filtered_line proc ltx id f line matched in
        (r.0.processor ≡ f.processor)
        × ((r.1 ≡ stopped) ⊎ ((r.1 ≡ more) × (r.0.max_reached ≡ true) × (r.0.after_count ≡ 0)))
  unfolding process_filtered_line process_with_context context_miss
  closed_line f line true h c a = ground arith
  closed_line f line false h c a = ground arith

  -- A closed file filter with no after context left hands nothing on.
  closed_quiet :
      (matches : Bytes → Bool) (lines : List Bytes) (f : Filter P)
      → has ltx ≡ true
      → f.max_reached ≡ true
      → f.after_count ≡ 0
      → let r = read_lines proc ltx id matches f lines in
        (r.0.processor ≡ f.processor) × (failure r.1 ≡ none)
  unfolding read_lines
  closed_quiet matches [] f h c a = (refl, refl)
  closed_quiet matches (line ∷ rest) f h c a =
      let g = record f { stats = update_position f.stats } in
      let r = process_filtered_line proc ltx id g line (matches line) in
      let next = λ (f' : Filter P). read_lines proc ltx id matches f' rest in
      let (p, ends) = closed_line g line (matches line) h c a in
      elim ends [
        | inl s ↦ rw (and_then-ended r next (cc)) (p, rw s)
        | inr (m, c', a') ↦
            let (q, n) = closed_quiet matches rest r.0 h c' a' in
            rw (and_then-more r next m) (q ∙ p, n)
      ]

  closed-has : is_positive ltx.max_count ≡ true → has ltx ≡ true
  unfolding has
  closed-has p = ground arith

  agree :
      (matches : Bytes → Bool) (lines : List Bytes) (f : Filter P)
      → IsInt ltx
      → Shape ltx f
      → let r = read_lines proc ltx id matches f lines in
        let j = read_journal (processor_sink proc) ltx id matches (mirror f) lines in
        (j.0.sink ≡ r.0.processor) × (failure j.1 ≡ failure r.1)
  unfolding read_lines read_journal
  agree matches [] f i v = (refl, refl)
  agree matches (line ∷ rest) f i v =
      let g = record f { stats = update_position f.stats } in
      let r = process_filtered_line proc ltx id g line (matches line) in
      let j = process (processor_sink proc) ltx id (mirror f) line (matches line) in
      let file = λ (f' : Filter P). read_lines proc ltx id matches f' rest in
      let journal =
        λ (f' : JournalFilter P). read_journal (processor_sink proc) ltx id matches f' rest in
      let w = with_stats proc ltx id f v (update_position-IsValid v.stats_valid) in
      let v' = process_filtered_line-Shape proc ltx id g line (matches line) w in
      elim (line_agrees f line (matches line) i v) [
        | inl (m, n, same) ↦
            rw (and_then-more r file m, and_then-more j journal n, same)
              (agree matches rest r.0 i v')
        | inr (inl (m, n, s, closed, a)) ↦
            let (q, o) =
              closed_quiet matches rest r.0 (closed-has (v'.closed_by_max closed)) closed a in
            rw (and_then-more r file m, and_then-ended j journal (cc)) (s ∙ sym q, rw (n, o))
        | inr (inr (m, n, s)) ↦
            rw (and_then-ended r file m, and_then-ended j journal (rw n m)) (s, rw n)
      ]

-- For every processor, line context, regular expression and lines, failing processors included,
-- the file filter and the journal filter leave the processor in the same state, and one of them
-- returns the processor's error exactly when the other does. The before context is a Go int.
pub read_lines-read_journal :
    {P E : Type 0} (proc : Processor P E) (ltx : LineContext) (id : Bytes) (matches : Bytes → Bool)
    (p : P) (lines : List Bytes)
    → IsInt ltx
    → let r = read_lines proc ltx id matches (new_filter p) lines in
      let j = read_journal (processor_sink proc) ltx id matches (new_journal_filter p) lines in
      (j.0.sink ≡ r.0.processor) × (failure j.1 ≡ failure r.1)
unfolding new_filter new_journal_filter
read_lines-read_journal proc ltx id matches p lines i =
    agree proc ltx id matches lines (new_filter p) i (new_filter-Shape ltx p)
