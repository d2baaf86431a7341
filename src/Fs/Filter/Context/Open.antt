-- ===== src/Fs/Filter/Context/Open.antt =====
-- The filter of internal/io/fs/readfile_processor.go while matches are wanted, and the whole run.
use dtail.Base.{
  ℕ, suc, ◌≡◌, refl, sym, ◌∙◌, inl, inr, Bool, true, false, List, [], ◌∷◌, ◌++◌, append-nil,
  append_assoc, arith, ltb, if◌then◌else◌, Bool-cases, is_positive, Bytes,
}
use dtail.Fs.LineContext.{LineContext, IsInt, before, after}
use dtail.Fs.Stats.{Stats, new_stats, increment, update_position}
use dtail.Fs.Filter.{Filter, new_filter, read_lines}
use dtail.Fs.Filter.Context.Steps.{
  Log, logger, Fits, matched_state, missed_state, line_hit, length-eq-zero,
}
use dtail.Fs.Filter.Context.Selection.{
  trailing, is_last, grep_lines, pending, pending-nil, pending-match, pending-remember, grep-hit,
  grep-printed, grep-quiet,
}
use dtail.Fs.Filter.Context.Closed.{
  run, step, run-more, missed-Fits, step-Fits, run-miss, count_match_lem, Counted, hit-last,
}

module _ (ltx : LineContext) (id : Bytes) (matches : Bytes → Bool) where
  -- The lines still to come, from an open filter: those that a match brings out of the buffer,
  -- then those that the look-ahead selects.
  abbrev pub coming : Filter Log → ℕ → List Bytes → Log
  coming f k lines =
      pending matches ltx (increment f.stats.line_count) f.before_buf lines
      ++ grep_lines matches ltx f.after_count k f.stats.line_count lines

  coming-miss :
      (f : Filter Log) (k : ℕ) (line : Bytes) (s : Stats) (rest : List Bytes)
      → IsInt ltx
      → Fits ltx f
      → matches line ≡ false
      → s.line_count ≡ increment f.stats.line_count
      → (missed_state ltx id (step ltx id matches f) line s).processor
          ++ coming (missed_state ltx id (step ltx id matches f) line s) k rest
        ≡ f.processor ++ coming f k (line ∷ rest)
  unfolding update_position
  coming-miss f k line s rest i v m n = elim (Bool-cases (ltb 0 f.after_count)) [
    | inl printed ↦
        rw
          (
            printed,
            n,
            v.empty_after (ground arith),
            grep-printed matches ltx k f.stats.line_count line rest f.after_count m printed,
          )
          (unfold pending in rw append_assoc)
    | inr quiet ↦ elim (Bool-cases (is_positive ltx.before_context)) [
      | inl kept ↦ rw (
        quiet,
        kept,
        n,
        grep-quiet matches ltx k f.stats.line_count line rest f.after_count m quiet,
        pending-remember matches ltx (increment f.stats.line_count) f.before_buf line rest i v.short
            (ground arith) m,
        append_assoc,
      )
      | inr dropped ↦
          rw
            (
              quiet,
              dropped,
              n,
              grep-quiet matches ltx k f.stats.line_count line rest f.after_count m quiet,
            )
            (let z : before ltx ≡ 0 = ground arith in
              rw (z, length-eq-zero f.before_buf (rw z at v.short)) (unfold pending in refl))
    ]
  ]

  last-Counted :
      (f : Filter Log) (k : ℕ)
      → Counted ltx id matches f k
      → is_last matches ltx (suc f.max_count) ≡ is_last matches ltx (suc k)
  last-Counted f k c = ground arith

  coming-hit :
      (f : Filter Log) (k : ℕ) (line : Bytes) (s : Stats) (rest : List Bytes)
      → Fits ltx f
      → matches line ≡ true
      → {later : Log}
      → (if is_last matches ltx (suc k)
          then trailing matches ltx (after ltx) (increment f.stats.line_count) rest
          else grep_lines matches ltx (after ltx) (suc k) (increment f.stats.line_count) rest)
        ≡ later
      → (matched_state ltx id (step ltx id matches f) line s).processor ++ later
        ≡ f.processor ++ coming f k (line ∷ rest)
  unfolding update_position
  coming-hit f k line s rest v m e =
      rw
        (
          grep-hit matches ltx k f.stats.line_count line rest f.after_count m,
          pending-match matches ltx (increment f.stats.line_count) f.before_buf line rest v.short m,
          e,
        )
        (simp append_assoc)

  open_lines :
      (lines : List Bytes) (f : Filter Log) (k : ℕ)
      → IsInt ltx
      → Fits ltx f
      → f.max_reached ≡ false
      → Counted ltx id matches f k
      → run ltx id matches f lines ≡ f.processor ++ coming f k lines
  unfolding update_position
  open_lines [] f k i v o c = unfold read_lines grep_lines in rw (pending-nil, append-nil)
  open_lines (line ∷ rest) f k i v o c = elim (Bool-cases (matches line)) [
    | inl hit ↦
        let (s, e, n) =
          line_hit ltx id (step ltx id matches f) line (step-Fits ltx id matches f v) o in
        elim (Bool-cases (is_last matches ltx (suc f.max_count))) [
          | inl last ↦
              hit-last ltx id matches f line s rest v hit e n last
              ∙ coming-hit f k line s rest v hit (rw (sym (last-Counted f k c) ∙ last))
          | inr on ↦
              let g = matched_state ltx id (step ltx id matches f) line s in
              let f' = record g {
                max_count = if is_positive ltx.max_count then suc g.max_count else g.max_count;
                after_count = after ltx;
              } in
              run-more ltx id matches f line rest {f' = f'} hit
                (e ∙ count_match_lem ltx id matches g v.after_bounded ∙ rw on)
              ∙ open_lines rest f' (suc k) i
                  (record {
                    short = omega arith;
                    after_bounded = omega arith;
                    empty_after = λ _. refl;
                  })
                  o (ground arith)
              ∙ coming-hit f k line s rest v hit
                  (rw (sym (last-Counted f k c) ∙ on, n) (unfold pending in refl))
        ]
    | inr off ↦
        let (s, e, n) = run-miss ltx id matches f line rest v off in
        let f' = missed_state ltx id (step ltx id matches f) line s in
        e
        ∙ open_lines rest f' k i
            (missed-Fits ltx id matches (step ltx id matches f) line s
              (step-Fits ltx id matches f v))
            (ground arith) (ground arith)
        ∙ coming-miss f k line s rest i v off n
  ]

-- The filter hands on exactly the lines that a grep with this local context prints, in their
-- order and with their numbers, whatever the lines and the regular expression: a line stands in
-- the output if it matches or lies within the context of a match before or after it, until the
-- maximal number of matches is reached. The before context is a Go int.
pub read_lines-grep_lines :
    (ltx : LineContext) (id : Bytes) (matches : Bytes → Bool) (lines : List Bytes)
    → IsInt ltx
    → (read_lines logger ltx id matches (new_filter []) lines).0.processor
      ≡ grep_lines matches ltx 0 0 0 lines
unfolding new_filter
read_lines-grep_lines ltx id matches lines i =
    open_lines ltx id matches lines (new_filter []) 0 i
      (record { short = omega arith; after_bounded = omega arith; empty_after = λ _. refl }) refl
      (λ _. refl)
    ∙ unfold pending new_stats in refl
