-- ===== src/Fs/Filter/Context/Closed.antt =====
-- The filter of internal/io/fs/readfile_processor.go behind its last wanted match.
use dtail.Base.{
  ℕ, suc, ◌-◌, ◌≤◌, ◌≡◌, refl, ◌∙◌, ap, inl, inr, Bool, true, false, List, [], ◌∷◌, ◌++◌,
  append-nil, append_assoc, arith, ltb, if◌then◌else◌, Bool-cases, pos, eq_ℤ, is_positive, Bytes,
}
use dtail.Fs.LineContext.{LineContext, has, after}
use dtail.Fs.Stats.{Stats, increment, update_position, update_line_matched}
use dtail.Fs.Filter.{
  Outcome, more, Filter, count_match, read_lines, process_filtered_line, process_with_context,
}
use dtail.Fs.Filter.Context.Steps.{Log, logger, Fits, matched_state, missed_state, line_miss}
use dtail.Fs.Filter.Context.Selection.{trailing, is_last, trailing-zero, length-remember}

module _ (ltx : LineContext) (id : Bytes) (matches : Bytes → Bool) where
  -- All that the processor is handed.
  abbrev pub run : Filter Log → List Bytes → Log
  run f lines = (read_lines logger ltx id matches f lines).0.processor

  abbrev pub step : Filter Log → Filter Log
  step f = record f { stats = update_position f.stats }

  pub run-more :
      (f : Filter Log) (line : Bytes) (rest : List Bytes) {b : Bool} {f' : Filter Log}
      → matches line ≡ b
      → process_filtered_line logger ltx id (step f) line b ≡ (f', more)
      → run f (line ∷ rest) ≡ run f' rest
  unfolding read_lines
  run-more f line rest m e = ground arith

  run-stopped :
      (f : Filter Log) (line : Bytes) (rest : List Bytes) {b : Bool} {f' : Filter Log}
      → matches line ≡ b
      → process_filtered_line logger ltx id (step f) line b ≡ (f', Outcome.stopped)
      → run f (line ∷ rest) ≡ f'.processor
  unfolding read_lines
  run-stopped f line rest m e = ground arith

  pub missed-Fits :
      (f : Filter Log) (line : Bytes) (s : Stats)
      → Fits ltx f
      → Fits ltx (missed_state ltx id f line s)
  missed-Fits f line s v = elim (Bool-cases (ltb 0 f.after_count)) [
    | inl printed ↦ rw printed (record {
      short = v.short;
      after_bounded = omega (arith, v.after_bounded);
      empty_after = λ _. v.empty_after (ground arith);
    })
    | inr quiet ↦ elim (Bool-cases (is_positive ltx.before_context)) [
      | inl kept ↦
          rw (quiet, kept)
            (record {
              short = length-remember ltx f.before_buf line v.short (ground arith);
              after_bounded = v.after_bounded;
              empty_after = λ h. absurd (ground arith);
            })
      | inr dropped ↦
          rw (quiet, dropped)
            (record {
              short = v.short;
              after_bounded = v.after_bounded;
              empty_after = v.empty_after;
            })
    ]
  ]

  pub step-Fits : (f : Filter Log) → Fits ltx f → Fits ltx (step f)
  step-Fits f v = record {
    short = v.short;
    after_bounded = v.after_bounded;
    empty_after = v.empty_after;
  }

  pub run-miss :
      (f : Filter Log) (line : Bytes) (rest : List Bytes)
      → Fits ltx f
      → matches line ≡ false
      → (s : Stats) × (run f (line ∷ rest) ≡ run (missed_state ltx id (step f) line s) rest)
        × (s.line_count ≡ increment f.stats.line_count)
  unfolding update_position
  run-miss f line rest v m =
      let (s, e, c) = line_miss ltx id (step f) line (step-Fits f v) in
      (s, run-more f line rest m e, c)

  pub count_match_lem :
      (g : Filter Log)
      → g.after_count ≤ after ltx
      → count_match logger ltx id g ≡ (
          if is_last matches ltx (suc g.max_count)
          then (if eq_ℤ ltx.after_context (pos 0)
              then (record g { max_count = suc g.max_count }, Outcome.stopped)
              else (
                record g {
                  max_count = suc g.max_count;
                  max_reached = true;
                  after_count = after ltx;
                },
                more,
              ))
          else (
            record g {
              max_count = if is_positive ltx.max_count then suc g.max_count else g.max_count;
              after_count = after ltx;
            },
            more,
          ))
  unfolding count_match
  count_match_lem g h = ground arith

  run-closed :
      (f : Filter Log) (line : Bytes) (rest : List Bytes)
      → is_positive ltx.max_count ≡ true
      → f.max_reached ≡ true
      → matches line ≡ true
      → run f (line ∷ rest) ≡ f.processor
  unfolding process_filtered_line process_with_context has
  run-closed f line rest p c hit =
      run-stopped f line rest {f' = record (step f) { stats = update_line_matched (step f).stats }}
        hit (ground arith)

  closed-log :
      (f : Filter Log) (line : Bytes) (s : Stats) (rest : List Bytes)
      → s.line_count ≡ increment f.stats.line_count
      → (missed_state ltx id (step f) line s).processor
          ++ trailing matches ltx
              (missed_state ltx id (step f) line s).after_count
              (missed_state ltx id (step f) line s).stats.line_count
              rest
        ≡ f.processor
          ++ (if ltb 0 f.after_count
              then (line, increment f.stats.line_count)
                ∷ trailing matches ltx (f.after_count - 1) (increment f.stats.line_count) rest
              else trailing matches ltx (f.after_count - 1) (increment f.stats.line_count) rest)
  unfolding update_position
  closed-log f line s rest n = elim (Bool-cases (ltb 0 f.after_count)) [
    | inl printed ↦ rw (printed, n, append_assoc)
    | inr quiet ↦ elim (Bool-cases (is_positive ltx.before_context)) [
      | inl kept ↦
          rw (quiet, kept, n)
            (ap
              (λ (t : ℕ). f.processor ++ trailing matches ltx t (increment f.stats.line_count) rest)
              (ground arith))
      | inr dropped ↦
          rw (quiet, dropped, n)
            (ap
              (λ (t : ℕ). f.processor ++ trailing matches ltx t (increment f.stats.line_count) rest)
              (ground arith))
    ]
  ]

  pub closed_lines :
      (lines : List Bytes) (f : Filter Log)
      → is_positive ltx.max_count ≡ true
      → f.max_reached ≡ true
      → Fits ltx f
      → run f lines ≡ f.processor ++ trailing matches ltx f.after_count f.stats.line_count lines
  unfolding trailing
  closed_lines [] f p c v = unfold read_lines in rw append-nil
  closed_lines (line ∷ rest) f p c v = elim (Bool-cases (matches line)) [
    | inl hit ↦ rw (hit, append-nil) (run-closed f line rest p c hit)
    | inr off ↦
        let (s, e, n) = run-miss f line rest v off in
        let f' = missed_state ltx id (step f) line s in
        let v' = missed-Fits (step f) line s (step-Fits f v) in
        rw off (e ∙ closed_lines rest f' p (ground arith) v' ∙ closed-log f line s rest n)
  ]

  -- How the spec's count of matches stands to the filter's, which runs only under a maximum.
  abbrev pub Counted : Filter Log → ℕ → Type 0
  Counted f k = is_positive ltx.max_count ≡ true → f.max_count ≡ k

  pub hit-last :
      (f : Filter Log) (line : Bytes) (s : Stats) (rest : List Bytes)
      → Fits ltx f
      → matches line ≡ true
      → process_filtered_line logger ltx id (step f) line true
        ≡ count_match logger ltx id (matched_state ltx id (step f) line s)
      → s.line_count ≡ increment f.stats.line_count
      → is_last matches ltx (suc f.max_count) ≡ true
      → run f (line ∷ rest)
        ≡ (matched_state ltx id (step f) line s).processor
          ++ trailing matches ltx (after ltx) (increment f.stats.line_count) rest
  hit-last f line s rest v m e n last =
      let g = matched_state ltx id (step f) line s in
      let c = count_match_lem g v.after_bounded in
      elim (Bool-cases (eq_ℤ ltx.after_context (pos 0))) [
        | inl zero_after ↦
            let z : after ltx ≡ 0 = ground arith in
            rw (z, trailing-zero, append-nil)
              (run-stopped f line rest {f' = record g { max_count = suc g.max_count }} m
                (e ∙ c ∙ rw (last, zero_after)))
        | inr goes_on ↦
            let f' = record g {
              max_count = suc g.max_count;
              max_reached = true;
              after_count = after ltx;
            } in
            run-more f line rest {f' = f'} m (e ∙ c ∙ rw (last, goes_on))
            ∙ closed_lines rest f' (ground arith) refl (record {
              short = omega arith;
              after_bounded = omega arith;
              empty_after = λ _. refl;
            })
            ∙ rw n
      ]
