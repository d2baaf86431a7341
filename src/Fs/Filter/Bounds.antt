-- ===== src/Fs/Filter/Bounds.antt =====
-- What every call of the filter of internal/io/fs/readfile_processor.go keeps, whatever the
-- processor does: the before buffer is bounded, and the statistics stay exact.
use dtail.Base.{
  ℕ, ◌≤◌, ◌<◌, ◌≡◌, refl, inl, inr, Bool, true, false, ◌&&◌, List, [], ◌∷◌, arith, ltb, Bool-cases,
  length, length-append, is_positive, Bytes,
}
use mathlib.Core.Bool.{false≢true}
use dtail.Fs.LineContext.{LineContext, has, before, after}
use dtail.Fs.Stats.{Stats, update_line_transmitted, update_line_matched, update_position}
use dtail.Fs.Stats.Bounds.{
  IsValid, update_position-IsValid, update_line_matched-IsValid, update_line_transmitted-IsValid,
  update_line_not_matched-IsValid, update_line_not_transmitted-IsValid, new_stats-IsValid,
}
use dtail.Fs.Filter.{
  Outcome, more, stopped, failed, Processor, Filter, new_filter, back, hand_over, process_before,
  remember, context_miss, count_match, context_hit, process_with_context, process_filtered_raw,
  process_filtered_line, read_lines, and_then,
}

-- The buffer holds no more than the before context, and nothing while after context is left.
-- Only a maximum closes the filter.
pub record Shape {P : Type 0} (ltx : LineContext) (f : Filter P) : Type 0 where
  pub short : length f.before_buf ≤ before ltx
  pub after_bounded : f.after_count ≤ after ltx
  pub empty_after : 0 < f.after_count → f.before_buf ≡ []
  pub closed_by_max : f.max_reached ≡ true → is_positive ltx.max_count ≡ true
  pub stats_valid : IsValid f.stats

pub length-remember :
    (ltx : LineContext) (bs : List Bytes) (line : Bytes)
    → length bs ≤ before ltx
    → 0 < before ltx
    → length (remember ltx bs line) ≤ before ltx
unfolding remember
length-remember ltx [] line l p = ground arith
length-remember ltx (b ∷ bs) line l p =
    ground (arith, length-append bs (line ∷ []), length-append (b ∷ bs) (line ∷ []))

and_then-Shape :
    {P E : Type 0} (ltx : LineContext) (r : Filter P × Outcome E)
    (next : Filter P → Filter P × Outcome E)
    → Shape ltx r.0
    → Shape ltx (next r.0).0
    → Shape ltx (and_then r next).0
and_then-Shape ltx (f, more) next v w = w
and_then-Shape ltx (f, stopped) next v w = v
and_then-Shape ltx (f, failed x) next v w = v

no_buffer : (bs : List Bytes) → length bs ≤ 0 → bs ≡ []
no_buffer [] h = refl
no_buffer (b ∷ bs) h = absurd (omega arith)

module _ {P E : Type 0} (proc : Processor P E) (ltx : LineContext) (id : Bytes) where
  hand_over-Shape :
      (f : Filter P) (line : Bytes) (n : ℕ)
      → Shape ltx f
      → Shape ltx
          (hand_over proc ltx id (record f { stats = update_line_transmitted f.stats }) line n).0
  unfolding hand_over
  hand_over-Shape f line n v = record {
    short = v.short;
    after_bounded = v.after_bounded;
    empty_after = v.empty_after;
    closed_by_max = v.closed_by_max;
    stats_valid = update_line_transmitted-IsValid v.stats_valid;
  }

  process_before-Shape :
      (bufs : List Bytes) (f : Filter P) (n : ℕ)
      → Shape ltx f
      → Shape ltx (process_before proc ltx id f bufs n).0
  unfolding process_before
  process_before-Shape [] f n v = v
  process_before-Shape (b ∷ bufs) f n v =
      let w = hand_over-Shape f b (back n (length (b ∷ bufs))) v in
      and_then-Shape ltx
        (hand_over proc ltx id (record f { stats = update_line_transmitted f.stats }) b
          (back n (length (b ∷ bufs))))
        (λ f'. process_before proc ltx id f' bufs n) w (process_before-Shape bufs _ n w)

  count_match-Shape :
      (f : Filter P) → Shape ltx f → f.before_buf ≡ [] → Shape ltx (count_match proc ltx id f).0
  unfolding count_match
  count_match-Shape f v e = ground (arith, v.short, v.after_bounded)

  context_hit-Shape :
      (f : Filter P) (line : Bytes) (n : ℕ)
      → Shape ltx f
      → f.before_buf ≡ []
      → Shape ltx (context_hit proc ltx id f line n).0
  unfolding context_hit
  context_hit-Shape f line n v e =
      let w = hand_over-Shape f line n v in
      and_then-Shape ltx
        (hand_over proc ltx id (record f { stats = update_line_transmitted f.stats }) line n)
        (count_match proc ltx id) w (count_match-Shape _ w (unfold hand_over in e))

  context_miss-Shape :
      (f : Filter P) (line : Bytes) (n : ℕ)
      → Shape ltx f
      → Shape ltx (context_miss proc ltx id f line n).0
  unfolding context_miss hand_over
  context_miss-Shape f line n v = ground (
    arith,
    length-remember ltx f.before_buf line,
    update_line_not_transmitted-IsValid (update_line_not_matched-IsValid v.stats_valid),
    update_line_transmitted-IsValid (update_line_not_matched-IsValid v.stats_valid),
    v.short,
  )

  pub with_stats :
      (f : Filter P) {s : Stats} → Shape ltx f → IsValid s → Shape ltx (record f { stats = s })
  with_stats f v s = record {
    short = v.short;
    after_bounded = v.after_bounded;
    empty_after = v.empty_after;
    closed_by_max = v.closed_by_max;
    stats_valid = s;
  }

  emptied : (f : Filter P) → Shape ltx f → Shape ltx (record f { before_buf = [] })
  emptied f v = record {
    short = omega arith;
    after_bounded = v.after_bounded;
    empty_after = λ _. refl;
    closed_by_max = v.closed_by_max;
    stats_valid = v.stats_valid;
  }

  process_with_context-Shape :
      (f : Filter P) (line : Bytes) (n : ℕ) (matched : Bool)
      → Shape ltx f
      → Shape ltx (process_with_context proc ltx id f line n matched).0
  unfolding process_with_context
  process_with_context-Shape f line n false v = context_miss-Shape f line n v
  process_with_context-Shape f line n true v =
      let hit = record f { stats = update_line_matched f.stats } in
      let w = with_stats f v (update_line_matched-IsValid v.stats_valid) in
      elim (Bool-cases f.max_reached) [
        | inl closed ↦ rw closed (rw closed at w)
        | inr on ↦
            elim (Bool-cases (is_positive ltx.before_context && ltb 0 (length f.before_buf))) [
              | inl full ↦
                  let b = process_before-Shape f.before_buf hit n w in
                  let next = λ (g : Filter P).
                    context_hit proc ltx id (record g { before_buf = [] }) line n in
                  rw full (
                    rw on (
                      rw on at (
                        and_then-Shape ltx (process_before proc ltx id hit f.before_buf n) next b
                          (context_hit-Shape _ line n (emptied _ b) refl))))
              | inr quiet ↦
                  rw (quiet, on)
                    (rw on at (
                      context_hit-Shape hit line n w
                        (ground (arith, no_buffer f.before_buf, v.short))))
            ]
      ]

  raw-Shape :
      (f : Filter P) (line : Bytes) (matched : Bool)
      → Shape ltx f
      → Shape ltx (process_filtered_raw proc ltx id f line matched).0
  unfolding process_filtered_raw
  raw-Shape f line true v =
      let w = with_stats f v (update_line_matched-IsValid v.stats_valid) in
      hand_over-Shape (record f { stats = update_line_matched f.stats }) line f.stats.line_count w
  raw-Shape f line false v =
      let m = update_line_not_matched-IsValid v.stats_valid in
      with_stats f v (update_line_not_transmitted-IsValid m)

  -- A call of the filter keeps the before buffer within the before context, the after context
  -- within its bound, and the statistics exact, whatever the processor and the flag.
  pub process_filtered_line-Shape :
      (f : Filter P) (line : Bytes) (matched : Bool)
      → Shape ltx f
      → Shape ltx (process_filtered_line proc ltx id f line matched).0
  process_filtered_line-Shape f line matched v = elim (Bool-cases (has ltx)) [
    | inl context ↦
        unfold process_filtered_line in
        rw context (process_with_context-Shape f line f.stats.line_count matched v)
    | inr plain ↦ unfold process_filtered_line in rw plain (raw-Shape f line matched v)
  ]

  -- So does the reader's loop, from any state that satisfies the bounds.
  pub read_lines-Shape :
      (matches : Bytes → Bool) (lines : List Bytes) (f : Filter P)
      → Shape ltx f
      → Shape ltx (read_lines proc ltx id matches f lines).0
  unfolding read_lines
  read_lines-Shape matches [] f v = v
  read_lines-Shape matches (line ∷ rest) f v =
      let w =
        process_filtered_line-Shape (record f { stats = update_position f.stats }) line
          (matches line) (with_stats f v (update_position-IsValid v.stats_valid)) in
      and_then-Shape ltx
        (process_filtered_line proc ltx id (record f { stats = update_position f.stats }) line
          (matches line))
        (λ f'. read_lines proc ltx id matches f' rest) w (read_lines-Shape matches rest _ w)

pub new_filter-Shape : {P : Type 0} (ltx : LineContext) (p : P) → Shape ltx (new_filter p)
unfolding new_filter
new_filter-Shape ltx p = record {
  short = omega arith;
  after_bounded = omega arith;
  empty_after = λ _. refl;
  closed_by_max = λ h. absurd (false≢true h);
  stats_valid = new_stats-IsValid;
}

-- After any number of lines, whatever the processor and the regular expression did, the before
-- buffer holds at most the before context, no more after context is left than was asked for, the
-- filter is closed only by a maximum, and the statistics count their windows exactly.
pub new_filter-read_lines-Shape :
    {P E : Type 0} (proc : Processor P E) (ltx : LineContext) (id : Bytes) (matches : Bytes → Bool)
    (p : P) (lines : List Bytes)
    → Shape ltx (read_lines proc ltx id matches (new_filter p) lines).0
new_filter-read_lines-Shape proc ltx id matches p lines =
    read_lines-Shape proc ltx id matches lines (new_filter p) (new_filter-Shape ltx p)
