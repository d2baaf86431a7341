-- ===== src/Journal/Mirror.antt =====
-- The journal filter of internal/io/journal/filter.go in the state of the file filter, and one
-- matching line through both.
use dtail.Base.{
  ℕ, suc, ◌%◌, ◌≤◌, ◌≡◌, refl, ap, ◌∙◌, inl, inr, true, false, ◌&&◌, List, [], ◌∷◌, ◌++◌, Option,
  none, some, arith, ltb, leb, Bool-cases, length, length-append, drop, is_positive, Bytes,
}
use dtail.Fs.LineContext.{LineContext, IsInt, before}
use dtail.Fs.Stats.{u64_mod, increment, update_line_matched, update_line_transmitted}
use dtail.Fs.Filter.{
  Outcome, more, stopped, failed, outcome, Processor, Filter, back, and_then, hand_over,
  process_before, remember, count_match, context_hit, process_with_context,
}
use dtail.Fs.Filter.Context.Steps.{numbered, back-increment}
use dtail.Journal.Filter.{
  processor_sink, JournalFilter, remember_before, discard_on_error, emit_line, emit_before,
  count_hit, emit_hit, process_journal_with_context,
}

-- The journal filter in the state that the file filter is in.
abbrev pub mirror : {P : Type 0} → Filter P → JournalFilter P
mirror f = record {
  sink = f.processor;
  stats = f.stats;
  before_lines = numbered (increment f.stats.line_count) f.before_buf;
  after_left = f.after_count;
  max_hit = f.max_count;
  max_closed = f.max_reached;
}

-- The journal filter with another buffer.
abbrev pub mirror_with : {P : Type 0} → List (Bytes × ℕ) → Filter P → JournalFilter P
mirror_with lines f = record (mirror f) { before_lines = lines }

abbrev pub failure : {E : Type 0} → Outcome E → Option E
failure more = none
failure stopped = none
failure (failed x) = some x

length-numbered : (n : ℕ) (bs : List Bytes) → length (numbered n bs) ≡ length bs
length-numbered n [] = refl
length-numbered n (b ∷ bs) = ap suc (length-numbered n bs)

numbered-append :
    (n : ℕ) (bs : List Bytes) (line : Bytes)
    → suc (length bs) ≤ u64_mod
    → numbered (increment n) (bs ++ line ∷ []) ≡ numbered n bs ++ (line, n % u64_mod) ∷ []
numbered-append n [] line h = ground (arith, back-increment n 0 (omega arith))
numbered-append n (b ∷ bs) line h =
    let l : length (bs ++ line ∷ []) ≡ suc (length bs) =
      omega (arith, length-append bs (line ∷ [])) in
    ground (
      arith,
      back-increment n (suc (length bs)) (omega arith),
      ap (λ (t : ℕ). back (increment n) (suc t)) l,
      numbered-append n bs line (omega arith),
    )

drop-numbered : (n : ℕ) (bs : List Bytes) → numbered n (drop 1 bs) ≡ drop 1 (numbered n bs)
drop-numbered n [] = refl
drop-numbered n (b ∷ bs) = refl

length-drop_one : (bs : List Bytes) → length (drop 1 bs) ≤ length bs
length-drop_one [] = omega arith
length-drop_one (b ∷ bs) = omega arith

pub numbered-remember :
    (ltx : LineContext) (n : ℕ) (bs : List Bytes) (line : Bytes)
    → IsInt ltx
    → length bs ≤ before ltx
    → numbered (increment n) (remember ltx bs line)
      ≡ remember_before ltx (numbered n bs) line (n % u64_mod)
unfolding remember remember_before
numbered-remember ltx n bs line i l = elim (Bool-cases (leb (before ltx) (length bs))) [
  | inl full ↦
      rw (length-numbered n bs, full, ← drop-numbered n bs)
        (numbered-append n (drop 1 bs) line (omega (arith, length-drop_one bs)))
  | inr room ↦ rw (length-numbered n bs, room) (numbered-append n bs line (omega arith))
]

pub no_buffer : (bs : List Bytes) → length bs ≤ 0 → bs ≡ []
no_buffer [] h = refl
no_buffer (b ∷ bs) h = absurd (omega arith)

module _ {P E : Type 0} (proc : Processor P E) (ltx : LineContext) (id : Bytes) where
  discard-mirror :
      (e : Outcome E) (f : Filter P)
      → discard_on_error (processor_sink proc) ltx id (mirror_with [] f, e) ≡ (mirror_with [] f, e)
  discard-mirror more f = refl
  discard-mirror stopped f = refl
  discard-mirror (failed x) f = refl

  -- One line of the buffer, `e` being the processor's error.
  emit_one-mirror :
      (e : Option E) (g : Filter P) (old : List (Bytes × ℕ))
      (next : Filter P → Filter P × Outcome E)
      (emit : JournalFilter P → JournalFilter P × Outcome E)
      → emit (mirror_with old g) ≡ (mirror_with [] (next g).0, (next g).1)
      → discard_on_error (processor_sink proc) ltx id (and_then (mirror_with old g, outcome e) emit)
        ≡ (mirror_with [] (and_then (g, outcome e) next).0, (and_then (g, outcome e) next).1)
  emit_one-mirror none g old next emit h =
      ap (discard_on_error (processor_sink proc) ltx id) h ∙ discard-mirror (next g).1 (next g).0
  emit_one-mirror (some x) g old next emit h = refl

  emit_before-mirror :
      (bufs : List Bytes) (f : Filter P) (n : ℕ) (old : List (Bytes × ℕ))
      → emit_before (processor_sink proc) ltx id (mirror_with old f) (numbered n bufs) ≡ (
        mirror_with [] (process_before proc ltx id f bufs n).0,
        (process_before proc ltx id f bufs n).1,
      )
  unfolding emit_before process_before emit_line hand_over processor_sink
  emit_before-mirror [] f n old = refl
  emit_before-mirror (b ∷ bufs) f n old =
      let r = proc.process_line f.processor b (back n (length (b ∷ bufs))) id in
      let g = record f { processor = r.0; stats = update_line_transmitted f.stats } in
      emit_one-mirror r.1 g old (λ f'. process_before proc ltx id f' bufs n)
        (λ f'. emit_before (processor_sink proc) ltx id f' (numbered n bufs))
        (emit_before-mirror bufs g n old)

  count_hit-mirror :
      (f : Filter P)
      → count_hit (processor_sink proc) ltx id (mirror_with [] f)
        ≡ (mirror_with [] (count_match proc ltx id f).0, (count_match proc ltx id f).1)
  unfolding count_hit count_match
  count_hit-mirror f = ground arith

  pub emit_hit-mirror :
      (f : Filter P) (line : Bytes)
      → emit_hit (processor_sink proc) ltx id (mirror_with [] f) line ≡ (
        mirror_with [] (context_hit proc ltx id f line f.stats.line_count).0,
        (context_hit proc ltx id f line f.stats.line_count).1,
      )
  unfolding emit_hit context_hit emit_line hand_over processor_sink
  emit_hit-mirror f line =
      let r = proc.process_line f.processor line f.stats.line_count id in
      after_error r.1 (record f { processor = r.0; stats = update_line_transmitted f.stats })
    where
      after_error :
          (e : Option E) (g : Filter P)
          → and_then (mirror_with [] g, outcome e) (count_hit (processor_sink proc) ltx id) ≡ (
            mirror_with [] (and_then (g, outcome e) (count_match proc ltx id)).0,
            (and_then (g, outcome e) (count_match proc ltx id)).1,
          )
      after_error none g = count_hit-mirror g
      after_error (some x) g = refl

  process_before-keeps :
      (bufs : List Bytes) (f : Filter P) (n : ℕ)
      → (process_before proc ltx id f bufs n).0.stats.line_count ≡ f.stats.line_count
  unfolding process_before hand_over
  process_before-keeps [] f n = refl
  process_before-keeps (b ∷ bufs) f n =
      let r = proc.process_line f.processor b (back n (length (b ∷ bufs))) id in
      let g = record f { processor = r.0; stats = update_line_transmitted f.stats } in
      after_error r.1 g (process_before-keeps bufs g n)
      ∙ (unfold update_line_transmitted in ground arith)
    where
      after_error :
          (e : Option E) (g : Filter P)
          → (process_before proc ltx id g bufs n).0.stats.line_count ≡ g.stats.line_count
          → (and_then
              (g, outcome e)
              (λ f'. process_before proc ltx id f' bufs n)).0.stats.line_count
            ≡ g.stats.line_count
      after_error none g h = h
      after_error (some x) g h = refl

  after_before :
      (e : Outcome E) (g : Filter P) (n : ℕ) (line : Bytes)
      → g.stats.line_count ≡ n
      → and_then (mirror_with [] g, e) (λ f'. emit_hit (processor_sink proc) ltx id f' line) ≡ (
        mirror_with []
            (and_then
              (g, e)
              (λ f'. context_hit proc ltx id (record f' { before_buf = [] }) line n)).0,
        (and_then (g, e) (λ f'. context_hit proc ltx id (record f' { before_buf = [] }) line n)).1,
      )
  after_before more g n line k = rw (← k) (emit_hit-mirror (record g { before_buf = [] }) line)
  after_before stopped g n line k = refl
  after_before (failed x) g n line k = refl

  -- The file filter at a matching line, with a buffer or without.
  pub file_hit :
      (f : Filter P) (line : Bytes) (n : ℕ)
      → length f.before_buf ≤ before ltx
      → f.max_reached ≡ false
      → process_with_context proc ltx id f line n true
        ≡ and_then
            (process_before proc ltx id
              (record f { stats = update_line_matched f.stats })
              f.before_buf
              n)
            (λ f'. context_hit proc ltx id (record f' { before_buf = [] }) line n)
  file_hit f line n l open_ =
      elim (Bool-cases (is_positive ltx.before_context && ltb 0 (length f.before_buf))) [
        | inl full ↦ unfold process_with_context in rw (full, open_)
        | inr quiet ↦
            let e : f.before_buf ≡ [] = ground (arith, no_buffer f.before_buf) in
            unfold process_with_context process_before in rw (quiet, open_, e)
      ]

  pub journal_hit :
      (f : Filter P) (line : Bytes) (old : List (Bytes × ℕ))
      → old ≡ numbered f.stats.line_count f.before_buf
      → length f.before_buf ≤ before ltx
      → f.max_reached ≡ false
      → process_journal_with_context (processor_sink proc) ltx id (mirror_with old f) line true ≡ (
        mirror_with [] (process_with_context proc ltx id f line f.stats.line_count true).0,
        (process_with_context proc ltx id f line f.stats.line_count true).1,
      )
  journal_hit f line old o l open_ =
      let n = f.stats.line_count in
      let hit = record f { stats = update_line_matched f.stats } in
      let r = process_before proc ltx id hit f.before_buf n in
      let emitted : emit_before (processor_sink proc) ltx id (mirror_with old hit) old
          ≡ (mirror_with [] r.0, r.1) =
        rw o (emit_before-mirror f.before_buf hit n (numbered n f.before_buf)) in
      let kept : r.0.stats.line_count ≡ n =
        process_before-keeps f.before_buf hit n ∙ (unfold update_line_matched in ground arith) in
      rw (file_hit f line n l open_) (
        unfold process_journal_with_context in
        rw emitted (rw (after_before r.1 r.0 n line kept) (rw open_)))
