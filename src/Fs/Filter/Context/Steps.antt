-- ===== src/Fs/Filter/Context/Steps.antt =====
-- One line through the filter, for a processor that logs what it is handed and never fails.
use dtail.Base.{
  ℕ, suc, ◌-◌, ◌≤◌, ◌<◌, ◌≡◌, refl, ◌∙◌, inl, inr, true, false, ◌&&◌, List, [], ◌∷◌, ◌++◌,
  append-nil, append_assoc, none, arith, ltb, if◌then◌else◌, Bool-cases, length, is_positive, Bytes,
}
use dtail.Fs.LineContext.{LineContext, has, before, after}
use dtail.Fs.Stats.{
  Stats, u64_mod, increment, update_line_matched, update_line_transmitted, update_line_not_matched,
  update_line_not_transmitted,
}
use dtail.Fs.Filter.{
  more, Processor, Filter, back, hand_over, process_before, remember, context_miss, count_match,
  context_hit, process_with_context, process_filtered_raw, process_filtered_line,
}

abbrev pub Log : Type 0
Log = List (Bytes × ℕ)

-- A processor that writes down each line with its number.
abbrev pub logger : Processor Log (Unit {0})
logger = record { process_line = λ p line n id. (p ++ (line, n) ∷ [], none) }

-- Seen from the next line, a line stands one further back.
pub back-increment : (c k : ℕ) → suc k ≤ u64_mod → back (increment c) (suc k) ≡ back c k
back-increment c k h = omega arith

-- The lines of a before buffer with the numbers that they get in front of line `n`.
abbrev pub numbered : ℕ → List Bytes → Log
numbered n [] = []
numbered n (b ∷ bs) = (b, back n (length (b ∷ bs))) ∷ numbered n bs

pub record Fits (ltx : LineContext) (f : Filter Log) : Type 0 where
  pub short : length f.before_buf ≤ before ltx
  pub after_bounded : f.after_count ≤ after ltx
  pub empty_after : 0 < f.after_count → f.before_buf ≡ []

module _ (f : Stats) where
  line_count-matched : (update_line_matched f).line_count ≡ f.line_count
  unfolding update_line_matched
  line_count-matched = ground arith

  line_count-transmitted : (update_line_transmitted f).line_count ≡ f.line_count
  unfolding update_line_transmitted
  line_count-transmitted = ground arith

  line_count-not_matched : (update_line_not_matched f).line_count ≡ f.line_count
  unfolding update_line_not_matched
  line_count-not_matched = ground arith

  line_count-not_transmitted : (update_line_not_transmitted f).line_count ≡ f.line_count
  unfolding update_line_not_transmitted
  line_count-not_transmitted = ground arith

pub length-eq-zero {ℓ} : {A : Type ℓ} (xs : List A) → length xs ≤ 0 → xs ≡ []
length-eq-zero [] h = refl
length-eq-zero (x ∷ xs) h = absurd (omega arith)

module _ (ltx : LineContext) (id : Bytes) where
  process_before_log :
      (bufs : List Bytes) (f : Filter Log) (n : ℕ)
      → (s : Stats) × (process_before logger ltx id f bufs n
          ≡ (record f { processor = f.processor ++ numbered n bufs; stats = s }, more))
        × (s.line_count ≡ f.stats.line_count)
  unfolding process_before hand_over
  process_before_log [] f n = (f.stats, rw append-nil, refl)
  process_before_log (b ∷ bs) f n =
      let f' = record f {
        processor = f.processor ++ (b, back n (length (b ∷ bs))) ∷ [];
        stats = update_line_transmitted f.stats;
      } in
      let (s, e, c) = process_before_log bs f' n in
      (s, rw e (rw append_assoc), c ∙ line_count-transmitted f.stats)

  context_hit_log :
      (f : Filter Log) (line : Bytes) (n : ℕ)
      → context_hit logger ltx id f line n
        ≡ count_match logger ltx id (record f {
          processor = f.processor ++ (line, n) ∷ [];
          stats = update_line_transmitted f.stats;
        })
  unfolding context_hit hand_over
  context_hit_log f line n = refl

  -- The filter behind a matching line, before the match is counted.
  abbrev pub matched_state : Filter Log → Bytes → Stats → Filter Log
  matched_state f line s = record f {
    processor =
        f.processor
        ++ (numbered f.stats.line_count f.before_buf ++ (line, f.stats.line_count) ∷ []);
    before_buf = [];
    stats = s;
  }

  context_line_hit :
      (f : Filter Log) (line : Bytes)
      → Fits ltx f
      → f.max_reached ≡ false
      → (s : Stats) × (process_with_context logger ltx id f line f.stats.line_count true
          ≡ count_match logger ltx id (matched_state f line s))
        × (s.line_count ≡ f.stats.line_count)
  unfolding process_with_context
  context_line_hit f line v open_ =
      elim (Bool-cases (is_positive ltx.before_context && ltb 0 (length f.before_buf))) [
        | inl full ↦
            let (s, e, c) =
              process_before_log f.before_buf (record f { stats = update_line_matched f.stats })
                f.stats.line_count in
            (
              update_line_transmitted s,
              rw (full, e) (rw context_hit_log (rw (append_assoc, open_))),
              line_count-transmitted s ∙ c ∙ line_count-matched f.stats,
            )
        | inr none_ ↦
            let e : f.before_buf ≡ [] = ground (arith, length-eq-zero f.before_buf, v.short) in
            (
              update_line_transmitted (update_line_matched f.stats),
              rw none_ (rw context_hit_log (rw (e, open_))),
              line_count-transmitted (update_line_matched f.stats) ∙ line_count-matched f.stats,
            )
      ]

  -- The filter behind a matching line, with local context or without.
  pub line_hit :
      (f : Filter Log) (line : Bytes)
      → Fits ltx f
      → f.max_reached ≡ false
      → (s : Stats) × (process_filtered_line logger ltx id f line true
          ≡ count_match logger ltx id (matched_state f line s))
        × (s.line_count ≡ f.stats.line_count)
  unfolding process_filtered_line
  line_hit f line v open_ = elim (Bool-cases (has ltx)) [
    | inl context ↦ rw context (context_line_hit f line v open_)
    | inr plain ↦
        let e : f.before_buf ≡ [] =
          unfold has in ground (arith, length-eq-zero f.before_buf, v.short) in
        (
          update_line_transmitted (update_line_matched f.stats),
          rw (plain, e) (unfold process_filtered_raw hand_over count_match has in ground arith),
          line_count-transmitted (update_line_matched f.stats) ∙ line_count-matched f.stats,
        )
  ]

  -- The filter behind a line that does not match.
  abbrev pub missed_state : Filter Log → Bytes → Stats → Filter Log
  missed_state f line s =
      if ltb 0 f.after_count
      then record f {
        processor = f.processor ++ (line, f.stats.line_count) ∷ [];
        after_count = f.after_count - 1;
        stats = s;
      }
      else if is_positive ltx.before_context
      then record f { before_buf = remember ltx f.before_buf line; stats = s }
      else record f { stats = s }

  pub line_miss :
      (f : Filter Log) (line : Bytes)
      → Fits ltx f
      → (s : Stats) × (process_filtered_line logger ltx id f line false
          ≡ (missed_state f line s, more))
        × (s.line_count ≡ f.stats.line_count)
  unfolding process_filtered_line
  line_miss f line v =
      let m = update_line_not_matched f.stats in
      elim (Bool-cases (ltb 0 f.after_count)) [
        | inl printed ↦ (
          update_line_transmitted m,
          unfold process_with_context context_miss hand_over has in ground (arith, v.after_bounded),
          line_count-transmitted m ∙ line_count-not_matched f.stats,
        )
        | inr quiet ↦ (
          update_line_not_transmitted m,
          unfold process_with_context context_miss process_filtered_raw hand_over has in
              ground (arith, v.after_bounded),
          line_count-not_transmitted m ∙ line_count-not_matched f.stats,
        )
      ]
