-- ===== src/Fs/Filter.antt =====
-- internal/io/fs/readfile_processor.go: the filter between a reader and a line processor, with
-- the local context of a grep (lines before and after a match, a maximal number of matches).
-- The processor is a parameter: its state `P`, and what ProcessLine does to it, `none` for a nil
-- error. So is the regular expression, by its Match. Buffers are values, so that the recycling of
-- buffers, which the filter leaves to the processor, does not show.
pub mod Context
pub mod Bounds
use dtail.Base.{
  ◌≡◌, ◌≢◌, refl, ℕ, suc, ◌+◌, ◌-◌, ◌%◌, Bool, true, false, ◌&&◌, List, [], ◌∷◌, ◌++◌, Option, none,
  some, ltb, leb, ◌==◌, if◌then◌else◌, length, drop, pos, pos_part, eq_ℤ, is_positive, Bytes,
}
use dtail.Fs.LineContext.{LineContext, has}
use dtail.Fs.Stats.{
  Stats, new_stats, u64_mod, total_line_count, update_position, update_line_matched,
  update_line_transmitted, update_line_not_matched, update_line_not_transmitted,
}

-- What a call of the filter returns: nil, io.EOF, or the processor's error.
pub data Outcome (E : Type 0) : Type 0 where
  more : Outcome E
  stopped : Outcome E
  failed : E → Outcome E

pub record Processor (P E : Type 0) : Type 0 where
  pub process_line : P → Bytes → ℕ → Bytes → P × Option E

pub record Filter (P : Type 0) : Type 0 where
  pub processor : P
  pub stats : Stats
  pub before_buf : List Bytes
  pub after_count : ℕ
  pub max_count : ℕ
  pub max_reached : Bool

unfoldable pub new_filter : {P : Type 0} → P → Filter P
new_filter p = record {
  processor = p;
  stats = new_stats;
  before_buf = [];
  after_count = 0;
  max_count = 0;
  max_reached = false;
}

abbrev pub outcome : {E : Type 0} → Option E → Outcome E
outcome none = more
outcome (some e) = failed e

-- The number of the line that stands `k` lines before line `n`, in uint64.
abbrev pub back : ℕ → ℕ → ℕ
back n k = (n + u64_mod - k) % u64_mod

-- The before buffer holds the last lines only.
unfoldable pub remember : LineContext → List Bytes → Bytes → List Bytes
remember ltx bufs line =
    (if leb (pos_part ltx.before_context) (length bufs) then drop 1 bufs else bufs) ++ line ∷ []

-- What follows a call is done only if the call returned nil.
abbrev pub and_then : {S E : Type 0} → S × Outcome E → (S → S × Outcome E) → S × Outcome E
and_then (f, more) next = next f
and_then (f, stopped) next = (f, stopped)
and_then (f, failed x) next = (f, failed x)

pub and_then-more :
    {S E : Type 0} (r : S × Outcome E) (next : S → S × Outcome E)
    → r.1 ≡ more
    → and_then r next ≡ next r.0
and_then-more (f, more) next h = refl
and_then-more (f, stopped) next h = cc
and_then-more (f, failed x) next h = cc

pub and_then-ended :
    {S E : Type 0} (r : S × Outcome E) (next : S → S × Outcome E) → r.1 ≢ more → and_then r next ≡ r
and_then-ended (f, more) next h = absurd (h refl)
and_then-ended (f, stopped) next h = refl
and_then-ended (f, failed x) next h = refl

module _ {P E : Type 0} (proc : Processor P E) (ltx : LineContext) (glob_id : Bytes) where
  -- A call of the processor, the line's number given.
  unfoldable pub hand_over : Filter P → Bytes → ℕ → Filter P × Outcome E
  hand_over f line n =
      let (p, e) = proc.process_line f.processor line n glob_id in
      (record f { processor = p }, outcome e)

  -- The loop over the buffered lines before the matched line `n`.
  unfoldable pub process_before : Filter P → List Bytes → ℕ → Filter P × Outcome E
  process_before f [] n = (f, more)
  process_before f (buf ∷ bufs) n =
      and_then
        (hand_over (record f { stats = update_line_transmitted f.stats }) buf
          (back n (length (buf ∷ bufs))))
        (λ f'. process_before f' bufs n)

  unfoldable pub context_miss : Filter P → Bytes → ℕ → Filter P × Outcome E
  context_miss f line n =
      let missed = record f { stats = update_line_not_matched f.stats } in
      let dropped = record missed { stats = update_line_not_transmitted missed.stats } in
      if is_positive ltx.after_context && ltb 0 f.after_count
      then hand_over
          (record missed {
            after_count = f.after_count - 1;
            stats = update_line_transmitted missed.stats;
          })
          line n
      else if is_positive ltx.before_context
      then (record dropped { before_buf = remember ltx f.before_buf line }, more)
      else (dropped, more)

  -- After the matched line has been handed over.
  unfoldable pub count_match : Filter P → Filter P × Outcome E
  count_match f =
      let hit = record f { max_count = f.max_count + 1 } in
      let reset = λ (g : Filter P).
        if is_positive ltx.after_context
        then record g { after_count = pos_part ltx.after_context }
        else g in
      if is_positive ltx.max_count
      then (if leb (pos_part ltx.max_count) hit.max_count
          then (if eq_ℤ ltx.after_context (pos 0)
              then (hit, stopped)
              else (reset (record hit { max_reached = true }), more))
          else (reset hit, more))
      else (reset f, more)

  -- The matched line itself, behind the lines before it.
  unfoldable pub context_hit : Filter P → Bytes → ℕ → Filter P × Outcome E
  context_hit f line n =
      and_then (hand_over (record f { stats = update_line_transmitted f.stats }) line n) count_match

  unfoldable pub process_with_context : Filter P → Bytes → ℕ → Bool → Filter P × Outcome E
  process_with_context f line n false = context_miss f line n
  process_with_context f line n true =
      let hit = record f { stats = update_line_matched f.stats } in
      if f.max_reached
      then (hit, stopped)
      else if is_positive ltx.before_context && ltb 0 (length f.before_buf)
      then and_then (process_before hit f.before_buf n)
          (λ f'. context_hit (record f' { before_buf = [] }) line n)
      else context_hit hit line n

  -- Without local context: the regular expression decides alone. The zero-copy path of the
  -- optimised reader, which matches before it copies the line.
  unfoldable pub process_filtered_raw : Filter P → Bytes → Bool → Filter P × Outcome E
  process_filtered_raw f raw false =
      let missed = record f { stats = update_line_not_matched f.stats } in
      (record missed { stats = update_line_not_transmitted missed.stats }, more)
  process_filtered_raw f raw true =
      let hit = record f { stats = update_line_matched f.stats } in
      hand_over (record hit { stats = update_line_transmitted hit.stats }) raw
        (total_line_count f.stats)

  -- The flag is `fp.re.Match(rawLine)`.
  unfoldable pub process_filtered_line : Filter P → Bytes → Bool → Filter P × Outcome E
  process_filtered_line f line matched =
      if has ltx
      then process_with_context f line (total_line_count f.stats) matched
      else process_filtered_raw f line matched

  -- The reader's loop over complete lines: an error, io.EOF included, ends it.
  unfoldable pub read_lines : (Bytes → Bool) → Filter P → List Bytes → Filter P × Outcome E
  read_lines matches f [] = (f, more)
  read_lines matches f (line ∷ rest) =
      and_then
        (process_filtered_line (record f { stats = update_position f.stats }) line (matches line))
        (λ f'. read_lines matches f' rest)
