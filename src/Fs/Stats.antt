-- ===== src/Fs/Stats.antt =====
-- internal/io/fs/stats.go: how many of the last 100 lines matched and were transmitted.
-- An int or uint64 is its 64-bit pattern, and an update wraps around. The fixed arrays are lists
-- of length 100. internal/io/journal/filter.go has the same type under the name journalStats.
pub mod Bounds
use dtail.Base.{ℕ, ◌+◌, ◌-◌, ◌%◌, Bool, true, false, List, if◌then◌else◌, get_or, set, replicate}

abbrev pub u64_mod : ℕ
u64_mod = 18446744073709551616

abbrev pub window : ℕ
window = 100

pub record Stats : Type 0 where
  pub pos : ℕ
  pub line_count : ℕ
  pub matched : List Bool
  pub match_count : ℕ
  pub transmitted : List Bool
  pub transmit_count : ℕ

unfoldable pub new_stats : Stats
new_stats = record {
  pos = 0;
  line_count = 0;
  matched = replicate window false;
  match_count = 0;
  transmitted = replicate window false;
  transmit_count = 0;
}

abbrev pub increment : ℕ → ℕ
increment n = (n + 1) % u64_mod

abbrev pub decrement : ℕ → ℕ
decrement n = (n + u64_mod - 1) % u64_mod

abbrev pub total_line_count : Stats → ℕ
total_line_count f = f.line_count

unfoldable pub update_position : Stats → Stats
update_position f = record f { pos = (f.pos + 1) % window; line_count = increment f.line_count }

unfoldable pub update_line_matched : Stats → Stats
update_line_matched f =
    if get_or f.matched f.pos false
    then f
    else record f { match_count = increment f.match_count; matched = set f.matched f.pos true }

unfoldable pub update_line_transmitted : Stats → Stats
update_line_transmitted f = if get_or f.transmitted f.pos false then f else record f {
  transmit_count = increment f.transmit_count;
  transmitted = set f.transmitted f.pos true;
}

unfoldable pub update_line_not_matched : Stats → Stats
update_line_not_matched f =
    if get_or f.matched f.pos false
    then record f { match_count = decrement f.match_count; matched = set f.matched f.pos false }
    else f

unfoldable pub update_line_not_transmitted : Stats → Stats
update_line_not_transmitted f =
    if get_or f.transmitted f.pos false
    then record f {
      transmit_count = decrement f.transmit_count;
      transmitted = set f.transmitted f.pos false;
    }
    else f
