-- ===== src/Fs/LineContext.antt =====
-- internal/lcontext/lcontext.go: the line context that a grep-like query asks for. The three
-- numbers are Go ints, so a client may send negative ones.
use dtail.Base.{ℕ, ◌≤◌, Bool, true, if◌then◌else◌, ℤ, pos_part, is_positive}

pub record LineContext : Type 0 where
  pub after_context : ℤ
  pub before_context : ℤ
  pub max_count : ℤ

unfoldable pub has : LineContext → Bool
has c =
    if is_positive c.after_context
    then true
    else if is_positive c.before_context
    then true
    else is_positive c.max_count

-- How many lines before a match are wanted, and how many after it.
abbrev pub before : LineContext → ℕ
before c = pos_part c.before_context

abbrev pub after : LineContext → ℕ
after c = pos_part c.after_context

-- The before context fits an int.
abbrev pub IsInt : LineContext → Type 0
IsInt c = before c ≤ 9223372036854775807
