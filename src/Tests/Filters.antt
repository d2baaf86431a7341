-- ===== src/Tests/Filters.antt =====
-- internal/io/fs/readfile_processor.go and internal/io/journal/filter.go on a few lines.
use dtail.Base.{
  ◌≡◌, refl, Bool, true, false, List, [], ◌∷◌, none, some, arith, ltb, length, Bytes, codes,
  has_prefix, pos,
}
use dtail.Fs.LineContext.{LineContext}
use dtail.Fs.Filter.{Processor, new_filter, read_lines}
use dtail.Fs.Filter.Bounds.{Shape, new_filter-read_lines-Shape}
use dtail.Fs.Filter.Context.Steps.{Log, logger}
use dtail.Fs.Filter.Context.Selection.{grep_lines}
use dtail.Fs.Filter.Context.Open.{read_lines-grep_lines}
use dtail.Journal.Filter.{processor_sink, new_journal_filter, read_journal}
use dtail.Journal.Mirror.{failure}
use dtail.Journal.Agreement.{read_lines-read_journal}

-- One line before and after a match, and two matches at most.
abbrev ltx : LineContext
ltx = record { after_context = pos 1; before_context = pos 1; max_count = pos 2 }

abbrev hits : Bytes → Bool
hits line = has_prefix line (codes "hit")

abbrev input : List Bytes
input =
    codes "a"
    ∷ codes "b"
    ∷ codes "hit1"
    ∷ codes "c"
    ∷ codes "d"
    ∷ codes "e"
    ∷ codes "hit2"
    ∷ codes "f"
    ∷ codes "hit3"
    ∷ codes "g"
    ∷ []

grep_lines-input :
    grep_lines hits ltx 0 0 0 input
    ≡ (codes "b", 2)
      ∷ (codes "hit1", 3)
      ∷ (codes "c", 4)
      ∷ (codes "e", 6)
      ∷ (codes "hit2", 7)
      ∷ (codes "f", 8)
      ∷ []
unfolding grep_lines has_prefix
grep_lines-input = refl

-- A processor that fails on its third line.
abbrev failing : Processor Log Bytes
failing = record {
  process_line =
      λ p line n id. ((line, n) ∷ p, elim (ltb (length p) 2) [ true ↦ none | false ↦ some line ]);
}

read_lines-grep_lines_example :
    (read_lines logger ltx (codes "id") hits (new_filter []) input).0.processor
    ≡ grep_lines hits ltx 0 0 0 input
read_lines-grep_lines_example = read_lines-grep_lines ltx (codes "id") hits input (omega arith)

read_lines-read_journal_example :
    let r = read_lines failing ltx (codes "id") hits (new_filter []) input in
    let j =
      read_journal (processor_sink failing) ltx (codes "id") hits (new_journal_filter []) input in
    (j.0.sink ≡ r.0.processor) × (failure j.1 ≡ failure r.1)
read_lines-read_journal_example =
    read_lines-read_journal failing ltx (codes "id") hits [] input (omega arith)

new_filter-read_lines-Shape_example :
    Shape ltx (read_lines failing ltx (codes "id") hits (new_filter []) input).0
new_filter-read_lines-Shape_example =
    new_filter-read_lines-Shape failing ltx (codes "id") hits [] input
