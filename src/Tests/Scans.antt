-- ===== src/Tests/Scans.antt =====
-- The scanner of a file's lines, with a limit of four bytes.
use dtail.Base.{◌≡◌, pos, refl, true, false, All, List, [], ◌∷◌, ◌++◌, arith, Bytes, codes}
use dtail.Fs.LineContext.{LineContext}
use dtail.Fs.Scan.{scan_pieces}
use dtail.Fs.Scan.Tokens.{concat, IsShort}
use dtail.Fs.Scan.Preserved.{concat-scan_pieces, scan_pieces-IsShort, scan_pieces-too_long}

abbrev pieces : List Bytes
pieces = codes "ab" ∷ (10 ∷ codes "a long line") ∷ []

concat-scan_pieces_example :
    (concat ((scan_pieces 8 4 [] pieces).0) ≡ [] ++ concat pieces)
    × ((scan_pieces 8 4 [] pieces).1 ≡ false)
concat-scan_pieces_example =
    concat-scan_pieces 8 4 [] pieces (omega arith) (omega arith) (omega arith)

scan_pieces-IsShort_example : All (IsShort 4) ((scan_pieces 8 4 [] pieces).0)
scan_pieces-IsShort_example = scan_pieces-IsShort 8 4 [] pieces (omega arith)

scan_pieces-too_long_example : scan_pieces 8 20 [] (codes "too long" ∷ pieces) ≡ ([], true)
scan_pieces-too_long_example =
    scan_pieces-too_long 8 20 (codes "too long") pieces (omega arith) (omega arith) (omega arith)
      refl

abbrev line_context : LineContext
line_context = record { after_context = pos 0; before_context = pos 0; max_count = pos 0 }
