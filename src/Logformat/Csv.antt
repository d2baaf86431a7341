-- ===== src/Logformat/Csv.antt =====
-- internal/mapr/logformat/csv.go: lines of comma-separated values, the first of a source its header.
pub mod Columns
pub mod Sources
use dtail.Base.{
  ℕ, zero, suc, ◌+◌, Bool, true, false, List, [], ◌∷◌, Option, none, some, length, get_elem?, Bytes,
}
use dtail.Base.Maps.{lookup, insert}
use dtail.Logformat.Default.{
  Fields, DefaultParser, scan_delimited_field, add_default_fields, add_dynamic_field,
}

pub record CsvParser : Type 0 where
  pub parser : DefaultParser
  pub headers : List (Bytes × List Bytes)

-- ErrIgnoreFields, the fields, or the fields so far with the error of a line with too many.
pub data Made : Type 0 where
  ignored : Made
  made : Fields → Made
  corrupted : Fields → Made

abbrev pub columns_round :
    (Bytes → Option (List Bytes)) → Bytes × (Bytes × Bool) → Option (List Bytes)
columns_round loop (field, (next, true)) = some (field ∷ [])
columns_round loop (field, (next, false)) = elim (loop next) [
  | none ↦ none
  | some columns ↦ some (field ∷ columns)
]

-- The loop of parseHeaderLine; `none` means that the fuel ran out.
unfoldable pub header_loop : ℕ → Bytes → Option (List Bytes)
header_loop zero input = none
header_loop (suc fuel) input = columns_round (header_loop fuel) (scan_delimited_field input b',')

unfoldable pub parse_header_line : Bytes → Option (List Bytes)
parse_header_line mapr_line = header_loop (suc (length mapr_line)) mapr_line

-- What ensureHeader answers: the parser, the header in effect, and whether this call installed it.
-- Its lock makes it one step.
unfoldable pub ensure_header : CsvParser → Bytes → Bytes → Option (CsvParser × (List Bytes × Bool))
ensure_header p source_id mapr_line = elim (lookup source_id p.headers) [
  | some header ↦ some (p, (header, false))
  | none ↦ elim (parse_header_line mapr_line) [
    | none ↦ none
    | some header ↦ some (record p { headers = insert source_id header p.headers }, (header, true))
  ]
]

-- One round of the loop of MakeFields, on the name of the column and what the scan returns.
abbrev pub value_round :
    (Bytes → Fields → Option Made)
    → DefaultParser
    → Fields
    → Option Bytes
    → Bytes × (Bytes × Bool)
    → Option Made
value_round loop p fields none scanned = some (corrupted fields)
value_round loop p fields (some name) (value, (next, true)) =
    some (made (add_dynamic_field p name value fields))
value_round loop p fields (some name) (value, (next, false)) =
    loop next (add_dynamic_field p name value fields)

unfoldable pub value_loop : ℕ → DefaultParser → List Bytes → ℕ → Bytes → Fields → Option Made
value_loop zero p header column input fields = none
value_loop (suc fuel) p header column input fields =
    value_round (value_loop fuel p header (suc column)) p fields (get_elem? header column)
      (scan_delimited_field input b',')

abbrev pub made_by : Bytes → Option (CsvParser × (List Bytes × Bool)) → Option (CsvParser × Made)
made_by mapr_line none = none
made_by mapr_line (some (p, (header, true))) = some (p, ignored)
made_by mapr_line (some (p, (header, false))) =
    elim (value_loop (suc (length mapr_line)) p.parser header 0 mapr_line
      (add_default_fields p.parser mapr_line [])) [ none ↦ none | some m ↦ some (p, m) ]

-- MakeFields of csvParser
unfoldable pub make_csv_fields : CsvParser → Bytes → Bytes → Option (CsvParser × Made)
make_csv_fields p mapr_line source_id = made_by mapr_line (ensure_header p source_id mapr_line)
