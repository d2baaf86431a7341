-- ===== src/Logformat/Csv/Columns.antt =====
-- internal/mapr/logformat/csv.go: each value under the name of its column.
use dtail.Base.{
  ℕ, zero, suc, ◌<◌, ◌≡◌, refl, sym, ap, ◌∙◌, inl, inr, true, false, List, [], ◌∷◌, none, some,
  arith, length, get_elem?, drop, Bytes, cut_byte, split, Option-cases,
}
use dtail.Base.Maps.{lookup, insert}
use dtail.Logformat.Scan.{scan-last, scan-more, split-last, split-more, shorter}
use dtail.Logformat.Default.{Fields, DefaultParser, add_default_fields, add_dynamic_field}
use dtail.Logformat.Csv.{
  CsvParser, Made, ignored, made, corrupted, header_loop, parse_header_line, ensure_header,
  value_loop, made_by, make_csv_fields,
}

-- The values under the names, until there is no value left; too many values are an error.
unfoldable pub under_names : DefaultParser → List Bytes → List Bytes → Fields → Made
under_names p names [] fields = made fields
under_names p [] (value ∷ values) fields = corrupted fields
under_names p (name ∷ names) (value ∷ values) fields =
    under_names p names values (add_dynamic_field p name value fields)

header_loop-split :
    (fuel : ℕ) (input : Bytes)
    → length input < fuel
    → header_loop fuel input ≡ some (split input b',')
unfolding header_loop
header_loop-split zero input h = ground (arith, h)
header_loop-split (suc fuel) input h = elim (Option-cases (cut_byte b',' input)) [
  | inl last ↦ rw (scan-last b',' input last) (ap some (sym (split-last b',' input last)))
  | inr ((field, rest), found) ↦ rw (scan-more b',' input field rest found) (
      rw (header_loop-split fuel rest (shorter b',' input field rest fuel found h))
        (ap some (sym (split-more b',' input field rest found))))
]

-- The name of a column is the first of the names that are left.
no_name : (names : List Bytes) (i : ℕ) → get_elem? names i ≡ none → drop i names ≡ []
no_name [] zero h = refl
no_name [] (suc i) h = refl
no_name (n ∷ names) zero h = cc
no_name (n ∷ names) (suc i) h = no_name names i h

first_name :
    (names : List Bytes) (i : ℕ) (name : Bytes)
    → get_elem? names i ≡ some name
    → drop i names ≡ name ∷ drop (suc i) names
first_name [] zero name h = cc
first_name [] (suc i) name h = cc
first_name (n ∷ names) zero name h = ground (arith, h)
first_name (n ∷ names) (suc i) name h = first_name names i name h

too_many :
    (p : DefaultParser) (input : Bytes) (fields : Fields)
    → under_names p [] (split input b',') fields ≡ corrupted fields
unfolding under_names
too_many p input fields = elim (Option-cases (cut_byte b',' input)) [
  | inl last ↦ ap (λ values. under_names p [] values fields) (split-last b',' input last)
  | inr ((value, rest), found) ↦
      ap (λ values. under_names p [] values fields) (split-more b',' input value rest found)
]

-- A named value, and what is under the names behind it.
one_more :
    (p : DefaultParser) (header : List Bytes) (i : ℕ) (name value : Bytes) (values : List Bytes)
    (input : Bytes) (fields : Fields)
    → get_elem? header i ≡ some name
    → split input b',' ≡ value ∷ values
    → under_names p (drop i header) (split input b',') fields
      ≡ under_names p (drop (suc i) header) values (add_dynamic_field p name value fields)
unfolding under_names
one_more p header i name value values input fields e s =
    ap (λ names. under_names p names (split input b',') fields) (first_name header i name e)
    ∙ ap (λ vs. under_names p (name ∷ drop (suc i) header) vs fields) s

no_more :
    (p : DefaultParser) (names : List Bytes) (fields : Fields)
    → under_names p names [] fields ≡ made fields
unfolding under_names
no_more p [] fields = refl
no_more p (n ∷ names) fields = refl

value_loop-under_names :
    (fuel : ℕ) (p : DefaultParser) (header : List Bytes) (i : ℕ) (input : Bytes) (fields : Fields)
    → length input < fuel
    → value_loop fuel p header i input fields
      ≡ some (under_names p (drop i header) (split input b',') fields)
unfolding value_loop
value_loop-under_names zero p header i input fields h = ground (arith, h)
value_loop-under_names (suc fuel) p header i input fields h =
    elim (Option-cases (get_elem? header i)) [
      | inl e ↦ rw e (
          ap some (
            sym (
              ap (λ names. under_names p names (split input b',') fields) (no_name header i e)
              ∙ too_many p input fields)))
      | inr (name, e) ↦ elim (Option-cases (cut_byte b',' input)) [
        | inl last ↦ rw e (
            rw (scan-last b',' input last) (
              ap some (
                sym (
                  one_more p header i name input [] input fields e (split-last b',' input last)
                  ∙ no_more p (drop (suc i) header) (add_dynamic_field p name input fields)))))
        | inr ((value, rest), found) ↦ rw e (
            rw (scan-more b',' input value rest found) (
              value_loop-under_names fuel p header (suc i) rest
                (add_dynamic_field p name value fields) (shorter b',' input value rest fuel found h)
              ∙ ap some (
                  sym (
                    one_more p header i name value (split rest b',') input fields e
                      (split-more b',' input value rest found)))))
      ]
    ]

ensure_header-known :
    (p : CsvParser) (mapr_line source_id : Bytes) (header : List Bytes)
    → lookup source_id p.headers ≡ some header
    → ensure_header p source_id mapr_line ≡ some (p, (header, false))
unfolding ensure_header
ensure_header-known p mapr_line source_id header h = rw (h, ensure_header) refl

ensure_header-new :
    (p : CsvParser) (mapr_line source_id : Bytes)
    → lookup source_id p.headers ≡ none
    → ensure_header p source_id mapr_line
      ≡ some (
        record p { headers = insert source_id (split mapr_line b',') p.headers },
        (split mapr_line b',', true),
      )
unfolding ensure_header parse_header_line
ensure_header-new p mapr_line source_id h =
    rw (h, ensure_header)
      (rw (header_loop-split (suc (length mapr_line)) mapr_line (omega arith), parse_header_line)
        refl)

-- A line of a source whose header is known.
pub make_csv_fields-known :
    (p : CsvParser) (mapr_line source_id : Bytes) (header : List Bytes)
    → lookup source_id p.headers ≡ some header
    → make_csv_fields p mapr_line source_id
      ≡ some (
        p,
        under_names p.parser header
            (split mapr_line b',')
            (add_default_fields p.parser mapr_line []),
      )
unfolding make_csv_fields
make_csv_fields-known p mapr_line source_id header h =
    ap (made_by mapr_line) (ensure_header-known p mapr_line source_id header h)
    ∙ rw
        (
          value_loop-under_names (suc (length mapr_line)) p.parser header 0 mapr_line
              (add_default_fields p.parser mapr_line []) (omega arith),
          made_by,
        )
        refl

-- The first line of a source.
pub make_csv_fields-new :
    (p : CsvParser) (mapr_line source_id : Bytes)
    → lookup source_id p.headers ≡ none
    → make_csv_fields p mapr_line source_id
      ≡ some (record p { headers = insert source_id (split mapr_line b',') p.headers }, ignored)
unfolding make_csv_fields
make_csv_fields-new p mapr_line source_id h =
    ap (made_by mapr_line) (ensure_header-new p mapr_line source_id h)
