-- ===== src/Logformat/Csv/Sources.antt =====
-- internal/mapr/logformat/csv.go: the lines of several sources, one after the other, in any order.
use dtail.Base.{
  ◌≡◌, refl, ap, sym, ◌∙◌, inl, inr, List, [], ◌∷◌, Option, none, some, if◌then◌else◌, Bytes, split,
  str_eq, str_eq_iff, Option-cases, Bool-cases,
}
use dtail.Base.Maps.{lookup, insert, lookup-insert}
use dtail.Logformat.Default.{DefaultParser, add_default_fields}
use dtail.Logformat.Csv.{CsvParser, Made, ignored, make_csv_fields}
use dtail.Logformat.Csv.Columns.{under_names, make_csv_fields-known, make_csv_fields-new}

abbrev pub parser_of : Option (CsvParser × Made) → Option CsvParser
parser_of none = none
parser_of (some (p, m)) = some p

abbrev pub made_of : Option (CsvParser × Made) → Option Made
made_of none = none
made_of (some (p, m)) = some m

abbrev pub and_then : {A B : Type 0} → Option A → (A → Option B) → Option B
and_then none f = none
and_then (some a) f = f a

-- The parser after some lines, each with its source before it.
unfoldable pub parser_after : CsvParser → List (Bytes × Bytes) → Option CsvParser
parser_after p [] = some p
parser_after p ((source_id, line) ∷ lines) =
    and_then (parser_of (make_csv_fields p line source_id)) (λ q. parser_after q lines)

-- What MakeFields answers on a line after these.
abbrev pub made_after : CsvParser → List (Bytes × Bytes) → Bytes → Bytes → Option Made
made_after p lines mapr_line source_id =
    and_then (parser_after p lines) (λ q. made_of (make_csv_fields q mapr_line source_id))

-- The columns of the first line of a source.
unfoldable pub first_line : Bytes → List (Bytes × Bytes) → Option (List Bytes)
first_line source_id [] = none
first_line source_id ((other, line) ∷ lines) =
    if str_eq other source_id then some (split line b',') else first_line source_id lines

abbrev pub made_under : DefaultParser → Bytes → Option (List Bytes) → Made
made_under p mapr_line none = ignored
made_under p mapr_line (some names) =
    under_names p names (split mapr_line b',') (add_default_fields p mapr_line [])

abbrev or_else : Option (List Bytes) → Option (List Bytes) → Option (List Bytes)
or_else none o = o
or_else (some names) o = some names

-- A parser that has gone over the lines: it has the headers that it had, and those of the sources
-- that were new.
record After (p : CsvParser) (lines : List (Bytes × Bytes)) : Type 0 where
  q : CsvParser
  returns : parser_after p lines ≡ some q
  same_parser : q.parser ≡ p.parser
  headers_of :
      (source_id : Bytes)
      → lookup source_id q.headers
        ≡ or_else (lookup source_id p.headers) (first_line source_id lines)

or_else-none : (o : Option (List Bytes)) → or_else o none ≡ o
or_else-none none = refl
or_else-none (some names) = refl

no_headers : (source_id : Bytes) (o : Option (List Bytes)) → or_else (lookup source_id []) o ≡ o
unfolding lookup
no_headers source_id o = refl

known-first :
    (p : CsvParser) (source_id s : Bytes) (names : List Bytes) (line : Bytes)
    (lines : List (Bytes × Bytes))
    → lookup source_id p.headers ≡ some names
    → or_else (lookup s p.headers) (first_line s lines)
      ≡ or_else (lookup s p.headers) (first_line s ((source_id, line) ∷ lines))
unfolding first_line
known-first p source_id s names line lines h = elim (Bool-cases (str_eq source_id s)) [
  | inl same ↦
      let there : lookup s p.headers ≡ some names =
        ap (λ i. lookup i p.headers) (sym ((str_eq_iff source_id s).0 same)) ∙ h in
      rw there refl
  | inr other ↦ rw other refl
]

new-first :
    (p : CsvParser) (source_id s : Bytes) (line : Bytes) (lines : List (Bytes × Bytes))
    → lookup source_id p.headers ≡ none
    → or_else (lookup s (insert source_id (split line b',') p.headers)) (first_line s lines)
      ≡ or_else (lookup s p.headers) (first_line s ((source_id, line) ∷ lines))
unfolding first_line
new-first p source_id s line lines h =
    rw (lookup-insert source_id s (split line b',') p.headers)
      (elim (Bool-cases (str_eq source_id s)) [
        | inl same ↦
            let missing : lookup s p.headers ≡ none =
              ap (λ i. lookup i p.headers) (sym ((str_eq_iff source_id s).0 same)) ∙ h in
            rw (same, missing) refl
        | inr other ↦ rw other refl
      ])

after : (p : CsvParser) (lines : List (Bytes × Bytes)) → After p lines
unfolding parser_after first_line
after p [] = record {
  q = p;
  returns = refl;
  same_parser = refl;
  headers_of = λ s. sym (or_else-none (lookup s p.headers));
}
after p ((source_id, line) ∷ lines) = elim (Option-cases (lookup source_id p.headers)) [
  | inl new ↦
      let next : CsvParser = record p { headers = insert source_id (split line b',') p.headers } in
      let rest = after next lines in
      record {
        q = rest.q;
        returns =
            ap (λ r. and_then (parser_of r) (λ q. parser_after q lines))
              (make_csv_fields-new p line source_id new)
            ∙ rest.returns;
        same_parser = rest.same_parser;
        headers_of = λ s. rest.headers_of s ∙ new-first p source_id s line lines new;
      }
  | inr (names, known) ↦
      let rest = after p lines in
      record {
        q = rest.q;
        returns =
            ap (λ r. and_then (parser_of r) (λ q. parser_after q lines))
              (make_csv_fields-known p line source_id names known)
            ∙ rest.returns;
        same_parser = rest.same_parser;
        headers_of = λ s. rest.headers_of s ∙ known-first p source_id s names line lines known;
      }
]

-- What a parser answers, by the header that it has for the source.
make_csv_fields-by_header :
    (p : CsvParser) (mapr_line source_id : Bytes) (o : Option (List Bytes))
    → lookup source_id p.headers ≡ o
    → made_of (make_csv_fields p mapr_line source_id) ≡ some (made_under p.parser mapr_line o)
make_csv_fields-by_header p mapr_line source_id none h =
    ap made_of (make_csv_fields-new p mapr_line source_id h)
make_csv_fields-by_header p mapr_line source_id (some names) h =
    ap made_of (make_csv_fields-known p mapr_line source_id names h)

-- MakeFields returns on every line, whatever lines of whatever sources went before it. The first
-- line of its source is ignored; each value of a later one is put under the name at its place in
-- that first line, with an error if there are more values than names. The parser is new, so it has
-- no headers yet.
pub make_csv_fields-under_names :
    (p : CsvParser) (lines : List (Bytes × Bytes)) (mapr_line source_id : Bytes)
    → p.headers ≡ []
    → made_after p lines mapr_line source_id
      ≡ some (made_under p.parser mapr_line (first_line source_id lines))
make_csv_fields-under_names p lines mapr_line source_id h =
    let run = after p lines in
    let header : lookup source_id run.q.headers ≡ first_line source_id lines =
      run.headers_of source_id
      ∙ ap (λ hs. or_else (lookup source_id hs) (first_line source_id lines)) h
      ∙ no_headers source_id (first_line source_id lines) in
    ap (λ o. and_then o (λ q. made_of (make_csv_fields q mapr_line source_id))) run.returns
    ∙ make_csv_fields-by_header run.q mapr_line source_id (first_line source_id lines) header
    ∙ ap (λ r. some (made_under r mapr_line (first_line source_id lines))) run.same_parser
