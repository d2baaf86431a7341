-- ===== src/Logformat/Dtail.antt =====
-- internal/mapr/logformat/default.go, MakeFields: the fields of dtail's own mapreduce log lines.
pub mod Tokens
use dtail.Base.{
  ℕ, zero, suc, ◌+◌, Bool, true, false, not, List, [], ◌∷◌, Option, none, some, ltb, ◌==◌,
  if◌then◌else◌, length, take, drop, Bytes, codes, has_prefix,
}
use dtail.Logformat.Default.{
  Fields, DefaultParser, scan_delimited_field, wanted, add_default_fields, add_key_value_field,
}

-- What a line's tokens lead to: ErrIgnoreFields, fields, or the fields so far with the error of a
-- token that is no key=value pair.
pub data LineFields : Type 0 where
  skipped : LineFields
  parsed : Fields → LineFields
  unparsable : Fields → LineFields

-- The date and the time of a token such as 20211002-071209.
unfoldable pub time_fields : DefaultParser → Bytes → Fields → Fields
time_fields p token fields =
    let fields = wanted p (codes "$time") token fields in
    if length token == 15
    then wanted p (codes "$second") (drop 13 token) (
        wanted p (codes "$minute") (take 2 (drop 11 token)) (
          wanted p (codes "$hour") (take 2 (drop 9 token))
            (wanted p (codes "$date") (take 8 token) fields)))
    else fields

unfoldable pub pair_fields : Option Fields → Fields → LineFields
pair_fields none fields = unparsable fields
pair_fields (some added) fields = parsed added

-- The switch over the token's index; `parsed` goes on.
unfoldable pub token_fields : DefaultParser → Bytes → ℕ → Bytes → Fields → LineFields
token_fields p mapr_line i token fields =
    if i == 0
    then (if not (has_prefix token (codes "INFO"))
        then skipped
        else parsed (
            wanted p (codes "$loglevel") token
              (wanted p (codes "$severity") token (add_default_fields p mapr_line fields))))
    else if i == 1
    then parsed (time_fields p token fields)
    else if i == 2
    then parsed (wanted p (codes "$pid") token fields)
    else if i == 3
    then parsed (wanted p (codes "$caller") token fields)
    else if i == 4
    then parsed (wanted p (codes "$cpus") token fields)
    else if i == 5
    then parsed (wanted p (codes "$goroutines") token fields)
    else if i == 6
    then parsed (wanted p (codes "$cgocalls") token fields)
    else if i == 7
    then parsed (wanted p (codes "$loadavg") token fields)
    else if i == 8
    then parsed (wanted p (codes "$uptime") token fields)
    else if i == 9
    then (if not (has_prefix token (codes "MAPREDUCE:")) then skipped else parsed fields)
    else pair_fields (add_key_value_field p token fields) fields

-- Behind the last token, of index `i`.
abbrev pub ended : ℕ → Fields → LineFields
ended i fields = if ltb (suc i) 11 then skipped else parsed fields

-- One round, on what the switch says and on the rest of the scan.
abbrev pub token_round :
    (Bytes → Fields → Option LineFields) → ℕ → LineFields → Bytes × Bool → Option LineFields
token_round loop i skipped scanned = some skipped
token_round loop i (unparsable fields) scanned = some (unparsable fields)
token_round loop i (parsed fields) (next, true) = some (ended i fields)
token_round loop i (parsed fields) (next, false) = loop next fields

unfoldable pub token_loop : ℕ → DefaultParser → Bytes → ℕ → Bytes → Fields → Option LineFields
token_loop zero p mapr_line i input fields = none
token_loop (suc fuel) p mapr_line i input fields =
    let scanned = scan_delimited_field input b'|' in
    token_round (token_loop fuel p mapr_line (suc i)) i
      (token_fields p mapr_line i scanned.0 fields) scanned.1

-- MakeFields of defaultParser; `none` means that the fuel ran out.
unfoldable pub make_line_fields : DefaultParser → Bytes → Option LineFields
make_line_fields p mapr_line = token_loop (suc (length mapr_line)) p mapr_line 0 mapr_line []
