-- ===== src/Tests/Lines.antt =====
-- internal/mapr/logformat/generickv.go and csv.go on a few lines.
use dtail.Base.{
  ◌≡◌, refl, true, false, [], List, ◌∷◌, str_eq, has_prefix, none, some, is_some, any, arith, Bytes,
  codes, cut_byte, split, split_onto,
}
use dtail.Logformat.Default.{
  DefaultParser, add_default_fields, scan_delimited_field, needs, add_key_value_field,
  add_dynamic_field,
}
use dtail.Base.Maps.{lookup, insert}
use dtail.Logformat.Csv.{CsvParser}
use dtail.Logformat.Csv.Sources.{made_after, made_under, first_line, make_csv_fields-under_names}
use dtail.Logformat.Dtail.{
  make_line_fields, token_loop, token_fields, time_fields, pair_fields, parsed,
}
use dtail.Logformat.Dtail.Tokens.{
  over_tokens, Fit, make_line_fields-over_tokens, make_line_fields-Fit,
}
use dtail.Logformat.GenericKv.{make_fields, add_all}
use dtail.Logformat.GenericKv.Lines.{no_pair, make_fields-no_pair, make_fields-pairs}

abbrev parser : DefaultParser
parser = record {
  hostname = codes "host";
  time_zone_name = codes "UTC";
  time_zone_offset = codes "0";
  plan = record { all_fields = true; fields = [] };
}

abbrev pairs : Bytes
pairs = codes "a=1|b=2"

abbrev words : Bytes
words = codes "a=1|hello"

pairs-pair : any no_pair (split pairs b'|') ≡ false
unfolding split split_onto cut_byte
pairs-pair = refl

words-no_pair : any no_pair (split words b'|') ≡ true
unfolding split split_onto cut_byte
words-no_pair = refl

make_fields-no_pair_example : make_fields 1000 parser words ≡ none
make_fields-no_pair_example = make_fields-no_pair 1000 parser words words-no_pair

make_fields-pairs_example :
    (is_some (make_fields 8 parser pairs) ≡ true)
    × (make_fields 8 parser pairs
        ≡ add_all parser (split pairs b'|') (add_default_fields parser pairs []))
make_fields-pairs_example = make_fields-pairs 8 parser pairs pairs-pair (omega arith)

abbrev csv_parser : CsvParser
csv_parser = record { parser = parser; headers = [] }

abbrev header : Bytes
header = codes "name,age"

-- The header of another file stands between that of the file and its line.
abbrev csv_lines : List (Bytes × Bytes)
csv_lines = (codes "file", header) ∷ (codes "other", codes "a,b,c") ∷ []

make_csv_fields-under_names_example :
    made_after csv_parser csv_lines (codes "ann,30") (codes "file")
    ≡ some (made_under parser (codes "ann,30") (first_line (codes "file") csv_lines))
make_csv_fields-under_names_example =
    make_csv_fields-under_names csv_parser csv_lines (codes "ann,30") (codes "file") refl

first_line-file : first_line (codes "file") csv_lines ≡ some (codes "name" ∷ codes "age" ∷ [])
unfolding first_line str_eq split split_onto
first_line-file = refl

-- A parser of which only the field a is wanted.
abbrev parser_a : DefaultParser
parser_a = record parser { plan = record { all_fields = false; fields = (codes "a", tt) ∷ [] } }

abbrev stats_line : Bytes
stats_line =
    codes "INFO|20211002-071209|1|stats.go:56|8|14|7|0.21|471h0m21s|MAPREDUCE:STATS|a=1|b=2"

make_line_fields-stats_line :
    make_line_fields parser_a stats_line ≡ some (parsed ((codes "a", codes "1") ∷ []))
unfolding make_line_fields token_loop scan_delimited_field cut_byte token_fields time_fields
    pair_fields add_default_fields needs lookup insert add_key_value_field add_dynamic_field str_eq
    has_prefix
make_line_fields-stats_line = refl

make_line_fields-over_tokens_example :
    make_line_fields parser stats_line
    ≡ some (over_tokens parser stats_line 0 (split stats_line b'|') [])
make_line_fields-over_tokens_example = make_line_fields-over_tokens parser stats_line

make_line_fields-Fit_example : Fit 0 (split stats_line b'|')
make_line_fields-Fit_example =
    make_line_fields-Fit parser_a stats_line ((codes "a", codes "1") ∷ [])
      make_line_fields-stats_line
