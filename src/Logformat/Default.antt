-- ===== src/Logformat/Default.antt =====
-- internal/mapr/logformat/default.go and delimited.go: the parser of dtail's own log lines, and
-- what the other parsers take from it.
use dtail.Base.{
  ℕ, Bool, true, false, List, [], Option, none, some, is_some, if◌then◌else◌, Bytes, codes,
  cut_byte,
}
use dtail.Base.Maps.{lookup, insert}

abbrev pub Fields : Type 0
Fields = List (Bytes × Bytes)

-- mapr.ParserFieldPlan, with its set as a map to nothing.
pub record ParserFieldPlan : Type 0 where
  pub all_fields : Bool
  pub fields : List (Bytes × Unit {0})

unfoldable pub needs : ParserFieldPlan → Bytes → Bool
unfolding lookup
needs plan field = if plan.all_fields then true else is_some (lookup field plan.fields)

-- defaultParser. Its want… flags and its dynamic fields are what configureFieldPlan reads off the
-- plan, which stands here in their place.
pub record DefaultParser : Type 0 where
  pub hostname : Bytes
  pub time_zone_name : Bytes
  pub time_zone_offset : Bytes
  pub plan : ParserFieldPlan

-- The token in front of the delimiter, what follows it, and whether there was none. The source
-- keeps the position of what follows in place of the text.
unfoldable pub scan_delimited_field : Bytes → ℕ → Bytes × (Bytes × Bool)
scan_delimited_field input delimiter = elim (cut_byte delimiter input) [
  | none ↦ (input, ([], true))
  | some (token, rest) ↦ (token, (rest, false))
]

-- A field that the parser writes if the plan asks for it.
abbrev pub wanted : DefaultParser → Bytes → Bytes → Fields → Fields
wanted p name value fields = if needs p.plan name then insert name value fields else fields

unfoldable pub add_default_fields : DefaultParser → Bytes → Fields → Fields
add_default_fields p mapr_line fields = wanted p (codes "$timeoffset") p.time_zone_offset (
    wanted p (codes "$timezone") p.time_zone_name (
      wanted p (codes "$server") p.hostname (
        wanted p (codes "$hostname") p.hostname (
          wanted p (codes "$empty") []
            (wanted p (codes "$line") mapr_line (wanted p (codes "*") (codes "*") fields))))))

unfoldable pub add_dynamic_field : DefaultParser → Bytes → Bytes → Fields → Fields
add_dynamic_field p key value fields = if needs p.plan key then insert key value fields else fields

-- `none` is the error of a token with no "=".
unfoldable pub add_key_value_field : DefaultParser → Bytes → Fields → Option Fields
add_key_value_field p token fields = elim (cut_byte b'=' token) [
  | none ↦ none
  | some (key, value) ↦ some (add_dynamic_field p key value fields)
]
