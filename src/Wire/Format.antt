-- ===== src/Wire/Format.antt =====
-- protocol_formatter.go of internal/server/handlers, with the constants of internal/protocol: each
-- function appends to a buffer and returns it.
use dtail.Base.{ℕ, Bool, [], ◌∷◌, ◌++◌, if◌then◌else◌, Bytes, codes, format_uint}

-- The byte of '¬'.
abbrev pub message_delimiter : ℕ
message_delimiter = 172

abbrev pub field_delimiter : ℕ
field_delimiter = b'|'

abbrev pub default_transmitted_perc : Bytes
default_transmitted_perc = codes "100"

unfoldable pub format_remote_header : Bytes → Bytes → Bytes → ℕ → Bytes → Bytes
format_remote_header buf hostname transmitted_perc line_num source_id =
    buf
    ++ codes "REMOTE"
    ++ (field_delimiter ∷ hostname)
    ++ (field_delimiter ∷ transmitted_perc)
    ++ (field_delimiter ∷ format_uint line_num)
    ++ (field_delimiter ∷ source_id)
    ++ (field_delimiter ∷ [])

unfoldable pub format_remote_line : Bytes → Bytes → Bytes → ℕ → Bytes → Bytes → Bytes
format_remote_line buf hostname transmitted_perc line_num source_id content =
    format_remote_header buf hostname transmitted_perc line_num source_id
    ++ content
    ++ (message_delimiter ∷ [])

unfoldable pub format_server_message : Bytes → Bytes → Bytes → Bool → Bytes
format_server_message buf hostname message plain =
    (if plain
      then buf
      else buf ++ codes "SERVER" ++ (field_delimiter ∷ hostname) ++ (field_delimiter ∷ []))
    ++ message
    ++ (message_delimiter ∷ [])
