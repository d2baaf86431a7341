-- ===== src/Tests/Wire.antt =====
-- The messages between client and server, on small inputs. A text encoding of two letters a byte
-- stands for base64.
use dtail.Base.{
  ℕ, some, join, str_eq, trim_space, trim_left, ◌+◌, ◌-◌, ◌*◌, ◌/◌, ◌%◌, ◌≡◌, refl, Bool, true,
  false, List, [], ◌∷◌, ◌++◌, Option, none, arith, Bytes, codes, has_prefix, length, drop, take,
  ◌≤◌, format_uint, format_digits, split, split_onto,
}
use dtail.Wire.Generation.{
  decode_generated_message, encode_generated_bytes, decode_generated_bytes,
  decode_generated_bytes-encode,
}
use dtail.Wire.Format.{message_delimiter, format_remote_line, format_remote_header}
use dtail.Wire.Receive.{ClientHandler, write, parse_auth_key_message, auth_key_payload}
use dtail.Wire.Send.{
  should_drop_generation, Handler, Event, server_message, nil_line, mapr_message, closed,
}
use dtail.Wire.Request.Dispatched
use dtail.Wire.Request.Dispatched.{outstanding, frames, next_byte-read_all}
use dtail.Wire.Send.Delivered.{read_all, event_bytes}
use dtail.Wire.Send.Received.{texts_of, write-read_all}
use dtail.Wire.Receive.Frames.{received_all}
use dtail.Wire.Receive.Lines.{RemoteLine, formatted, shown_lines, write-formatted}
use dtail.Wire.Receive.Confused.{write-auth_key_line, write-closing_line}
use dtail.Wire.Options.{
  no_context, sorted, insert_sorted, str_leb, serialize_option_map, serialized, serialize_option,
  serialize_option_value, deserialize_options,
}
use dtail.Wire.Options.RoundTrip.{set_pairs, deserialize_options-serialize}
use dtail.Wire.Serve
use dtail.Wire.Serve.{ServerHandler, next_byte}
use dtail.Wire.Serve.Frames.{write-IsBounded, write-over_limit}
use dtail.Wire.Serve.Commands.{dispatched_all}

decode_generated_bytes-encode_example :
    decode_generated_bytes (encode_generated_bytes 7 (codes "line")) ≡ (7, codes "line")
decode_generated_bytes-encode_example =
    decode_generated_bytes-encode 7 (codes "line") (omega arith) (λ e. absurd (omega (arith, e)))

abbrev encode_pairs : Bytes → Bytes
encode_pairs [] = []
encode_pairs (c ∷ s) = (b'A' + c / 16) ∷ ((b'A' + c % 16) ∷ encode_pairs s)

abbrev decode_pairs : Bytes → Bytes
decode_pairs (x ∷ (y ∷ s)) = ((x - b'A') * 16 + (y - b'A')) ∷ decode_pairs s
decode_pairs _ = []

abbrev decoder : Bytes → Bytes × Option Bytes
decoder s = (decode_pairs s, none)

abbrev always : ClientHandler → Bytes → Bool
always h command = true

abbrev client : ClientHandler
client = record {
  server = codes "web";
  receive_buf = [];
  commands = [];
  capabilities = [];
  capabilities_known = false;
  session_acks = [];
  logged = [];
  done = false;
}

abbrev lines : List RemoteLine
lines =
    (record { line_num = 1; source_id = codes "a.log"; content = codes "one" })
    ∷ (record { line_num = 2; source_id = codes "a.log"; content = codes "two" })
    ∷ []

write-formatted_example :
    write encode_pairs always
      (drop 9 (formatted (codes "web") (codes "100") [] lines))
      (write encode_pairs always (take 9 (formatted (codes "web") (codes "100") [] lines)) client)
    ≡ record client { logged = shown_lines (codes "web") (codes "100") lines }
unfolding format_remote_line format_remote_header format_uint format_digits
write-formatted_example =
    write-formatted (codes "web") (codes "100") encode_pairs always lines
      (take 9 (formatted (codes "web") (codes "100") [] lines))
      (drop 9 (formatted (codes "web") (codes "100") [] lines)) client refl
      (unfold parse_auth_key_message split split_onto trim_space trim_left auth_key_payload str_eq
          has_prefix in
        refl)
      refl refl

write-auth_key_line_example :
    write encode_pairs always
      (format_remote_line [] (codes "web") (codes "100") 3 (codes "a.log") (codes "AUTHKEY OK"))
      client
    ≡ client
unfolding format_remote_header format_uint
write-auth_key_line_example =
    write-auth_key_line (codes "web") (codes "100") (codes "a.log") 3 encode_pairs always client
      (unfold format_digits in refl) refl

write-closing_line_example :
    (write encode_pairs always
      (format_remote_line []
        (codes "web")
        (codes "100")
        3
        (codes "a.log")
        ((226 ∷ 130 ∷ []) ++ message_delimiter ∷ codes ".syn close connection"))
      client).done
    ≡ true
unfolding format_remote_header format_uint
write-closing_line_example =
    write-closing_line (codes "web") (codes "100") (codes "a.log") 3 encode_pairs always
      (226 ∷ 130 ∷ []) client (unfold format_digits in refl) refl

abbrev same : Bytes → Bytes
same s = s

abbrev server : ServerHandler
server = record {
  write_buf = [];
  done = false;
  quiet = false;
  plain = false;
  serverless = false;
  options_known = false;
  server_messages = [];
  commands = [];
}

write-IsBounded_example :
    length ((Serve.write decoder same same 8 (codes "cat;a long frame") server).0.write_buf) ≤ 8
write-IsBounded_example =
    write-IsBounded decoder same same 8 (codes "cat;a long frame") server (omega arith)
      (omega arith)

write-over_limit_example :
    Serve.write decoder same same 8 (codes "a long frame" ++ codes "; and more") server
    ≡ (record server { done = true }, true)
write-over_limit_example =
    write-over_limit decoder same same 8 (codes "a long frame") (codes "; and more") server
      (omega arith) refl refl (omega arith)

abbrev commands : List Bytes
commands = codes "cat:quiet=true /a b" ∷ codes ".ack close connection" ∷ []

next_byte-read_all_example :
    next_byte
      (Serve.write decoder same same 200 (
        outstanding (
          Dispatched.read_all
            (10 ∷ 50 ∷ 9 ∷ [])
            false
            []
            (frames encode_pairs decoder same same commands))))
      (Serve.write decoder same same 200
        (Dispatched.read_all
          (10 ∷ 50 ∷ 9 ∷ [])
          false
          []
          (frames encode_pairs decoder same same commands)).bytes
        server)
    ≡ (dispatched_all encode_pairs decoder same same commands server, false)
next_byte-read_all_example =
    next_byte-read_all encode_pairs decoder same same 200 commands (10 ∷ 50 ∷ 9 ∷ []) false server
      ((refl, refl, refl), ((refl, refl, refl), tt)) refl

abbrev options : List (Bytes × Bytes)
options =
    (codes "quiet", codes "true") ∷ (codes "before", codes "2") ∷ (codes "re", codes "a=b") ∷ []

deserialize_options-serialize_example :
    deserialize_options decoder same (serialize_option_map encode_pairs options ∷ [])
    ≡ set_pairs encode_pairs decoder same (sorted options) [] no_context
unfolding sorted insert_sorted str_leb serialize_option_map serialized serialize_option
    serialize_option_value has_prefix join
deserialize_options-serialize_example =
    deserialize_options-serialize encode_pairs decoder same options
      ((refl, refl, refl, refl), ((refl, refl, refl, refl), ((refl, refl, refl, refl), tt))) refl
      (unfold trim_space trim_left in refl)

abbrev handler : Handler
handler = record {
  hostname = codes "web";
  plain = false;
  serverless = false;
  active_generation = some 2;
}

abbrev events : List Event
events = server_message (codes "hi") ∷ nil_line ∷ mapr_message (codes "k") ∷ closed ∷ []

abbrev sizes : List ℕ
sizes = 4 ∷ 4 ∷ 40 ∷ []

write-read_all_example :
    write encode_pairs always
      ((read_all handler sizes [] events).1
        ++ event_bytes handler (read_all handler sizes [] events).2)
      (write encode_pairs always (read_all handler sizes [] events).0 client)
    ≡ received_all encode_pairs always (texts_of handler events) client
write-read_all_example =
    write-read_all encode_pairs always handler sizes events client
      (unfold decode_generated_message has_prefix should_drop_generation in refl) refl
