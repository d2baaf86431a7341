-- ===== src/Wire/Receive.antt =====
-- basehandler.go of internal/clients/handlers: what the client does with the bytes of the server.
pub mod Frames
pub mod Lines
pub mod Confused
use dtail.Base.{
  ℕ, zero, suc, ◌==◌, ◌-◌, Bool, true, false, not, ◌&&◌, ◌||◌, List, [], ◌∷◌, ◌++◌, Option, none,
  some, ltb, if◌then◌else◌, length, drop, get_or, Bytes, codes, str_eq, is_empty, has_prefix, split,
  fields, trim_space, parse_uint,
}
use dtail.Base.Maps.{insert}
use dtail.Wire.Format.{message_delimiter, field_delimiter}

pub record SessionAck : Type 0 where
  pub action : Bytes
  pub generation : ℕ
  pub error : Bytes

-- A call of the client's logger. Debug messages are left out.
pub data Logged : Type 0 where
  raw : Bytes → Logged
  warn : Bytes → Bytes → Logged

-- `capabilities_known` says that capabilitiesCh is closed, `done` that Done() is. The commands are
-- the frames that another goroutine's Read has taken from the channel.
pub record ClientHandler : Type 0 where
  pub server : Bytes
  pub receive_buf : Bytes
  pub commands : List Bytes
  pub capabilities : List (Bytes × Unit {0})
  pub capabilities_known : Bool
  pub session_acks : List SessionAck
  pub logged : List Logged
  pub done : Bool

abbrev pub hidden_capabilities_prefix : Bytes
hidden_capabilities_prefix = codes ".syn capabilities "

abbrev pub hidden_session_start_ok_prefix : Bytes
hidden_session_start_ok_prefix = codes ".syn session start ok"

abbrev pub hidden_session_update_ok_prefix : Bytes
hidden_session_update_ok_prefix = codes ".syn session update ok"

abbrev pub hidden_session_error_prefix : Bytes
hidden_session_error_prefix = codes ".syn session err "

abbrev pub protocol_compat : Bytes
protocol_compat = codes "4.1"

unfoldable pub new_client_handler : Bytes → ClientHandler
new_client_handler server = record {
  server = server;
  receive_buf = [];
  commands = [];
  capabilities = [];
  capabilities_known = false;
  session_acks = [];
  logged = [];
  done = false;
}

abbrev pub log : Logged → ClientHandler → ClientHandler
log entry h = record h { logged = h.logged ++ entry ∷ [] }

-- strings.TrimPrefix, of a prefix that is there.
abbrev pub after : Bytes → Bytes → Bytes
after prefix s = drop (length prefix) s

-- parts[len(parts)-1], or the first argument where there is no part.
abbrev pub last_part : Bytes → List Bytes → Bytes
last_part s [] = s
last_part s (part ∷ parts) = last_part part parts

-- What parseAuthKeyMessage says of a message.
pub data AuthKeyMessage : Type 0 where
  no_auth_key : AuthKeyMessage
  auth_key_ok : AuthKeyMessage
  auth_key_err : Bytes → AuthKeyMessage

unfoldable pub auth_key_payload : Bytes → AuthKeyMessage
unfolding str_eq has_prefix trim_space
auth_key_payload payload =
    if str_eq payload (codes "AUTHKEY OK")
    then auth_key_ok
    else if has_prefix payload (codes "AUTHKEY ERR")
    then auth_key_err (trim_space (after (codes "AUTHKEY ERR") payload))
    else no_auth_key

unfoldable pub parse_auth_key_message : Bytes → AuthKeyMessage
unfolding auth_key_payload split trim_space
parse_auth_key_message message =
    if is_empty message
    then no_auth_key
    else auth_key_payload
        (trim_space (last_part (trim_space message) (split (trim_space message) field_delimiter)))

unfoldable pub parse_session_ok_ack : Bytes → Bytes → Option SessionAck
unfolding trim_space parse_uint
parse_session_ok_ack payload action =
    if is_empty (trim_space payload) then none else elim (parse_uint (trim_space payload)) [
      | none ↦ none
      | some generation ↦ some (record { action = action; generation = generation; error = [] })
    ]

unfoldable pub session_ack_payload : Bytes → Option SessionAck
unfolding has_prefix trim_space parse_session_ok_ack
session_ack_payload payload =
    if is_empty payload
    then none
    else if has_prefix payload hidden_session_start_ok_prefix
    then parse_session_ok_ack (after hidden_session_start_ok_prefix payload) (codes "start")
    else if has_prefix payload hidden_session_update_ok_prefix
    then parse_session_ok_ack (after hidden_session_update_ok_prefix payload) (codes "update")
    else if has_prefix payload hidden_session_error_prefix
    then some (record {
      action = codes "error";
      generation = 0;
      error = trim_space (after hidden_session_error_prefix payload);
    })
    else none

unfoldable pub parse_session_ack_message : Bytes → Option SessionAck
unfolding session_ack_payload trim_space
parse_session_ack_message message = session_ack_payload (trim_space message)

-- The channel sessionAcks holds four acknowledgements; with Done() closed and room left, either
-- case of the select may go through, and the model takes the first.
unfoldable pub queue_ack : Bytes → ClientHandler → SessionAck → ClientHandler
queue_ack message h ack =
    if ltb (length h.session_acks) 4
    then record h { session_acks = h.session_acks ++ ack ∷ [] }
    else if h.done
    then h
    else log (warn (codes "Dropping session acknowledgement because the queue is full") message) h

unfoldable pub handle_session_ack_message : Bytes → ClientHandler → ClientHandler
unfolding parse_session_ack_message queue_ack
handle_session_ack_message message h = elim (parse_session_ack_message message) [
  | none ↦ log (warn (codes "Unable to parse session acknowledgement") message) h
  | some ack ↦ queue_ack message h ack
]

unfoldable pub add_capabilities : List Bytes → List (Bytes × Unit {0}) → List (Bytes × Unit {0})
unfolding insert
add_capabilities [] known = known
add_capabilities (capability ∷ rest) known =
    add_capabilities rest (if is_empty capability then known else insert capability tt known)

unfoldable pub handle_capabilities_message : Bytes → ClientHandler → ClientHandler
unfolding add_capabilities fields
handle_capabilities_message message h = record h {
  capabilities =
      add_capabilities (fields (after hidden_capabilities_prefix message)) h.capabilities;
  capabilities_known = true;
}

unfoldable pub handle_auth_key_message : AuthKeyMessage → ClientHandler → ClientHandler
handle_auth_key_message no_auth_key h = h
handle_auth_key_message auth_key_ok h = h
handle_auth_key_message (auth_key_err detail) h =
    log (warn (codes "AUTHKEY registration failed") detail) h

abbrev pub is_hidden : Bytes → Bool
is_hidden message = not (is_empty message) && get_or message 0 0 == b'.'

-- A message as it is shown: it ends with a newline.
unfoldable pub with_newline : Bytes → Bytes
with_newline [] = 10 ∷ []
with_newline (c ∷ message) =
    if get_or (c ∷ message) (length message) 0 == 10 then c ∷ message else (c ∷ message) ++ 10 ∷ []

-- The text of a command on its way to the server.
unfoldable pub command_frame : Bytes → Bytes
command_frame encoded =
    codes "protocol " ++ protocol_compat ++ codes " base64 " ++ encoded ++ b';' ∷ []

-- base64 is the library's. Which case of SendMessage's select goes through lies with the other
-- goroutine: `takes` says whether it reads the command in time.
module _ (encode_base64 : Bytes → Bytes) (takes : ClientHandler → Bytes → Bool) where
  unfoldable pub send_message : Bytes → ClientHandler → ClientHandler
  unfolding command_frame
  send_message command h =
      if takes h command
      then record h { commands = h.commands ++ command_frame (encode_base64 command) ∷ [] }
      else h

  unfoldable pub shutdown : ClientHandler → ClientHandler
  shutdown h = record h { done = true }

  unfoldable pub handle_hidden_message : Bytes → ClientHandler → ClientHandler
  unfolding has_prefix handle_capabilities_message handle_session_ack_message send_message shutdown
  handle_hidden_message message h =
      if has_prefix message hidden_capabilities_prefix
      then handle_capabilities_message message h
      else if has_prefix message hidden_session_start_ok_prefix
          || has_prefix message hidden_session_update_ok_prefix
          || has_prefix message hidden_session_error_prefix
      then handle_session_ack_message message h
      else if has_prefix message (codes ".syn close connection")
      then shutdown (send_message (codes ".ack close connection") h)
      else h

  unfoldable pub shown : AuthKeyMessage → Bytes → ClientHandler → ClientHandler
  unfolding handle_auth_key_message with_newline
  shown no_auth_key message h = log (raw (with_newline message)) h
  shown auth_key_ok message h = handle_auth_key_message auth_key_ok h
  shown (auth_key_err detail) message h = handle_auth_key_message (auth_key_err detail) h

  unfoldable pub handle_message : Bytes → ClientHandler → ClientHandler
  unfolding handle_hidden_message shown parse_auth_key_message
  handle_message message h =
      if is_hidden message
      then handle_hidden_message message h
      else shown (parse_auth_key_message message) message h

  -- One byte of Write. A newline is kept like any other byte.
  unfoldable pub write_byte : ℕ → ClientHandler → ClientHandler
  unfolding handle_message
  write_byte b h =
      if b == message_delimiter
      then record (handle_message h.receive_buf h) { receive_buf = [] }
      else record h { receive_buf = h.receive_buf ++ b ∷ [] }

  unfoldable pub write : Bytes → ClientHandler → ClientHandler
  unfolding write_byte
  write [] h = h
  write (b ∷ p) h = write p (write_byte b h)
