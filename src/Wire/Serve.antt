-- ===== src/Wire/Serve.antt =====
-- basehandler.go of internal/server/handlers: what the server does with the bytes of a client, up
-- to the call of the handler of a command.
pub mod Frames
pub mod Commands
use dtail.Base.{
  ℕ, ◌+◌, ◌-◌, Bool, true, false, not, ◌&&◌, ◌||◌, List, [], ◌∷◌, ◌++◌, Option, none, some, ltb,
  leb, ◌==◌, if◌then◌else◌, length, Bytes, codes, str_eq, is_empty, cut_byte, split, fields, atoi,
  ℤ, pos, negsuc, is_positive, pos_part, format_uint,
}
use dtail.Base.Maps.{lookup}
use dtail.Fs.LineContext.{LineContext}
use dtail.Wire.Codec.{Decoded, arguments, failure, handle_protocol_version, handle_base64}
use dtail.Wire.Options.{
  no_context, OptionMap, OptionsRead, options_read, options_error, deserialize_options,
}

-- What the handler of a command is called with. The deadline is the one of its context, in seconds.
pub record Command : Type 0 where
  pub deadline : Option ℕ
  pub l_context : LineContext
  pub args : List Bytes
  pub command_name : Bytes

-- `commands` are those that the callback was called with, `server_messages` what was sent to the
-- channel of that name, `options_known` says that the options have been read.
pub record ServerHandler : Type 0 where
  pub write_buf : Bytes
  pub done : Bool
  pub quiet : Bool
  pub plain : Bool
  pub serverless : Bool
  pub options_known : Bool
  pub server_messages : List Bytes
  pub commands : List Command

abbrev pub max_command_timeout_seconds : ℕ
max_command_timeout_seconds = 86400

-- The deadline and the rest of the command, or an error.
pub data Timed : Type 0 where
  timed : Option ℕ → List Bytes → Timed
  timeout_error : Bytes → Timed

abbrev pub exceeds_maximum : ℕ → Bytes
exceeds_maximum seconds =
    codes "timeout value "
    ++ format_uint seconds
    ++ codes " exceeds maximum of "
    ++ format_uint max_command_timeout_seconds
    ++ codes " seconds"

abbrev is_true : Option Bytes → Bool
is_true none = false
is_true (some v) = str_eq v (codes "true")

-- The block of handleOptions that runs once.
unfoldable pub handle_options : OptionMap → ServerHandler → ServerHandler
unfolding lookup str_eq
handle_options options h = if h.options_known then h else record h {
  quiet = is_true (lookup (codes "quiet") options) || h.quiet;
  plain = is_true (lookup (codes "plain") options) || h.plain;
  serverless = is_true (lookup (codes "serverless") options) || h.serverless;
  options_known = true;
}

abbrev pub send : Bytes → ServerHandler → ServerHandler
send message h = record h { server_messages = h.server_messages ++ message ∷ [] }

abbrev pub call : Command → ServerHandler → ServerHandler
call c h = record h { commands = h.commands ++ c ∷ [] }

-- The parameters: the base64 and strconv libraries, and the line that the logger makes of an error.
-- A send to a channel may wait; the model takes the state when it has gone through.
module _ (decode_base64 : Bytes → Bytes × Option Bytes)
    (atoi_error error_line : Bytes → Bytes) where
  unfoldable pub timeout_of : Bytes → Option ℤ → List Bytes → Timed
  timeout_of value none args =
      timeout_error (codes "invalid timeout value \"" ++ value ++ codes "\": " ++ atoi_error value)
  timeout_of value (some (negsuc n)) args = timed none args
  timeout_of value (some (pos n)) args =
      if ltb max_command_timeout_seconds n
      then timeout_error (exceeds_maximum n)
      else if n == 0
      then timed none args
      else timed (some n) args

  unfoldable pub apply_command_timeout : List Bytes → Timed
  unfolding timeout_of str_eq atoi
  apply_command_timeout (name ∷ (value ∷ (arg ∷ args))) =
      if str_eq name (codes "timeout")
      then timeout_of value (atoi value) (arg ∷ args)
      else timed none (name ∷ (value ∷ (arg ∷ args)))
  apply_command_timeout args = timed none args

  -- The state, and the error if there is one.
  abbrev pub Dispatched : Type 0
  Dispatched = ServerHandler × Option Bytes

  unfoldable pub with_options :
      Option ℕ → List Bytes → Bytes → OptionsRead → ServerHandler → Dispatched
  unfolding handle_options
  with_options deadline args name (options_error err _ _) h = (h, some err)
  with_options deadline args name (options_read options ltx) h = (
    call (record { deadline = deadline; l_context = ltx; args = args; command_name = name })
        (handle_options options h),
    none,
  )

  abbrev pub call_plain : Option ℕ → List Bytes → Bytes → ServerHandler → Dispatched
  call_plain deadline args name h = (
    call (record { deadline = deadline; l_context = no_context; args = args; command_name = name })
        h,
    none,
  )

  -- The name of the command and its options, which a colon separates.
  unfoldable pub dispatch_named :
      Option ℕ → List Bytes → Bytes → Option (Bytes × Bytes) → ServerHandler → Dispatched
  unfolding with_options deserialize_options
  dispatch_named deadline args word none h = call_plain deadline args word h
  dispatch_named deadline args word (some (name, options)) h =
      if is_empty options
      then call_plain deadline args name h
      else with_options deadline args name
          (deserialize_options decode_base64 atoi_error (options ∷ [])) h

  -- There is always a first argument.
  unfoldable pub dispatch_timed : Timed → ServerHandler → Dispatched
  unfolding dispatch_named cut_byte
  dispatch_timed (timeout_error err) h = (h, some err)
  dispatch_timed (timed deadline []) h = (h, none)
  dispatch_timed (timed deadline (arg ∷ args)) h =
      dispatch_named deadline (arg ∷ args) arg (cut_byte b':' arg) h

  unfoldable pub dispatch_command : List Bytes → ServerHandler → Dispatched
  unfolding dispatch_timed apply_command_timeout
  dispatch_command args h = dispatch_timed (apply_command_timeout args) h

  -- A command of a session.
  unfoldable pub handle_raw_command : Bytes → ServerHandler → Dispatched
  unfolding dispatch_command fields
  handle_raw_command command h = elim (fields command) [
    | [] ↦ (h, some (codes "empty command"))
    | arg ∷ args ↦ dispatch_command (arg ∷ args) h
  ]

  unfoldable pub report : Dispatched → ServerHandler
  report (h, none) = h
  report (h, some err) = send (error_line err ++ 10 ∷ []) h

  unfoldable pub handle_decoded : Decoded → ServerHandler → ServerHandler
  unfolding dispatch_command report
  handle_decoded (failure err add) h = send (error_line err ++ 10 ∷ []) h
  handle_decoded (arguments args) h = report (dispatch_command args h)

  unfoldable pub handle_versioned : Decoded → ServerHandler → ServerHandler
  unfolding handle_decoded handle_base64
  handle_versioned (failure err add) h = send (error_line err ++ add) h
  handle_versioned (arguments args) h = handle_decoded (handle_base64 decode_base64 args) h

  unfoldable pub handle_command : Bytes → ServerHandler → ServerHandler
  unfolding handle_versioned handle_protocol_version split
  handle_command command_str h =
      handle_versioned (handle_protocol_version (split command_str b' ')) h

-- Whether Write returned io.ErrClosedPipe.
abbrev pub Written : Type 0
Written = ServerHandler × Bool

unfoldable pub next_byte : (ServerHandler → Written) → Written → Written
next_byte rest (h, true) = (h, true)
next_byte rest (h, false) = rest h

-- The limit is a setting of the server: 0 or less is none, and stands as 0.
module _ (decode_base64 : Bytes → Bytes × Option Bytes) (atoi_error error_line : Bytes → Bytes)
    (max_command_frame_size : ℕ) where
  -- The byte is in the buffer: is it too much?
  unfoldable pub guarded : ServerHandler → Written
  guarded h =
      if ltb 0 max_command_frame_size && ltb max_command_frame_size (length h.write_buf)
      then (record h { write_buf = []; done = true }, true)
      else (h, false)

  unfoldable pub write_byte : ℕ → ServerHandler → Written
  unfolding guarded handle_command
  write_byte b h =
      if b == b';'
      then (
        record (handle_command decode_base64 atoi_error error_line h.write_buf h) {
          write_buf = [];
        },
        false,
      )
      else guarded (record h { write_buf = h.write_buf ++ b ∷ [] })

  unfoldable pub write : Bytes → ServerHandler → Written
  unfolding write_byte next_byte
  write [] h = (h, false)
  write (b ∷ p) h = next_byte (write p) (write_byte b h)
