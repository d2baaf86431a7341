-- ===== src/Wire/Request/Dispatched.antt =====
-- From the commands of the client to what the server dispatches.
use dtail.Base.{
  ℕ, ◌≡◌, refl, sym, ap, ◌∙◌, Bool, true, false, List, [], ◌∷◌, ◌++◌, append_assoc, Option, All,
  take, drop, take-drop, Bytes,
}
use dtail.Wire.Receive.{command_frame}
use dtail.Wire.Serve.{ServerHandler, next_byte, write}
use dtail.Wire.Serve.Commands.{IsCarried, dispatched_all, sent, write-sent}
use dtail.Wire.Request.{Reading, handed, at_eof, waiting, consume_command, read}

abbrev concat : List Bytes → Bytes
concat [] = []
concat (s ∷ ss) = s ++ concat ss

-- What calls of Read have returned, the pending command, and the commands that are left.
pub record Transfer : Type 0 where
  pub bytes : Bytes
  pub pending : Bytes
  pub commands : List Bytes

next_read : (Bytes → List Bytes → Transfer) → Bytes → List Bytes → Reading → Transfer
next_read rest pending commands (handed bytes left later) =
    let t = rest left later in record t { bytes = bytes ++ t.bytes }
next_read rest pending commands at_eof = record {
  bytes = [];
  pending = pending;
  commands = commands;
}
next_read rest pending commands waiting = record {
  bytes = [];
  pending = pending;
  commands = commands;
}

-- Calls of Read with the given room, until one does not return any bytes.
unfoldable pub read_all : List ℕ → Bool → Bytes → List Bytes → Transfer
unfolding next_read
read_all [] done pending commands = record { bytes = []; pending = pending; commands = commands }
read_all (size ∷ sizes) done pending commands =
    next_read (read_all sizes done) pending commands (read size done pending commands)

abbrev pub outstanding : Transfer → Bytes
outstanding t = t.pending ++ concat t.commands

abbrev total : Transfer → Bytes
total t = t.bytes ++ outstanding t

-- What a call hands over and leaves is what there was.
abbrev Keeps : Bytes → Reading → Type 0
Keeps b (handed bytes left later) = bytes ++ (left ++ concat later) ≡ b
Keeps b at_eof = Unit {0}
Keeps b waiting = Unit {0}

consume-Keeps :
    (size : ℕ) (command : Bytes) (commands : List Bytes)
    → Keeps (command ++ concat commands) (consume_command size command commands)
unfolding consume_command
consume-Keeps size command commands =
    sym (append_assoc (take size command) (drop size command) (concat commands))
    ∙ ap (λ b. b ++ concat commands) (take-drop size command)

read-Keeps :
    (size : ℕ) (done : Bool) (pending : Bytes) (commands : List Bytes)
    → Keeps (pending ++ concat commands) (read size done pending commands)
unfolding read
read-Keeps size done (b ∷ pending) commands = consume-Keeps size (b ∷ pending) commands
read-Keeps size done [] (command ∷ commands) = consume-Keeps size command commands
read-Keeps size true [] [] = tt
read-Keeps size false [] [] = tt

next_read-total :
    (rest : Bytes → List Bytes → Transfer) (pending : Bytes) (commands : List Bytes) (r : Reading)
    → ((p : Bytes) (cs : List Bytes) → total (rest p cs) ≡ p ++ concat cs)
    → Keeps (pending ++ concat commands) r
    → total (next_read rest pending commands r) ≡ pending ++ concat commands
unfolding next_read
next_read-total rest pending commands (handed bytes left later) ih kept =
    append_assoc bytes (rest left later).bytes (outstanding (rest left later))
    ∙ ap (λ b. bytes ++ b) (ih left later)
    ∙ kept
next_read-total rest pending commands at_eof ih kept = refl
next_read-total rest pending commands waiting ih kept = refl

read_all-total :
    (sizes : List ℕ) (done : Bool) (pending : Bytes) (commands : List Bytes)
    → total (read_all sizes done pending commands) ≡ pending ++ concat commands
unfolding read_all
read_all-total [] done pending commands = refl
read_all-total (size ∷ sizes) done pending commands =
    next_read-total (read_all sizes done) pending commands (read size done pending commands)
      (read_all-total sizes done) (read-Keeps size done pending commands)

module _ (encode_base64 : Bytes → Bytes) (decode_base64 : Bytes → Bytes × Option Bytes)
    (atoi_error error_line : Bytes → Bytes) where
  -- The frames of SendMessage.
  abbrev pub frames : List Bytes → List Bytes
  frames [] = []
  frames (c ∷ cs) = command_frame (encode_base64 c) ∷ frames cs

  concat-frames :
      (cs : List Bytes)
      → concat (frames cs) ≡ sent encode_base64 decode_base64 atoi_error error_line cs
  concat-frames [] = refl
  concat-frames (c ∷ cs) = ap (λ b. command_frame (encode_base64 c) ++ b) (concat-frames cs)

  -- Whatever room the calls of the client's Read have, a server with nothing buffered that is given
  -- the bytes they return, and then those that are still outstanding, dispatches exactly the commands
  -- that the client sent, in their order and each split into its words, if the server's limit has
  -- room for each, its decoder undoes the client's encoder and base64 text has no space and no
  -- semicolon.
  pub next_byte-read_all :
      (max : ℕ) (cs : List Bytes) (sizes : List ℕ) (done : Bool) (h : ServerHandler)
      → All (IsCarried encode_base64 decode_base64 atoi_error error_line max) cs
      → h.write_buf ≡ []
      → next_byte
          (write decode_base64 atoi_error error_line max
            (outstanding (read_all sizes done [] (frames cs))))
          (write decode_base64 atoi_error error_line max
            (read_all sizes done [] (frames cs)).bytes
            h)
        ≡ (dispatched_all encode_base64 decode_base64 atoi_error error_line cs h, false)
  next_byte-read_all max cs sizes done h carried empty =
      write-sent encode_base64 decode_base64 atoi_error error_line max cs
        (read_all sizes done [] (frames cs)).bytes
        (outstanding (read_all sizes done [] (frames cs))) h carried empty
        (read_all-total sizes done [] (frames cs) ∙ concat-frames cs)
