-- ===== src/Wire/Request.antt =====
-- basehandler.go of internal/clients/handlers: Read, which hands the client's commands to the
-- server. The commands are those that calls of SendMessage hold ready, in the order in which the
-- channel gives them.
pub mod Dispatched
use dtail.Base.{ℕ, Bool, true, false, List, [], ◌∷◌, ◌++◌, take, drop, Bytes}

-- A call of Read: the bytes it returns, with pendingCommand and the commands that are left; io.EOF,
-- since Done() is closed; or it waits.
pub data Reading : Type 0 where
  handed : Bytes → Bytes → List Bytes → Reading
  at_eof : Reading
  waiting : Reading

-- consumeCommand, into a slice of so many bytes.
unfoldable pub consume_command : ℕ → Bytes → List Bytes → Reading
consume_command size command commands = handed (take size command) (drop size command) commands

unfoldable pub read : ℕ → Bool → Bytes → List Bytes → Reading
unfolding consume_command
read size done (b ∷ pending) commands = consume_command size (b ∷ pending) commands
read size done [] (command ∷ commands) = consume_command size command commands
read size true [] [] = at_eof
read size false [] [] = waiting
