-- ===== src/Fs/Scan.antt =====
-- internal/io/fs/readfile_processor_optimized.go: how the bytes of a file become lines, up to the
-- filter. A split function looks at the bytes that are buffered; bufio.Scanner calls it on them, takes
-- the token off and reads on when there is none. The context is not cancelled, and the warning
-- about a long line, which is a message to the user, is left out.
pub mod Tokens
pub mod Preserved
use dtail.Base.{
  ℕ, zero, suc, ◌+◌, ◌≡◌, refl, Bool, true, false, not, ◌&&◌, ◌||◌, List, [], ◌∷◌, ◌++◌, Option,
  none, some, ltb, leb, ◌==◌, if◌then◌else◌, length, take, drop, is_empty, Bytes, ℤ, is_positive,
  pos_part,
}
use dtail.Fs.LineContext.{LineContext}
use dtail.Fs.Filter.{Processor, Filter, Outcome, more, stopped, failed, read_lines}

abbrev pub default_max_line_length : ℕ
default_max_line_length = 1048576

unfoldable pub line_limit : ℤ → ℕ
line_limit max_line_length =
    if is_positive max_line_length then pos_part max_line_length else default_max_line_length

-- bytes.IndexByte of a newline
unfoldable pub index_newline : Bytes → Option ℕ
index_newline [] = none
index_newline (c ∷ s) = elim (c == 10) [
  | true ↦ some 0
  | false ↦ elim (index_newline s) [ none ↦ none | some i ↦ some (suc i) ]
]

-- How many of the buffered bytes are the next token, by where the first newline is.
unfoldable pub token_length : ℕ → Bytes → Bool → Option ℕ → Option ℕ
token_length limit bytes at_eof (some i) = if ltb limit i then some limit else some (suc i)
token_length limit bytes true none =
    if ltb limit (length bytes) then some limit else some (length bytes)
token_length limit bytes false none = if leb limit (length bytes) then some limit else none

-- scanLinesWithMaxLength, and scanLinesPreserveEndings, which does not warn: the number of bytes to
-- advance by, which are the token, or a request for more.
unfoldable pub scan_lines_with_max_length : ℕ → Bytes → Bool → Option ℕ
unfolding token_length
scan_lines_with_max_length limit bytes at_eof =
    if at_eof && is_empty bytes then none else token_length limit bytes at_eof (index_newline bytes)

-- The tokens of what is buffered, and what is left of it.
unfoldable pub scan_tokens : ℕ → ℕ → Bool → Bytes → List Bytes × Bytes
scan_tokens zero limit at_eof bytes = ([], bytes)
scan_tokens (suc fuel) limit at_eof bytes = elim (scan_lines_with_max_length limit bytes at_eof) [
  | none ↦ ([], bytes)
  | some n ↦
      let (tokens, rest) = scan_tokens fuel limit at_eof (drop n bytes) in
      (take n bytes ∷ tokens, rest)
]

-- bufio.Scanner, with a buffer of at most max_token_size bytes, on the pieces that its reads return,
-- each of them what the buffer has room for: the tokens of the input, and whether it ended with
-- bufio.ErrTooLong, since more was asked for and the buffer was full. As many rounds as there are
-- bytes, and one more, are enough.
unfoldable pub scan_pieces : ℕ → ℕ → Bytes → List Bytes → List Bytes × Bool
unfolding scan_tokens
scan_pieces max_token_size limit buffered [] =
    if leb max_token_size (length buffered)
    then ([], true)
    else ((scan_tokens (suc (length buffered)) limit true buffered).0, false)
scan_pieces max_token_size limit buffered (piece ∷ pieces) =
    let (tokens, rest) =
      scan_tokens (suc (length (buffered ++ piece))) limit false (buffered ++ piece) in
    let (more_tokens, too_long) = scan_pieces max_token_size limit rest pieces in
    if leb max_token_size (length buffered) then ([], true) else (tokens ++ more_tokens, too_long)

abbrev pub max_token_size : ℕ
max_token_size = 1048576

-- The scanner's error, or one of the processor.
pub data ReadError (E : Type 0) : Type 0 where
  err_too_long : ReadError E
  processor_error : E → ReadError E

-- What the loop returns. isEarlyStop: the io.EOF of a maximal number of matches is no error, and
-- the scanner's error is looked at only where the filter has not ended the loop.
unfoldable pub reported : {E : Type 0} → Outcome E → Bool → Option (ReadError E)
reported more true = some err_too_long
reported more false = none
reported stopped too_long = none
reported (failed e) too_long = some (processor_error e)

-- The loop of readWithProcessorOptimized.
unfoldable pub read_with_processor_optimized :
    {P E : Type 0}
    → Processor P E
    → Bytes
    → LineContext
    → (Bytes → Bool)
    → ℤ
    → List Bytes
    → Filter P
    → Filter P × Option (ReadError E)
unfolding scan_pieces line_limit reported
read_with_processor_optimized io glob_id ltx matches max_line_length pieces f =
    let (lines, too_long) = scan_pieces max_token_size (line_limit max_line_length) [] pieces in
    let (g, outcome) = read_lines io ltx glob_id matches f lines in (g, reported outcome too_long)
