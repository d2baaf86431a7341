-- ===== src/Fs/Scan/Preserved.antt =====
-- internal/io/fs/readfile_processor_optimized.go: what the filter is given of a file.
use dtail.Fs.LineContext.{LineContext}
use dtail.Fs.Filter.{Filter}
use dtail.Base.{
  suc, ℕ, ◌≤◌, ◌<◌, ◌≡◌, refl, sym, ap, ◌∙◌, true, false, List, [], ◌∷◌, ◌++◌, append-nil,
  append_assoc, none, arith, All, All-append, Bool-cases, leb, inl, inr, length, Bytes,
}
use dtail.Wire.Cut.{has_byte}
use dtail.Fs.Scan.{
  index_newline, token_length, scan_lines_with_max_length, scan_tokens, scan_pieces,
}
use dtail.Fs.Scan.Tokens.{
  concat, concat-append, scan_tokens-bytes, scan_tokens-ended, scan_tokens-rest, IsShort,
  scan_tokens-IsShort,
}

has_room :
    (max_size : ℕ) (bytes : Bytes) → length bytes < max_size → leb max_size (length bytes) ≡ false
has_room max_size bytes h = ground (arith, h)

-- The tokens are the bytes of the file, one behind the other, however the reads cut it, and the
-- scanner ends without an error: no byte is dropped, added or moved. The limit on a line is above
-- zero and at most the size of the scanner's buffer, which is not full at the start.
pub concat-scan_pieces :
    (max_size limit : ℕ) (buffered : Bytes) (pieces : List Bytes)
    → 0 < limit
    → limit ≤ max_size
    → length buffered < max_size
    → (concat ((scan_pieces max_size limit buffered pieces).0) ≡ buffered ++ concat pieces)
      × ((scan_pieces max_size limit buffered pieces).1 ≡ false)
unfolding scan_pieces
concat-scan_pieces max_size limit buffered [] l m b =
    let tokens = (scan_tokens (suc (length buffered)) limit true buffered).0 in
    rw (has_room max_size buffered b) (
      sym (append-nil (concat tokens))
          ∙ ap (λ r. concat tokens ++ r)
              (sym (scan_tokens-ended (suc (length buffered)) limit buffered l (omega arith)))
          ∙ scan_tokens-bytes (suc (length buffered)) limit true buffered
          ∙ sym (append-nil buffered),
      refl,
    )
concat-scan_pieces max_size limit buffered (piece ∷ pieces) l m b =
    let all : Bytes = buffered ++ piece in
    let r : List Bytes × Bytes = scan_tokens (suc (length all)) limit false all in
    let left : length r.1 < limit = scan_tokens-rest (suc (length all)) limit all l (omega arith) in
    let (kept, ended) = concat-scan_pieces max_size limit r.1 pieces l m (omega (arith, left)) in
    rw (has_room max_size buffered b) (
      concat-append r.0 (scan_pieces max_size limit r.1 pieces).0
          ∙ ap (λ t. concat r.0 ++ t) kept
          ∙ sym (append_assoc (concat r.0) r.1 (concat pieces))
          ∙ ap (λ t. t ++ concat pieces) (scan_tokens-bytes (suc (length all)) limit false all)
          ∙ append_assoc buffered piece (concat pieces),
      ended,
    )

is_full :
    (max_size limit : ℕ) (bytes : Bytes) (pieces : List Bytes)
    → max_size ≤ length bytes
    → scan_pieces max_size limit bytes pieces ≡ ([], true)
unfolding scan_pieces
is_full max_size limit bytes [] h = ground (arith, h)
is_full max_size limit bytes (piece ∷ pieces) h =
    let full : leb max_size (length bytes) ≡ true = ground (arith, h) in rw full refl

-- No line that the filter is given is longer than the limit and a newline, whether or not the
-- scanner ends with an error.
pub scan_pieces-IsShort :
    (max_size limit : ℕ) (buffered : Bytes) (pieces : List Bytes)
    → 0 < limit
    → All (IsShort limit) ((scan_pieces max_size limit buffered pieces).0)
unfolding scan_pieces
scan_pieces-IsShort max_size limit buffered [] l =
    elim (Bool-cases (leb max_size (length buffered))) [
      | inl full ↦ rw full tt
      | inr room ↦ rw room (scan_tokens-IsShort (suc (length buffered)) limit true buffered l)
    ]
scan_pieces-IsShort max_size limit buffered (piece ∷ pieces) l =
    let all : Bytes = buffered ++ piece in
    let r : List Bytes × Bytes = scan_tokens (suc (length all)) limit false all in
    elim (Bool-cases (leb max_size (length buffered))) [
      | inl full ↦ rw full tt
      | inr room ↦ rw room (
          All-append (IsShort limit) r.0 (scan_pieces max_size limit r.1 pieces).0
            (scan_tokens-IsShort (suc (length all)) limit false all l)
            (scan_pieces-IsShort max_size limit r.1 pieces l))
    ]

no_newline : (bytes : Bytes) → has_byte 10 bytes ≡ false → index_newline bytes ≡ none
unfolding index_newline
no_newline [] h = refl
no_newline (c ∷ bytes) h = ground (arith, h, no_newline bytes (ground (arith, h)))

no_token :
    (fuel limit : ℕ) (bytes : Bytes)
    → scan_lines_with_max_length limit bytes false ≡ none
    → scan_tokens (suc fuel) limit false bytes ≡ ([], bytes)
unfolding scan_tokens
no_token fuel limit bytes h = rw (h, scan_tokens) refl

-- A file whose first bytes fill the scanner's buffer without a newline, where a line may be longer
-- than that, is not read any further: no line is handed on, and the scanner ends with an error.
pub scan_pieces-too_long :
    (max_size limit : ℕ) (piece : Bytes) (pieces : List Bytes)
    → 0 < max_size
    → max_size ≤ length piece
    → length piece < limit
    → has_byte 10 piece ≡ false
    → scan_pieces max_size limit [] (piece ∷ pieces) ≡ ([], true)
unfolding scan_pieces
scan_pieces-too_long max_size limit piece pieces m full l clean =
    let asked : scan_lines_with_max_length limit piece false ≡ none =
      unfold scan_lines_with_max_length token_length in
      rw (no_newline piece clean) (ground (arith, l)) in
    rw (has_room max_size [] m) (
      ap
        (λ r. (
          r.0 ++ (scan_pieces max_size limit r.1 pieces).0,
          (scan_pieces max_size limit r.1 pieces).1,
        ))
        (no_token (length piece) limit piece asked)
      ∙ is_full max_size limit piece pieces full)
