-- ===== src/Wire/Receive/Lines.antt =====
-- What the client shows of the lines that the server formats.
use dtail.Base.{
  ℕ, ◌≡◌, refl, sym, ap, ◌∙◌, Bool, true, false, List, [], ◌∷◌, ◌++◌, append-nil, append_assoc,
  arith, any, Bytes,
}
use dtail.Wire.Cut.{has_byte}
use dtail.Wire.Format.{message_delimiter, format_remote_header, format_remote_line}
use dtail.Wire.Receive.{
  ClientHandler, AuthKeyMessage, Logged, raw, log, with_newline, handle_message, is_hidden, shown,
  write, parse_auth_key_message, no_auth_key, auth_key_ok, auth_key_err,
}
use dtail.Wire.Receive.Frames.{framed, received, received_all, write-framed}

pub record RemoteLine : Type 0 where
  pub line_num : ℕ
  pub source_id : Bytes
  pub content : Bytes

abbrev pub is_auth_key : AuthKeyMessage → Bool
is_auth_key no_auth_key = false
is_auth_key auth_key_ok = true
is_auth_key (auth_key_err _) = true

module _ (hostname transmitted_perc : Bytes) where
  -- The message of a line, without its delimiter.
  abbrev pub text : RemoteLine → Bytes
  text l = format_remote_header [] hostname transmitted_perc l.line_num l.source_id ++ l.content

  abbrev pub texts : List RemoteLine → List Bytes
  texts [] = []
  texts (l ∷ ls) = text l ∷ texts ls

  -- The lines formatted into the server's buffer, one behind the other.
  abbrev pub formatted : Bytes → List RemoteLine → Bytes
  formatted buf [] = buf
  formatted buf (l ∷ ls) =
      formatted (format_remote_line buf hostname transmitted_perc l.line_num l.source_id l.content)
        ls

  format_remote_line-text :
      (buf : Bytes) (l : RemoteLine)
      → format_remote_line buf hostname transmitted_perc l.line_num l.source_id l.content
        ≡ buf ++ (text l ++ message_delimiter ∷ [])
  unfolding format_remote_line format_remote_header
  format_remote_line-text buf l = simp (append_assoc)

  formatted-framed :
      (buf : Bytes) (ls : List RemoteLine) → formatted buf ls ≡ buf ++ framed (texts ls)
  formatted-framed buf [] = sym (append-nil buf)
  formatted-framed buf (l ∷ ls) =
      formatted-framed
        (format_remote_line buf hostname transmitted_perc l.line_num l.source_id l.content) ls
      ∙ rw (format_remote_line-text buf l) (
          append_assoc buf (text l ++ message_delimiter ∷ []) (framed (texts ls))
          ∙ ap (λ s. buf ++ s) (append_assoc (text l) (message_delimiter ∷ []) (framed (texts ls))))

  abbrev pub shown_lines : List RemoteLine → List Logged
  shown_lines [] = []
  shown_lines (l ∷ ls) = raw (with_newline (text l)) ∷ shown_lines ls

  module _ (encode_base64 : Bytes → Bytes) (takes : ClientHandler → Bytes → Bool) where
    shown-plain :
        (a : AuthKeyMessage) (m : Bytes) (h : ClientHandler)
        → is_auth_key a ≡ false
        → shown encode_base64 takes a m h ≡ log (raw (with_newline m)) h
    unfolding shown
    shown-plain no_auth_key m h plain = refl
    shown-plain auth_key_ok m h plain = cc
    shown-plain (auth_key_err _) m h plain = cc

    handle_message-shown :
        (m : Bytes) (h : ClientHandler)
        → is_hidden m ≡ false
        → is_auth_key (parse_auth_key_message m) ≡ false
        → handle_message encode_base64 takes m h ≡ log (raw (with_newline m)) h
    unfolding handle_message
    handle_message-shown m h visible plain =
        rw visible (shown-plain (parse_auth_key_message m) m h plain)

    is_hidden-text : (l : RemoteLine) → is_hidden (text l) ≡ false
    unfolding format_remote_header
    is_hidden-text l = refl

    received-text :
        (l : RemoteLine) (h : ClientHandler)
        → is_auth_key (parse_auth_key_message (text l)) ≡ false
        → h.receive_buf ≡ []
        → received encode_base64 takes (text l) h ≡ log (raw (with_newline (text l))) h
    received-text l h plain e =
        rw
          (
            handle_message-shown (text l) (record h { receive_buf = text l }) (is_hidden-text l)
                plain,
            sym e,
          )
          refl

    received_all-texts :
        (ls : List RemoteLine) (h : ClientHandler)
        → any (λ t. is_auth_key (parse_auth_key_message t)) (texts ls) ≡ false
        → h.receive_buf ≡ []
        → received_all encode_base64 takes (texts ls) h
          ≡ record h { logged = h.logged ++ shown_lines ls }
    received_all-texts [] h plain e = rw (append-nil h.logged) refl
    received_all-texts (l ∷ ls) h plain e =
        ap (received_all encode_base64 takes (texts ls))
          (received-text l h (ground (arith, plain)) e)
        ∙ received_all-texts ls (log (raw (with_newline (text l))) h) (ground (arith, plain)) e
        ∙ rw (append_assoc h.logged (raw (with_newline (text l)) ∷ []) (shown_lines ls)) refl

    -- The lines that the server formats are shown one by one, in order, each with its header, by a
    -- client with nothing buffered, however the stream of bytes is cut in two, if neither a line nor
    -- the names before it have the delimiter's byte and none reads like an answer to an AUTHKEY
    -- command. Nothing else of the client changes.
    pub write-formatted :
        (ls : List RemoteLine) (p q : Bytes) (h : ClientHandler)
        → any (has_byte message_delimiter) (texts ls) ≡ false
        → any (λ t. is_auth_key (parse_auth_key_message t)) (texts ls) ≡ false
        → h.receive_buf ≡ []
        → p ++ q ≡ formatted [] ls
        → write encode_base64 takes q (write encode_base64 takes p h)
          ≡ record h { logged = h.logged ++ shown_lines ls }
    write-formatted ls p q h clean plain e cut =
        write-framed encode_base64 takes (texts ls) p q h clean e (cut ∙ formatted-framed [] ls)
        ∙ received_all-texts ls h plain e
