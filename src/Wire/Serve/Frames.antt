-- ===== src/Wire/Serve/Frames.antt =====
-- The commands that the server takes from the stream of bytes, and the limit on their size.
use mathlib.Core.Path.{fun_ext}
use dtail.Base.{
  ℕ, ◌+◌, ◌≤◌, ◌<◌, ◌≡◌, refl, sym, ap, ◌∙◌, Bool, true, false, not, ◌&&◌, ◌||◌, List, [], ◌∷◌,
  ◌++◌, append-nil, append_assoc, Option, arith, ltb, leb, ◌==◌, inl, inr, Bool-cases, length,
  length-append, Bytes,
}
use dtail.Wire.Cut.{has_byte}
use dtail.Wire.Serve.{ServerHandler, handle_command, guarded, write_byte, next_byte, write}

-- A frame fits if there is no limit, or it is not longer than the limit.
abbrev pub fits : ℕ → Bytes → Bool
fits max c = max == 0 || leb (length c) max

-- A command as it stands in the stream, without the semicolon behind it.
abbrev pub is_frame : ℕ → Bytes → Bool
is_frame max c = not (has_byte b';' c) && fits max c

abbrev pub framed : List Bytes → Bytes
framed [] = []
framed (c ∷ cs) = c ++ b';' ∷ framed cs

abbrev pub all_frames : ℕ → List Bytes → Bool
all_frames max [] = true
all_frames max (c ∷ cs) = is_frame max c && all_frames max cs

module _ (decode_base64 : Bytes → Bytes × Option Bytes) (atoi_error error_line : Bytes → Bytes)
    (max : ℕ) where
  abbrev written : Bytes → ServerHandler → ServerHandler × Bool
  written = write decode_base64 atoi_error error_line max

  -- Whatever arrives, the buffer never holds more than the limit.
  pub write-IsBounded :
      (p : Bytes) (h : ServerHandler)
      → 0 < max
      → length h.write_buf ≤ max
      → length ((write decode_base64 atoi_error error_line max p h).0.write_buf) ≤ max
  unfolding write write_byte next_byte guarded
  write-IsBounded [] h m b = b
  write-IsBounded (c ∷ p) h m b = elim (Bool-cases (c == b';')) [
    | inl e ↦ rw e (
        write-IsBounded p
          (record (handle_command decode_base64 atoi_error error_line h.write_buf h) {
            write_buf = [];
          })
          m (omega arith))
    | inr e ↦ elim (Bool-cases (ltb 0 max && ltb max (length (h.write_buf ++ c ∷ [])))) [
      | inl over ↦ rw (e, over) (omega arith)
      | inr under ↦
          rw (e, under)
            (write-IsBounded p (record h { write_buf = h.write_buf ++ c ∷ [] }) m
              (ground (arith, under, m)))
    ]
  ]

  -- Bytes of a frame that fits are kept.
  write-kept :
      (c rest : Bytes) (h : ServerHandler)
      → has_byte b';' c ≡ false
      → fits max (h.write_buf ++ c) ≡ true
      → written (c ++ rest) h ≡ written rest (record h { write_buf = h.write_buf ++ c })
  unfolding write write_byte next_byte guarded
  write-kept [] rest h clean fit = rw (append-nil h.write_buf) refl
  write-kept (b ∷ c) rest h clean fit =
      let plain : (b == b';') ≡ false = ground (arith, clean) in
      let under : (ltb 0 max && ltb max (length (h.write_buf ++ b ∷ []))) ≡ false =
        ground
          (arith, fit, length-append h.write_buf (b ∷ []), length-append h.write_buf (b ∷ c)) in
      rw (plain, under)
        (write-kept c rest (record h { write_buf = h.write_buf ++ b ∷ [] }) (ground (arith, clean))
            (rw (append_assoc h.write_buf (b ∷ []) c) fit)
          ∙ rw (append_assoc h.write_buf (b ∷ []) c) refl)

  abbrev pub handled : Bytes → ServerHandler → ServerHandler
  handled c h =
      record (handle_command decode_base64 atoi_error error_line c (record h { write_buf = c })) {
        write_buf = [];
      }

  abbrev pub handled_all : List Bytes → ServerHandler → ServerHandler
  handled_all [] h = h
  handled_all (c ∷ cs) h = handled_all cs (handled c h)

  write-frame :
      (c rest : Bytes) (h : ServerHandler)
      → is_frame max c ≡ true
      → h.write_buf ≡ []
      → written (c ++ b';' ∷ rest) h ≡ written rest (handled c h)
  write-frame c rest h f e =
      write-kept c (b';' ∷ rest) h (ground (arith, f)) (rw e (ground (arith, f)))
      ∙ rw e (unfold write write_byte next_byte in refl)

  next_byte-next_byte :
      (f g : ServerHandler → ServerHandler × Bool) (w : ServerHandler × Bool)
      → next_byte (λ h. next_byte g (f h)) w ≡ next_byte g (next_byte f w)
  unfolding next_byte
  next_byte-next_byte f g (h, true) = refl
  next_byte-next_byte f g (h, false) = refl

  pub write-append :
      (p q : Bytes) (h : ServerHandler)
      → write decode_base64 atoi_error error_line max (p ++ q) h
        ≡ next_byte (written q) (write decode_base64 atoi_error error_line max p h)
  unfolding write
  write-append [] q h = unfold next_byte in refl
  write-append (b ∷ p) q h =
      ap (λ f. next_byte f (write_byte decode_base64 atoi_error error_line max b h))
        (fun_ext (write-append p q))
      ∙ next_byte-next_byte (written p) (written q)
          (write_byte decode_base64 atoi_error error_line max b h)

  write-whole :
      (cs : List Bytes) (h : ServerHandler)
      → all_frames max cs ≡ true
      → h.write_buf ≡ []
      → written (framed cs) h ≡ (handled_all cs h, false)
  write-whole [] h f e = unfold write in refl
  write-whole (c ∷ cs) h f e =
      write-frame c (framed cs) h (ground (arith, f)) e
      ∙ write-whole cs (handled c h) (ground (arith, f)) refl

  -- A server with nothing buffered handles exactly the commands that were sent, in their order,
  -- however the stream of bytes is cut in two, if they have no semicolon and are within the limit.
  pub write-framed :
      (cs : List Bytes) (p q : Bytes) (h : ServerHandler)
      → all_frames max cs ≡ true
      → h.write_buf ≡ []
      → p ++ q ≡ framed cs
      → next_byte
          (write decode_base64 atoi_error error_line max q)
          (write decode_base64 atoi_error error_line max p h)
        ≡ (handled_all cs h, false)
  write-framed cs p q h f e cut =
      sym (write-append p q h) ∙ ap (λ s. written s h) cut ∙ write-whole cs h f e

  over_limit :
      (c : Bytes) (h : ServerHandler)
      → 0 < max
      → has_byte b';' c ≡ false
      → length h.write_buf ≤ max
      → max < length h.write_buf + length c
      → written c h ≡ (record h { write_buf = []; done = true }, true)
  unfolding write write_byte next_byte guarded
  over_limit [] h m clean b o = absurd (omega arith)
  over_limit (d ∷ c) h m clean b o =
      let plain : (d == b';') ≡ false = ground (arith, clean) in
      elim (Bool-cases (ltb 0 max && ltb max (length (h.write_buf ++ d ∷ [])))) [
        | inl over ↦ rw (plain, over) refl
        | inr under ↦
            rw (plain, under)
              (over_limit c (record h { write_buf = h.write_buf ++ d ∷ [] }) m
                (ground (arith, clean)) (ground (arith, under, m))
                (omega (arith, length-append h.write_buf (d ∷ []))))
      ]

  -- A frame longer than the limit is not handled: the session is closed, and the error returned.
  pub write-over_limit :
      (c rest : Bytes) (h : ServerHandler)
      → 0 < max
      → has_byte b';' c ≡ false
      → h.write_buf ≡ []
      → max < length c
      → write decode_base64 atoi_error error_line max (c ++ rest) h
        ≡ (record h { write_buf = []; done = true }, true)
  write-over_limit c rest h m clean e o =
      write-append c rest h
      ∙ rw (over_limit c h m clean (rw e (omega arith)) (rw e (omega (arith, o))))
          (unfold next_byte in refl)
