-- ===== src/Mapr/Token/Consume.antt =====
-- What internal/mapr/token.go leaves for the next clause.
use dtail.Base.{
  ℕ, ◌≤◌, ◌≡◌, refl, ap, true, false, List, length-append, suc, ◌-◌, drop, ◌∙◌, [], ◌∷◌, ◌++◌,
  arith, length, any, take, ◌==◌, get_or, Bytes,
}
use dtail.Mapr.Token.{
  Token, is_keyword, is_escaped, consume_one, tokens_consume, tokens_consume_optional,
}

-- The tokens that a clause leaves are none, or begin with a keyword.
abbrev pub StartsClause : List Token → Type 0
StartsClause [] = Unit {0}
StartsClause (t ∷ _) = is_keyword t ≡ true

-- What a clause is given of its tokens: nothing of an empty one, a name without the backquotes
-- around it, and any other that does not begin with a backquote as it is.
pub data Given : List Token → List Token → Type 0 where
  end : Given [] []
  empty : (t : Token) {ts us : List Token} → t.str ≡ [] → Given ts us → Given (t ∷ ts) us
  quoted :
      (t : Token) (name : Bytes) {ts us : List Token}
      → t.str ≡ (b'`' ∷ (name ++ b'`' ∷ []))
      → Given ts us
      → Given (t ∷ ts) ((record t { str = name; quotes_stripped = true }) ∷ us)
  plain :
      (t : Token) (c : ℕ) (s : Bytes) {ts us : List Token}
      → t.str ≡ c ∷ s
      → (c == b'`') ≡ false
      → Given ts us
      → Given (t ∷ ts) (t ∷ us)

consume_one-empty : (t : Token) → t.str ≡ [] → consume_one t ≡ []
unfolding consume_one
consume_one-empty t h = rw h refl

get_or-last : (s : Bytes) (c : ℕ) → get_or (s ++ c ∷ []) (length s) 0 ≡ c
get_or-last [] c = refl
get_or-last (d ∷ s) c = get_or-last s c

take-front : (s : Bytes) (c : ℕ) → take (length s) (s ++ c ∷ []) ≡ s
take-front [] c = refl
take-front (d ∷ s) c = ap (λ r. d ∷ r) (take-front s c)

consume_one-quoted :
    (t : Token) (name : Bytes)
    → t.str ≡ (b'`' ∷ (name ++ b'`' ∷ []))
    → consume_one t ≡ (record t { str = name; quotes_stripped = true }) ∷ []
unfolding consume_one is_escaped
consume_one-quoted t name h =
    let text : Bytes = b'`' ∷ (name ++ b'`' ∷ []) in
    let len : length text ≡ suc (suc (length name)) =
      omega (arith, length-append name (b'`' ∷ [])) in
    let at_end : length text - 1 ≡ suc (length name) = omega (arith, len) in
    let within : length text - 2 ≡ length name = omega (arith, len) in
    let closing : get_or text (length text - 1) 0 ≡ b'`' =
      ap (λ i. get_or text i 0) at_end ∙ get_or-last name b'`' in
    let inner : take (length text - 2) (drop 1 text) ≡ name =
      ap (λ n. take n (name ++ b'`' ∷ [])) within ∙ take-front name b'`' in
    rw h (rw (closing, inner) (ground (arith, len)))

consume_one-plain :
    (t : Token) (c : ℕ) (s : Bytes) → t.str ≡ c ∷ s → (c == b'`') ≡ false → consume_one t ≡ t ∷ []
unfolding consume_one is_escaped
consume_one-plain t c s h other = rw (h, other) (ground (arith, h))

others : (t : Token) (ts : List Token) → any is_keyword (t ∷ ts) ≡ false → any is_keyword ts ≡ false
others t ts h = ground (arith, h)

step :
    (t : Token) (clause rest : List Token) {one given : List Token}
    → any is_keyword (t ∷ clause) ≡ false
    → consume_one t ≡ one
    → tokens_consume (clause ++ rest) ≡ (rest, given)
    → tokens_consume (t ∷ (clause ++ rest)) ≡ (rest, one ++ given)
unfolding tokens_consume
step t clause rest h e r = let no : is_keyword t ≡ false = ground (arith, h) in rw (no, e, r) refl

-- The tokens of a clause are consumed up to the next keyword or the end, and the rest, which begins
-- with that keyword, is left as it is: the clause is given its tokens in their order, without the
-- empty ones and with a name between backquotes freed of them. The clause's tokens are not keywords,
-- and each is empty, a name between backquotes or begins with no backquote.
pub tokens_consume-Given :
    (clause rest : List Token) {given : List Token}
    → any is_keyword clause ≡ false
    → StartsClause rest
    → Given clause given
    → tokens_consume (clause ++ rest) ≡ (rest, given)
unfolding tokens_consume
tokens_consume-Given [] [] h k end = refl
tokens_consume-Given [] (r ∷ rest) h k end = rw k refl
tokens_consume-Given (t ∷ clause) rest h k (empty _ e g) =
    step t clause rest h (consume_one-empty t e)
      (tokens_consume-Given clause rest (others t clause h) k g)
tokens_consume-Given (t ∷ clause) rest h k (quoted _ name e g) =
    step t clause rest h (consume_one-quoted t name e)
      (tokens_consume-Given clause rest (others t clause h) k g)
tokens_consume-Given (t ∷ clause) rest h k (plain _ c s e other g) =
    step t clause rest h (consume_one-plain t c s e other)
      (tokens_consume-Given clause rest (others t clause h) k g)

pub length-tokens_consume : (ts : List Token) → length (tokens_consume ts).0 ≤ length ts
unfolding tokens_consume
length-tokens_consume [] = omega arith
length-tokens_consume (t ∷ ts) = ground (arith, length-tokens_consume ts)

pub length-tokens_consume_optional :
    (ts : List Token) (optional : Bytes) → length (tokens_consume_optional ts optional) ≤ length ts
unfolding tokens_consume_optional
length-tokens_consume_optional [] optional = omega arith
length-tokens_consume_optional (t ∷ ts) optional = ground arith
