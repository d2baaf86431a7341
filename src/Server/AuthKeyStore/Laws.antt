-- ===== src/Server/AuthKeyStore/Laws.antt =====
-- internal/ssh/server/authkeystore.go: what a client of the store can count on.
use dtail.Base.{
  ℕ, zero, suc, ◌+◌, ◌-◌, ◌≤◌, ◌<◌, ◌≡◌, refl, ◌∙◌, inl, inr, Bool, true, false, not, List, [], ◌∷◌,
  ◌++◌, some, arith, ltb, if◌then◌else◌, any, length, length-append, length-drop, drop, select,
  Bytes, str_eq_refl, is_empty, Bool-cases,
}
use dtail.Server.AuthKeyStore.{
  AuthKeyEntry, AuthKeyStore, expired, is_active, other_key, newest, add, has, remove,
}
use dtail.Server.AuthKeyStore.View.{
  entries, active, prune_expired_locked-settings, entries-remove, has-active,
}

module _ {A : Type 0} where
  pub drop-append : (n : ℕ) (xs ys : List A) → n ≤ length xs → drop n (xs ++ ys) ≡ (drop n xs ++ ys)
  drop-append zero xs ys h = refl
  drop-append (suc n) [] ys h = ground (arith, h)
  drop-append (suc n) (x ∷ xs) ys h = drop-append n xs ys (omega arith)

  pub select-append :
      (p : A → Bool) (xs ys : List A) → select p (xs ++ ys) ≡ (select p xs ++ select p ys)
  select-append p [] ys = refl
  select-append p (x ∷ xs) ys = ground (arith, select-append p xs ys)

  -- The last element passes, so the selection is not without it.
  any-select-last :
      (p q : A → Bool) (xs : List A) (x : A)
      → p x ≡ true
      → q x ≡ true
      → any p (select q (xs ++ x ∷ [])) ≡ true
  any-select-last p q [] x hp hq = ground (arith, hp, hq)
  any-select-last p q (y ∷ xs) x hp hq = ground (arith, any-select-last p q xs x hp hq)

  any-select-none : (p q : A → Bool) (xs : List A) → any p xs ≡ false → any p (select q xs) ≡ false
  any-select-none p q [] h = refl
  any-select-none p q (x ∷ xs) h = ground (arith, h, any-select-none p q xs (ground (arith, h)))

  any-select-not : (p : A → Bool) (xs : List A) → any (λ x. not (p x)) (select p xs) ≡ false
  any-select-not p [] = refl
  any-select-not p (x ∷ xs) = ground (arith, any-select-not p xs)

module _ (PublicKey : Type 0) (marshal : PublicKey → Bytes) where
  pub newest-last :
      (n : ℕ) (es : List (AuthKeyEntry PublicKey marshal)) (e : AuthKeyEntry PublicKey marshal)
      → 0 < n
      → newest PublicKey marshal n (es ++ e ∷ []) ≡ (
          (if ltb n (length (es ++ e ∷ [])) then drop (length (es ++ e ∷ []) - n) es else es)
          ++ e ∷ [])
  unfolding newest
  newest-last n es e h = elim (Bool-cases (ltb n (length (es ++ e ∷ [])))) [
    | inl long ↦ rw long (
        drop-append (length (es ++ e ∷ []) - n) es (e ∷ [])
          (omega (arith, length-append es (e ∷ []))))
    | inr short ↦ rw short refl
  ]

  pub length-newest :
      (n : ℕ) (es : List (AuthKeyEntry PublicKey marshal))
      → length (newest PublicKey marshal n es) ≤ n
  unfolding newest
  length-newest n es = ground (arith, length-drop (length es - n) es)

  add-settings :
      (s : AuthKeyStore PublicKey marshal) (u : Bytes) (key : PublicKey) (now : ℕ)
      → is_empty u ≡ false
      → (add PublicKey marshal s u (some key) now).ttl ≡ s.ttl
  unfolding add
  add-settings s u key now h = rw h (prune_expired_locked-settings PublicKey marshal s u now).0

  pub same_key :
      (e : AuthKeyEntry PublicKey marshal) → not (other_key PublicKey marshal e.pub_key e) ≡ true
  unfolding other_key
  same_key e = rw (str_eq_refl (marshal e.pub_key)) refl

  pub still_active :
      (t : AuthKeyStore PublicKey marshal) (e : AuthKeyEntry PublicKey marshal) (later : ℕ)
      → later < e.registered_at + t.ttl
      → is_active PublicKey marshal t later e ≡ true
  unfolding expired
  still_active t e later h = ground (arith, h)

  -- A key that was removed for a named user is not there, at any time.
  pub has-remove :
      (s : AuthKeyStore PublicKey marshal) (u : Bytes) (key : PublicKey) (now later : ℕ)
      → is_empty u ≡ false
      → (has PublicKey marshal (remove PublicKey marshal s u (some key) now) u (some key) later).1
        ≡ false
  has-remove s u key now later hu =
      has-active PublicKey marshal (remove PublicKey marshal s u (some key) now) u key later hu
      ∙ any-select-none (λ e. not (other_key PublicKey marshal key e))
          (is_active PublicKey marshal (remove PublicKey marshal s u (some key) now) later)
          (entries PublicKey marshal (remove PublicKey marshal s u (some key) now) u)
          (rw (entries-remove PublicKey marshal s u u key now hu, str_eq_refl u)
            (any-select-not (other_key PublicKey marshal key) (active PublicKey marshal s u now)))
