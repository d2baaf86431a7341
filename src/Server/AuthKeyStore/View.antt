-- ===== src/Server/AuthKeyStore/View.antt =====
-- internal/ssh/server/authkeystore.go: the store as a function from users to entries, and what
-- each operation does to it.
use dtail.Base.{
  ℕ, ◌≡◌, refl, sym, ap, ◌∙◌, Bool, true, false, not, List, [], ◌∷◌, ◌++◌, inl, inr, str_eq_iff,
  Option, none, some, arith, if◌then◌else◌, any, select, Bytes, str_eq, is_empty, Bool-cases,
}
use dtail.Base.Maps.{lookup, lookup-insert, lookup-delete}
use dtail.Server.AuthKeyStore.{
  AuthKeyEntry, AuthKeyStore, expired, is_active, other_key, drop_user, put_user, kept_active,
  pruned, prune_expired_locked, newest, add, has, kept_remaining, removed, remove,
}

module _ (PublicKey : Type 0) (marshal : PublicKey → Bytes) where
  abbrev pub or_nil :
      Option (List (AuthKeyEntry PublicKey marshal)) → List (AuthKeyEntry PublicKey marshal)
  or_nil none = []
  or_nil (some es) = es

  -- What the store has of a user, expired entries included.
  abbrev pub entries :
      AuthKeyStore PublicKey marshal → Bytes → List (AuthKeyEntry PublicKey marshal)
  entries s user = or_nil (lookup user s.keys_by_user)

  -- The entries of a user that have not expired.
  abbrev pub active :
      AuthKeyStore PublicKey marshal → Bytes → ℕ → List (AuthKeyEntry PublicKey marshal)
  active s user now = select (is_active PublicKey marshal s now) (entries s user)

  select-active :
      (p : AuthKeyEntry PublicKey marshal → Bool) (es : List (AuthKeyEntry PublicKey marshal))
      → any p es ≡ false
      → select (λ e. not (p e)) es ≡ es
  select-active p [] h = refl
  select-active p (e ∷ es) h = ground (arith, h, select-active p es (ground (arith, h)))

  or_nil-if :
      (b : Bool) (o : Option (List (AuthKeyEntry PublicKey marshal)))
      (p : Option (List (AuthKeyEntry PublicKey marshal)))
      → or_nil (if b then o else p) ≡ (if b then or_nil o else or_nil p)
  or_nil-if true o p = refl
  or_nil-if false o p = refl

  entries-put_user :
      (s : AuthKeyStore PublicKey marshal) (u w : Bytes)
      (es : List (AuthKeyEntry PublicKey marshal))
      → entries (put_user PublicKey marshal s u es) w ≡ (if str_eq u w then es else entries s w)
  entries-put_user s u w es =
      ap or_nil (lookup-insert u w es s.keys_by_user)
      ∙ or_nil-if (str_eq u w) (some es) (lookup w s.keys_by_user)

  entries-drop_user :
      (s : AuthKeyStore PublicKey marshal) (u w : Bytes)
      → entries (drop_user PublicKey marshal s u) w ≡ (if str_eq u w then [] else entries s w)
  entries-drop_user s u w =
      ap or_nil (lookup-delete u w s.keys_by_user)
      ∙ or_nil-if (str_eq u w) none (lookup w s.keys_by_user)

  entries-kept_active :
      (s : AuthKeyStore PublicKey marshal) (u w : Bytes)
      (es : List (AuthKeyEntry PublicKey marshal))
      → entries (kept_active PublicKey marshal s u es).0 w
        ≡ (if str_eq u w then es else entries s w)
  unfolding kept_active
  entries-kept_active s u w [] = entries-drop_user s u w
  entries-kept_active s u w (e ∷ es) = entries-put_user s u w (e ∷ es)

  kept_active-entries :
      (s : AuthKeyStore PublicKey marshal) (u : Bytes) (es : List (AuthKeyEntry PublicKey marshal))
      → (kept_active PublicKey marshal s u es).1 ≡ es
  unfolding kept_active
  kept_active-entries s u [] = refl
  kept_active-entries s u (e ∷ es) = refl

  -- Only the user's own entries change.
  same_entries :
      (s : AuthKeyStore PublicKey marshal) (u w : Bytes)
      (es : List (AuthKeyEntry PublicKey marshal))
      → entries s u ≡ es
      → entries s w ≡ (if str_eq u w then es else entries s w)
  same_entries s u w es h = elim (Bool-cases (str_eq u w)) [
    | inl same ↦ rw same (ap (entries s) (sym ((str_eq_iff u w).0 same)) ∙ h)
    | inr other ↦ rw other refl
  ]

  entries-pruned :
      (s : AuthKeyStore PublicKey marshal) (u w : Bytes) (now : ℕ)
      (o : Option (List (AuthKeyEntry PublicKey marshal)))
      → lookup u s.keys_by_user ≡ o
      → entries (pruned PublicKey marshal s u now o).0 w ≡ (
          if str_eq u w then select (is_active PublicKey marshal s now) (or_nil o) else entries s w)
  entries-pruned s u w now none h = unfold pruned in entries-drop_user s u w
  entries-pruned s u w now (some []) h = unfold pruned in entries-drop_user s u w
  entries-pruned s u w now (some (e ∷ es)) h =
      unfold pruned in
      elim (Bool-cases (any (expired PublicKey marshal s now) (e ∷ es))) [
        | inl old ↦
            rw old (entries-kept_active s u w (select (is_active PublicKey marshal s now) (e ∷ es)))
        | inr fresh ↦ rw fresh (
            rw (select-active (expired PublicKey marshal s now) (e ∷ es) fresh)
              (same_entries s u w (e ∷ es) (ap or_nil h)))
      ]

  pruned-active :
      (s : AuthKeyStore PublicKey marshal) (u : Bytes) (now : ℕ)
      (o : Option (List (AuthKeyEntry PublicKey marshal)))
      → (pruned PublicKey marshal s u now o).1
        ≡ select (is_active PublicKey marshal s now) (or_nil o)
  pruned-active s u now none = unfold pruned in refl
  pruned-active s u now (some []) = unfold pruned in refl
  pruned-active s u now (some (e ∷ es)) =
      unfold pruned in
      elim (Bool-cases (any (expired PublicKey marshal s now) (e ∷ es))) [
        | inl old ↦
            rw old (kept_active-entries s u (select (is_active PublicKey marshal s now) (e ∷ es)))
        | inr fresh ↦
            rw fresh (sym (select-active (expired PublicKey marshal s now) (e ∷ es) fresh))
      ]

  pub entries-prune_expired_locked :
      (s : AuthKeyStore PublicKey marshal) (u w : Bytes) (now : ℕ)
      → entries (prune_expired_locked PublicKey marshal s u now).0 w
        ≡ (if str_eq u w then active s u now else entries s w)
  unfolding prune_expired_locked
  entries-prune_expired_locked s u w now = entries-pruned s u w now (lookup u s.keys_by_user) refl

  pub prune_expired_locked-active :
      (s : AuthKeyStore PublicKey marshal) (u : Bytes) (now : ℕ)
      → (prune_expired_locked PublicKey marshal s u now).1 ≡ active s u now
  unfolding prune_expired_locked
  prune_expired_locked-active s u now = pruned-active s u now (lookup u s.keys_by_user)

  kept_active-settings :
      (s : AuthKeyStore PublicKey marshal) (u : Bytes) (es : List (AuthKeyEntry PublicKey marshal))
      → ((kept_active PublicKey marshal s u es).0.ttl ≡ s.ttl)
        × ((kept_active PublicKey marshal s u es).0.max_keys_per_user ≡ s.max_keys_per_user)
  unfolding kept_active
  kept_active-settings s u [] = (refl, refl)
  kept_active-settings s u (e ∷ es) = (refl, refl)

  pruned-settings :
      (s : AuthKeyStore PublicKey marshal) (u : Bytes) (now : ℕ)
      (o : Option (List (AuthKeyEntry PublicKey marshal)))
      → ((pruned PublicKey marshal s u now o).0.ttl ≡ s.ttl)
        × ((pruned PublicKey marshal s u now o).0.max_keys_per_user ≡ s.max_keys_per_user)
  unfolding pruned
  pruned-settings s u now none = (refl, refl)
  pruned-settings s u now (some []) = (refl, refl)
  pruned-settings s u now (some (e ∷ es)) =
      elim (Bool-cases (any (expired PublicKey marshal s now) (e ∷ es))) [
        | inl old ↦
            rw old (kept_active-settings s u (select (is_active PublicKey marshal s now) (e ∷ es)))
        | inr fresh ↦ rw fresh (refl, refl)
      ]

  pub prune_expired_locked-settings :
      (s : AuthKeyStore PublicKey marshal) (u : Bytes) (now : ℕ)
      → ((prune_expired_locked PublicKey marshal s u now).0.ttl ≡ s.ttl)
        × ((prune_expired_locked PublicKey marshal s u now).0.max_keys_per_user
            ≡ s.max_keys_per_user)
  unfolding prune_expired_locked
  prune_expired_locked-settings s u now = pruned-settings s u now (lookup u s.keys_by_user)

  if-if :
      {A : Type 0} (b : Bool) (x y z : A)
      → (if b then x else if b then y else z) ≡ (if b then x else z)
  if-if true x y z = refl
  if-if false x y z = refl

  -- Adding a key puts it last, behind the user's other unexpired keys, and drops the oldest ones
  -- if there are too many. No other user's keys change.
  pub entries-add :
      (s : AuthKeyStore PublicKey marshal) (u w : Bytes) (key : PublicKey) (now : ℕ)
      → is_empty u ≡ false
      → entries (add PublicKey marshal s u (some key) now) w ≡ (
          if str_eq u w
          then newest PublicKey marshal s.max_keys_per_user (
              select (other_key PublicKey marshal key) (active s u now)
              ++ (record { pub_key = key; registered_at = now }) ∷ [])
          else entries s w)
  entries-add s u w key now h =
      unfold add in
      rw h (
        rw (prune_expired_locked-active s u now) (
          let es = newest PublicKey marshal s.max_keys_per_user (
            select (other_key PublicKey marshal key) (active s u now)
            ++ (record { pub_key = key; registered_at = now }) ∷ []) in
          (entries-put_user (prune_expired_locked PublicKey marshal s u now).0 u w es
            ∙ (ap (λ x. if str_eq u w then es else x) (entries-prune_expired_locked s u w now)
                ∙ if-if (str_eq u w) es (active s u now) (entries s w)))))

  -- The store after a lookup is the pruned one.
  pub entries-has :
      (s : AuthKeyStore PublicKey marshal) (u w : Bytes) (key : PublicKey) (now : ℕ)
      → is_empty u ≡ false
      → entries (has PublicKey marshal s u (some key) now).0 w
        ≡ (if str_eq u w then active s u now else entries s w)
  entries-has s u w key now h = unfold has in rw h (entries-prune_expired_locked s u w now)

  entries-kept_remaining :
      (s : AuthKeyStore PublicKey marshal) (u w : Bytes)
      (es : List (AuthKeyEntry PublicKey marshal))
      → entries (kept_remaining PublicKey marshal s u es) w
        ≡ (if str_eq u w then es else entries s w)
  unfolding kept_remaining
  entries-kept_remaining s u w [] = entries-drop_user s u w
  entries-kept_remaining s u w (e ∷ es) = entries-put_user s u w (e ∷ es)

  entries-removed :
      (s : AuthKeyStore PublicKey marshal) (u w : Bytes) (key : PublicKey)
      (t : AuthKeyStore PublicKey marshal) (es : List (AuthKeyEntry PublicKey marshal))
      → entries t w ≡ (if str_eq u w then es else entries s w)
      → entries (removed PublicKey marshal u key (t, es)) w
        ≡ (if str_eq u w then select (other_key PublicKey marshal key) es else entries s w)
  unfolding removed
  entries-removed s u w key t [] h = h
  entries-removed s u w key t (e ∷ es) h =
      let kept = select (other_key PublicKey marshal key) (e ∷ es) in
      entries-kept_remaining t u w kept
      ∙ (ap (λ x. if str_eq u w then kept else x) h
          ∙ if-if (str_eq u w) kept (e ∷ es) (entries s w))

  pub entries-remove :
      (s : AuthKeyStore PublicKey marshal) (u w : Bytes) (key : PublicKey) (now : ℕ)
      → is_empty u ≡ false
      → entries (remove PublicKey marshal s u (some key) now) w ≡ (
          if str_eq u w
          then select (other_key PublicKey marshal key) (active s u now)
          else entries s w)
  unfolding remove
  entries-remove s u w key now h = rw h (
      rw (sym (prune_expired_locked-active s u now)) (
        entries-removed s u w key (prune_expired_locked PublicKey marshal s u now).0
          (prune_expired_locked PublicKey marshal s u now).1
          (rw (prune_expired_locked-active s u now) (entries-prune_expired_locked s u w now))))

  pub has-active :
      (s : AuthKeyStore PublicKey marshal) (u : Bytes) (key : PublicKey) (now : ℕ)
      → is_empty u ≡ false
      → (has PublicKey marshal s u (some key) now).1
        ≡ any (λ e. not (other_key PublicKey marshal key e)) (active s u now)
  has-active s u key now h = unfold has in rw h (rw (prune_expired_locked-active s u now) refl)
