-- ===== src/Server/AuthKeyStore/Bounds.antt =====
-- internal/ssh/server/authkeystore.go: the number of keys that a user can have in the cache.
use dtail.Base.{
  ℕ, ◌≤◌, ◌<◌, ◌≡◌, refl, ◌∙◌, inl, inr, false, List, [], ◌∷◌, ◌++◌, Option, none, some, arith,
  if◌then◌else◌, length, length-select, select, Bytes, str_eq, is_empty, Bool-cases, ℤ,
}
use dtail.Base.Maps.{lookup}
use dtail.Server.AuthKeyStore.{
  AuthKeyEntry, AuthKeyStore, new_auth_key_store, is_active, other_key, prune_expired_locked,
  newest, add, has, kept_remaining, removed, remove,
}
use dtail.Server.AuthKeyStore.View.{
  entries, active, prune_expired_locked-settings, entries-add, entries-has, entries-remove,
}
use dtail.Server.AuthKeyStore.Laws.{length-newest}

module _ (PublicKey : Type 0) (marshal : PublicKey → Bytes) where
  -- The stores that a server can have, by the operations that it has called.
  pub data Reachable : AuthKeyStore PublicKey marshal → Type 0 where
    created : (ttl max_keys : ℤ) → Reachable (new_auth_key_store PublicKey marshal ttl max_keys)
    added :
        (s : AuthKeyStore PublicKey marshal) (u : Bytes) (key : Option PublicKey) (now : ℕ)
        → Reachable s
        → Reachable (add PublicKey marshal s u key now)
    looked_up :
        (s : AuthKeyStore PublicKey marshal) (u : Bytes) (key : Option PublicKey) (now : ℕ)
        → Reachable s
        → Reachable (has PublicKey marshal s u key now).0
    taken_out :
        (s : AuthKeyStore PublicKey marshal) (u : Bytes) (key : Option PublicKey) (now : ℕ)
        → Reachable s
        → Reachable (remove PublicKey marshal s u key now)

  pub record IsBounded (s : AuthKeyStore PublicKey marshal) : Type 0 where
    pub some_time : 0 < s.ttl
    pub some_key : 0 < s.max_keys_per_user
    pub few_keys : (user : Bytes) → length (entries PublicKey marshal s user) ≤ s.max_keys_per_user

  -- A store with the settings of a bounded one, in which the entries of one user changed.
  one_user-IsBounded :
      (s t : AuthKeyStore PublicKey marshal) (u : Bytes)
      (es : List (AuthKeyEntry PublicKey marshal))
      → IsBounded s
      → (t.ttl ≡ s.ttl) × (t.max_keys_per_user ≡ s.max_keys_per_user)
      → length es ≤ s.max_keys_per_user
      → ((w : Bytes)
          → entries PublicKey marshal t w
            ≡ (if str_eq u w then es else entries PublicKey marshal s w))
      → IsBounded t
  one_user-IsBounded s t u es v (same_ttl, same_max) few es_of = record {
    some_time = rw same_ttl v.some_time;
    some_key = rw same_max v.some_key;
    few_keys = λ w. elim (Bool-cases (str_eq u w)) [
      | inl same ↦ rw (es_of w, same, same_max) few
      | inr other ↦ rw (es_of w, other, same_max) (v.few_keys w)
    ];
  }

  created-IsBounded :
      (ttl max_keys : ℤ) → IsBounded (new_auth_key_store PublicKey marshal ttl max_keys)
  unfolding new_auth_key_store
  created-IsBounded ttl max_keys = record {
    some_time = ground arith;
    some_key = ground arith;
    few_keys = λ w. unfold lookup in ground arith;
  }

  length-active :
      (s : AuthKeyStore PublicKey marshal) (u : Bytes) (now : ℕ)
      → IsBounded s
      → length (active PublicKey marshal s u now) ≤ s.max_keys_per_user
  length-active s u now v = omega (
    arith,
    length-select (is_active PublicKey marshal s now) (entries PublicKey marshal s u),
    v.few_keys u,
  )

  pub add-settings :
      (s : AuthKeyStore PublicKey marshal) (u : Bytes) (key : PublicKey) (now : ℕ)
      → is_empty u ≡ false
      → ((add PublicKey marshal s u (some key) now).ttl ≡ s.ttl)
        × ((add PublicKey marshal s u (some key) now).max_keys_per_user ≡ s.max_keys_per_user)
  unfolding add
  add-settings s u key now h = rw h (prune_expired_locked-settings PublicKey marshal s u now)

  add-IsBounded :
      (s : AuthKeyStore PublicKey marshal) (u : Bytes) (key : Option PublicKey) (now : ℕ)
      → IsBounded s
      → IsBounded (add PublicKey marshal s u key now)
  add-IsBounded s u none now v = unfold add in v
  add-IsBounded s u (some key) now v = elim (Bool-cases (is_empty u)) [
    | inl nobody ↦ unfold add in rw nobody v
    | inr user ↦
        let es = newest PublicKey marshal s.max_keys_per_user (
          select (other_key PublicKey marshal key) (active PublicKey marshal s u now)
          ++ (record { pub_key = key; registered_at = now }) ∷ []) in
        one_user-IsBounded s (add PublicKey marshal s u (some key) now) u es v
          (add-settings s u key now user) (length-newest PublicKey marshal s.max_keys_per_user _)
          (λ w. entries-add PublicKey marshal s u w key now user)
  ]

  pub has-settings :
      (s : AuthKeyStore PublicKey marshal) (u : Bytes) (key : PublicKey) (now : ℕ)
      → is_empty u ≡ false
      → ((has PublicKey marshal s u (some key) now).0.ttl ≡ s.ttl)
        × ((has PublicKey marshal s u (some key) now).0.max_keys_per_user ≡ s.max_keys_per_user)
  unfolding has
  has-settings s u key now h = rw h (prune_expired_locked-settings PublicKey marshal s u now)

  has-IsBounded :
      (s : AuthKeyStore PublicKey marshal) (u : Bytes) (key : Option PublicKey) (now : ℕ)
      → IsBounded s
      → IsBounded (has PublicKey marshal s u key now).0
  has-IsBounded s u none now v = unfold has in v
  has-IsBounded s u (some key) now v = elim (Bool-cases (is_empty u)) [
    | inl nobody ↦ unfold has in rw nobody v
    | inr user ↦
        one_user-IsBounded s (has PublicKey marshal s u (some key) now).0 u
          (active PublicKey marshal s u now) v (has-settings s u key now user)
          (length-active s u now v) (λ w. entries-has PublicKey marshal s u w key now user)
  ]

  kept_settings :
      (es : List (AuthKeyEntry PublicKey marshal)) (t : AuthKeyStore PublicKey marshal) (u : Bytes)
      → ((kept_remaining PublicKey marshal t u es).ttl ≡ t.ttl)
        × ((kept_remaining PublicKey marshal t u es).max_keys_per_user ≡ t.max_keys_per_user)
  unfolding kept_remaining
  kept_settings [] t u = (refl, refl)
  kept_settings (e ∷ es) t u = (refl, refl)

  removed-settings :
      (t : AuthKeyStore PublicKey marshal) (u : Bytes) (key : PublicKey)
      (es : List (AuthKeyEntry PublicKey marshal))
      → ((removed PublicKey marshal u key (t, es)).ttl ≡ t.ttl)
        × ((removed PublicKey marshal u key (t, es)).max_keys_per_user ≡ t.max_keys_per_user)
  unfolding removed
  removed-settings t u key [] = (refl, refl)
  removed-settings t u key (e ∷ es) =
      kept_settings (select (other_key PublicKey marshal key) (e ∷ es)) t u

  pub remove-settings :
      (s : AuthKeyStore PublicKey marshal) (u : Bytes) (key : PublicKey) (now : ℕ)
      → is_empty u ≡ false
      → ((remove PublicKey marshal s u (some key) now).ttl ≡ s.ttl)
        × ((remove PublicKey marshal s u (some key) now).max_keys_per_user ≡ s.max_keys_per_user)
  unfolding remove
  remove-settings s u key now h =
      let p = prune_expired_locked PublicKey marshal s u now in
      rw h (
        (removed-settings p.0 u key p.1).0
            ∙ (prune_expired_locked-settings PublicKey marshal s u now).0,
        (removed-settings p.0 u key p.1).1
            ∙ (prune_expired_locked-settings PublicKey marshal s u now).1,
      )

  remove-IsBounded :
      (s : AuthKeyStore PublicKey marshal) (u : Bytes) (key : Option PublicKey) (now : ℕ)
      → IsBounded s
      → IsBounded (remove PublicKey marshal s u key now)
  remove-IsBounded s u none now v = unfold remove in v
  remove-IsBounded s u (some key) now v = elim (Bool-cases (is_empty u)) [
    | inl nobody ↦ unfold remove in rw nobody v
    | inr user ↦
        one_user-IsBounded s (remove PublicKey marshal s u (some key) now) u
          (select (other_key PublicKey marshal key) (active PublicKey marshal s u now)) v
          (remove-settings s u key now user)
          (omega (
            arith,
            length-active s u now v,
            length-select (other_key PublicKey marshal key) (active PublicKey marshal s u now),
          ))
          (λ w. entries-remove PublicKey marshal s u w key now user)
  ]

  -- Whatever a server calls on a store, with whatever settings it was made, a user has no more
  -- keys in it than the limit, which is at least one, and keys live for some time.
  pub Reachable-IsBounded : {s : AuthKeyStore PublicKey marshal} → Reachable s → IsBounded s
  Reachable-IsBounded (created ttl max_keys) = created-IsBounded ttl max_keys
  Reachable-IsBounded (added s u key now r) = add-IsBounded s u key now (Reachable-IsBounded r)
  Reachable-IsBounded (looked_up s u key now r) = has-IsBounded s u key now (Reachable-IsBounded r)
  Reachable-IsBounded (taken_out s u key now r) =
      remove-IsBounded s u key now (Reachable-IsBounded r)
