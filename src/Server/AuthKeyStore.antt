-- ===== src/Server/AuthKeyStore.antt =====
-- internal/ssh/server/authkeystore.go: the cache of public keys, per user. Each operation holds
-- the store's lock, so it is one step. Times and durations are in nanoseconds.
pub mod View
pub mod Laws
pub mod Bounds
pub mod Kept
pub mod Later
use dtail.Base.{
  ℕ, ◌+◌, ◌-◌, ◌*◌, Bool, true, false, not, ◌&&◌, ◌||◌, List, [], ◌∷◌, ◌++◌, Option, none, some,
  ltb, leb, if◌then◌else◌, any, length, drop, select, Bytes, str_eq, is_empty, ℤ, pos_part,
  is_positive,
}
use dtail.Base.Maps.{lookup, insert, delete}

abbrev pub default_auth_key_ttl : ℕ
default_auth_key_ttl = 86400000000000

abbrev pub default_auth_key_max_per_user : ℕ
default_auth_key_max_per_user = 5

-- A public key of the SSH library, and its wire format, are parameters.
module _ (PublicKey : Type 0) (marshal : PublicKey → Bytes) where
  pub record AuthKeyEntry : Type 0 where
    pub pub_key : PublicKey
    pub registered_at : ℕ

  pub record AuthKeyStore : Type 0 where
    pub keys_by_user : List (Bytes × List AuthKeyEntry)
    pub ttl : ℕ
    pub max_keys_per_user : ℕ

  -- newAuthKeyStoreWithClock; the clock's reading is an argument of each operation.
  unfoldable pub new_auth_key_store : ℤ → ℤ → AuthKeyStore
  new_auth_key_store ttl max_keys = record {
    keys_by_user = [];
    ttl = if is_positive ttl then pos_part ttl else default_auth_key_ttl;
    max_keys_per_user =
        if is_positive max_keys then pos_part max_keys else default_auth_key_max_per_user;
  }

  unfoldable pub expired : AuthKeyStore → ℕ → AuthKeyEntry → Bool
  expired s now entry = not (ltb now (entry.registered_at + s.ttl))

  abbrev pub is_active : AuthKeyStore → ℕ → AuthKeyEntry → Bool
  is_active s now entry = not (expired s now entry)

  -- Whether an entry holds another key than the one offered.
  unfoldable pub other_key : PublicKey → AuthKeyEntry → Bool
  unfolding str_eq
  other_key key entry = not (str_eq (marshal entry.pub_key) (marshal key))

  abbrev pub drop_user : AuthKeyStore → Bytes → AuthKeyStore
  drop_user s user = record s { keys_by_user = delete user s.keys_by_user }

  -- s.keysByUser[user] = entries
  abbrev pub put_user : AuthKeyStore → Bytes → List AuthKeyEntry → AuthKeyStore
  put_user s user entries = record s { keys_by_user = insert user entries s.keys_by_user }

  unfoldable pub kept_active :
      AuthKeyStore → Bytes → List AuthKeyEntry → AuthKeyStore × List AuthKeyEntry
  kept_active s user [] = (drop_user s user, [])
  kept_active s user (entry ∷ entries) = (put_user s user (entry ∷ entries), entry ∷ entries)

  -- pruneExpiredLocked, on what the map has for the user.
  unfoldable pub pruned :
      AuthKeyStore → Bytes → ℕ → Option (List AuthKeyEntry) → AuthKeyStore × List AuthKeyEntry
  pruned s user now none = (drop_user s user, [])
  pruned s user now (some []) = (drop_user s user, [])
  pruned s user now (some (entry ∷ entries)) =
      if any (expired s now) (entry ∷ entries)
      then kept_active s user (select (is_active s now) (entry ∷ entries))
      else (s, entry ∷ entries)

  unfoldable pub prune_expired_locked : AuthKeyStore → Bytes → ℕ → AuthKeyStore × List AuthKeyEntry
  prune_expired_locked s user now = pruned s user now (lookup user s.keys_by_user)

  -- The newest entries, as many as a user may have.
  unfoldable pub newest : ℕ → List AuthKeyEntry → List AuthKeyEntry
  newest max_keys entries =
      if ltb max_keys (length entries) then drop (length entries - max_keys) entries else entries

  -- A nil key is `none`.
  unfoldable pub add : AuthKeyStore → Bytes → Option PublicKey → ℕ → AuthKeyStore
  add s user none now = s
  add s user (some key) now =
      let (pruned_store, entries) = prune_expired_locked s user now in
      let entry : AuthKeyEntry = record { pub_key = key; registered_at = now } in
      let new_entries = select (other_key key) entries ++ entry ∷ [] in
      if is_empty user
      then s
      else put_user pruned_store user (newest s.max_keys_per_user new_entries)

  -- Has prunes, so it changes the store too.
  unfoldable pub has : AuthKeyStore → Bytes → Option PublicKey → ℕ → AuthKeyStore × Bool
  has s user none now = (s, false)
  has s user (some key) now =
      let (pruned_store, entries) = prune_expired_locked s user now in
      if is_empty user
      then (s, false)
      else (pruned_store, any (λ entry. not (other_key key entry)) entries)

  -- What Remove does with the remaining entries.
  unfoldable pub kept_remaining : AuthKeyStore → Bytes → List AuthKeyEntry → AuthKeyStore
  kept_remaining s user [] = drop_user s user
  kept_remaining s user (entry ∷ entries) = put_user s user (entry ∷ entries)

  unfoldable pub removed : Bytes → PublicKey → AuthKeyStore × List AuthKeyEntry → AuthKeyStore
  unfolding kept_remaining
  removed user key (s, []) = s
  removed user key (s, entry ∷ entries) =
      kept_remaining s user (select (other_key key) (entry ∷ entries))

  unfoldable pub remove : AuthKeyStore → Bytes → Option PublicKey → ℕ → AuthKeyStore
  remove s user none now = s
  remove s user (some key) now =
      if is_empty user then s else removed user key (prune_expired_locked s user now)
