-- ===== src/Server/AuthKeyStore/Later.antt =====
-- internal/ssh/server/authkeystore.go: how long a key stays, with other calls in between.
use mathlib.Core.Path.{subst}
use dtail.Base.{
  ℕ, suc, ◌+◌, ◌-◌, ◌<◌, ◌≡◌, refl, sym, ◌∙◌, inl, inr, true, false, not, List, [], ◌∷◌, ◌++◌,
  Option, none, some, arith, ltb, if◌then◌else◌, length, drop, select, Bytes, str_eq, str_eq_refl,
  str_eq_iff, is_empty, Bool-cases,
}
use dtail.Server.AuthKeyStore.{
  AuthKeyEntry, AuthKeyStore, is_active, other_key, newest, add, has, remove,
}
use dtail.Server.AuthKeyStore.View.{
  entries, active, entries-add, entries-has, entries-remove, has-active,
}
use dtail.Server.AuthKeyStore.Laws.{newest-last, still_active, same_key}
use dtail.Server.AuthKeyStore.Bounds.{add-settings, has-settings, remove-settings}
use dtail.Server.AuthKeyStore.Kept.{IsIn, select-IsIn, newest-IsIn, any-IsIn}

module _ (PublicKey : Type 0) (marshal : PublicKey → Bytes) where
  -- The stores after the Add of a key for a named user, and calls behind it, each with a reading of
  -- the clock: as long as they do not take the key away, and are made before its time to live is
  -- over where they concern the user. The number is that of the user's other keys that were added.
  module _ (s : AuthKeyStore PublicKey marshal) (u : Bytes) (key : PublicKey) (now : ℕ) where
    pub data Later : ℕ → AuthKeyStore PublicKey marshal → Type 0 where
      at_once : Later 0 (add PublicKey marshal s u (some key) now)
      asked :
          {n : ℕ} (t : AuthKeyStore PublicKey marshal) (k : Option PublicKey) (at : ℕ)
          → at < now + s.ttl
          → Later n t
          → Later n (has PublicKey marshal t u k at).0
      asked_elsewhere :
          {n : ℕ} (t : AuthKeyStore PublicKey marshal) (v : Bytes) (k : PublicKey) (at : ℕ)
          → str_eq v u ≡ false
          → Later n t
          → Later n (has PublicKey marshal t v (some k) at).0
      another :
          {n : ℕ} (t : AuthKeyStore PublicKey marshal) (k : PublicKey) (at : ℕ)
          → at < now + s.ttl
          → str_eq (marshal key) (marshal k) ≡ false
          → Later n t
          → Later (suc n) (add PublicKey marshal t u (some k) at)
      added_elsewhere :
          {n : ℕ} (t : AuthKeyStore PublicKey marshal) (v : Bytes) (k : PublicKey) (at : ℕ)
          → str_eq v u ≡ false
          → Later n t
          → Later n (add PublicKey marshal t v (some k) at)
      removed :
          {n : ℕ} (t : AuthKeyStore PublicKey marshal) (k : PublicKey) (at : ℕ)
          → at < now + s.ttl
          → str_eq (marshal key) (marshal k) ≡ false
          → Later n t
          → Later n (remove PublicKey marshal t u (some k) at)
      removed_elsewhere :
          {n : ℕ} (t : AuthKeyStore PublicKey marshal) (v : Bytes) (k : PublicKey) (at : ℕ)
          → str_eq v u ≡ false
          → Later n t
          → Later n (remove PublicKey marshal t v (some k) at)

    record IsKept (n : ℕ) (t : AuthKeyStore PublicKey marshal) : Type 0 where
      same_ttl : t.ttl ≡ s.ttl
      same_max : t.max_keys_per_user ≡ s.max_keys_per_user
      is_in : IsIn PublicKey marshal key now n (entries PublicKey marshal t u)

    active-IsIn :
        (n : ℕ) (t : AuthKeyStore PublicKey marshal) (at : ℕ)
        → at < now + s.ttl
        → IsKept n t
        → IsIn PublicKey marshal key now n (active PublicKey marshal t u at)
    active-IsIn n t at h v =
        select-IsIn PublicKey marshal (is_active PublicKey marshal t at) key now n
          (entries PublicKey marshal t u)
          (λ e same fresh.
            still_active PublicKey marshal t e at (omega (arith, h, fresh, v.same_ttl)))
          v.is_in

    not_other :
        (e : AuthKeyEntry PublicKey marshal) (k : PublicKey)
        → str_eq (marshal key) (marshal k) ≡ false
        → not (other_key PublicKey marshal key e) ≡ true
        → other_key PublicKey marshal k e ≡ true
    unfolding other_key
    not_other e k h same =
        let equal : str_eq (marshal e.pub_key) (marshal key) ≡ true = ground (arith, same) in
        let e2 : marshal e.pub_key ≡ marshal key = (str_eq_iff _ _).0 equal in rw (e2, h) refl

    -- Another key's entries are not those of the key.
    other-IsIn :
        (n : ℕ) (k : PublicKey) (es : List (AuthKeyEntry PublicKey marshal))
        → str_eq (marshal key) (marshal k) ≡ false
        → IsIn PublicKey marshal key now n es
        → IsIn PublicKey marshal key now n (select (other_key PublicKey marshal k) es)
    other-IsIn n k es h i =
        select-IsIn PublicKey marshal (other_key PublicKey marshal k) key now n es
          (λ e same fresh. not_other e k h same) i

    -- A call for another user.
    elsewhere :
        (n : ℕ) (t t2 : AuthKeyStore PublicKey marshal) (v : Bytes)
        (es : List (AuthKeyEntry PublicKey marshal))
        → str_eq v u ≡ false
        → (t2.ttl ≡ t.ttl) × (t2.max_keys_per_user ≡ t.max_keys_per_user)
        → entries PublicKey marshal t2 u
          ≡ (if str_eq v u then es else entries PublicKey marshal t u)
        → IsKept n t
        → IsKept n t2
    elsewhere n t t2 v es h (ttl, max) e k = record {
      same_ttl = ttl ∙ k.same_ttl;
      same_max = max ∙ k.same_max;
      is_in = subst (IsIn PublicKey marshal key now n) (sym (e ∙ rw h refl)) k.is_in;
    }

    -- A call for the user.
    here :
        (n : ℕ) (t t2 : AuthKeyStore PublicKey marshal) (es : List (AuthKeyEntry PublicKey marshal))
        → (t2.ttl ≡ s.ttl) × (t2.max_keys_per_user ≡ s.max_keys_per_user)
        → entries PublicKey marshal t2 u
          ≡ (if str_eq u u then es else entries PublicKey marshal t u)
        → IsIn PublicKey marshal key now n es
        → IsKept n t2
    here n t t2 es (ttl, max) e i = record {
      same_ttl = ttl;
      same_max = max;
      is_in = subst (IsIn PublicKey marshal key now n) (sym (e ∙ rw (str_eq_refl u) refl)) i;
    }

    add-nobody :
        (t : AuthKeyStore PublicKey marshal) (v : Bytes) (k : PublicKey) (at : ℕ)
        → is_empty v ≡ true
        → add PublicKey marshal t v (some k) at ≡ t
    unfolding add
    add-nobody t v k at h = rw h refl

    has-nobody :
        (t : AuthKeyStore PublicKey marshal) (v : Bytes) (k : PublicKey) (at : ℕ)
        → is_empty v ≡ true
        → (has PublicKey marshal t v (some k) at).0 ≡ t
    unfolding has
    has-nobody t v k at h = rw h refl

    remove-nobody :
        (t : AuthKeyStore PublicKey marshal) (v : Bytes) (k : PublicKey) (at : ℕ)
        → is_empty v ≡ true
        → remove PublicKey marshal t v (some k) at ≡ t
    unfolding remove
    remove-nobody t v k at h = rw h refl

    has-none :
        (t : AuthKeyStore PublicKey marshal) (at : ℕ) → (has PublicKey marshal t u none at).0 ≡ t
    unfolding has
    has-none t at = refl

    settings-after :
        {n : ℕ} {t : AuthKeyStore PublicKey marshal} (t2 : AuthKeyStore PublicKey marshal)
        → IsKept n t
        → (t2.ttl ≡ t.ttl) × (t2.max_keys_per_user ≡ t.max_keys_per_user)
        → (t2.ttl ≡ s.ttl) × (t2.max_keys_per_user ≡ s.max_keys_per_user)
    settings-after t2 k (ttl, max) = (ttl ∙ k.same_ttl, max ∙ k.same_max)

    added_first :
        0 < s.max_keys_per_user
        → IsIn PublicKey marshal key now 0 (
            newest PublicKey marshal s.max_keys_per_user (
              select (other_key PublicKey marshal key) (active PublicKey marshal s u now)
              ++ (record { pub_key = key; registered_at = now }) ∷ []))
    added_first h =
        let others = select (other_key PublicKey marshal key) (active PublicKey marshal s u now) in
        let e : AuthKeyEntry PublicKey marshal = record { pub_key = key; registered_at = now } in
        let total = length (others ++ e ∷ []) in
        record {
          front =
              if ltb s.max_keys_per_user total
              then drop (total - s.max_keys_per_user) others
              else others;
          entry = e;
          back = [];
          all_entries = newest-last PublicKey marshal s.max_keys_per_user others e h;
          same = same_key PublicKey marshal e;
          fresh = omega arith;
          behind = omega arith;
        }

    Later-IsKept :
        {n : ℕ} {t : AuthKeyStore PublicKey marshal}
        → is_empty u ≡ false
        → n < s.max_keys_per_user
        → Later n t
        → IsKept n t
    Later-IsKept hu h at_once =
        here 0 s (add PublicKey marshal s u (some key) now) _
          (add-settings PublicKey marshal s u key now hu)
          (entries-add PublicKey marshal s u u key now hu) (added_first h)
    Later-IsKept {n = n} hu h (asked t none at l r) =
        subst (IsKept n) (sym (has-none t at)) (Later-IsKept hu h r)
    Later-IsKept {n = n} hu h (asked t (some k) at l r) =
        let kept = Later-IsKept hu h r in
        here n t (has PublicKey marshal t u (some k) at).0 _
          (settings-after (has PublicKey marshal t u (some k) at).0 kept
            (has-settings PublicKey marshal t u k at hu))
          (entries-has PublicKey marshal t u u k at hu) (active-IsIn n t at l kept)
    Later-IsKept {n = n} hu h (asked_elsewhere t v k at w r) = elim (Bool-cases (is_empty v)) [
      | inl nobody ↦ subst (IsKept n) (sym (has-nobody t v k at nobody)) (Later-IsKept hu h r)
      | inr named ↦
          elsewhere n t (has PublicKey marshal t v (some k) at).0 v _ w
            (has-settings PublicKey marshal t v k at named)
            (entries-has PublicKey marshal t v u k at named) (Later-IsKept hu h r)
    ]
    Later-IsKept {n = suc n} hu h (another t k at l other r) =
        let kept = Later-IsKept hu (omega (arith, h)) r in
        here (suc n) t (add PublicKey marshal t u (some k) at) _
          (settings-after (add PublicKey marshal t u (some k) at) kept
            (add-settings PublicKey marshal t u k at hu))
          (entries-add PublicKey marshal t u u k at hu)
          (newest-IsIn PublicKey marshal t.max_keys_per_user key now n _ _
            (omega (arith, h, kept.same_max))
            (other-IsIn n k (active PublicKey marshal t u at) other (active-IsIn n t at l kept)))
    Later-IsKept {n = n} hu h (added_elsewhere t v k at w r) = elim (Bool-cases (is_empty v)) [
      | inl nobody ↦ subst (IsKept n) (sym (add-nobody t v k at nobody)) (Later-IsKept hu h r)
      | inr named ↦
          elsewhere n t (add PublicKey marshal t v (some k) at) v _ w
            (add-settings PublicKey marshal t v k at named)
            (entries-add PublicKey marshal t v u k at named) (Later-IsKept hu h r)
    ]
    Later-IsKept {n = n} hu h (removed t k at l other r) =
        let kept = Later-IsKept hu h r in
        here n t (remove PublicKey marshal t u (some k) at) _
          (settings-after (remove PublicKey marshal t u (some k) at) kept
            (remove-settings PublicKey marshal t u k at hu))
          (entries-remove PublicKey marshal t u u k at hu)
          (other-IsIn n k (active PublicKey marshal t u at) other (active-IsIn n t at l kept))
    Later-IsKept {n = n} hu h (removed_elsewhere t v k at w r) = elim (Bool-cases (is_empty v)) [
      | inl nobody ↦ subst (IsKept n) (sym (remove-nobody t v k at nobody)) (Later-IsKept hu h r)
      | inr named ↦
          elsewhere n t (remove PublicKey marshal t v (some k) at) v _ w
            (remove-settings PublicKey marshal t v k at named)
            (entries-remove PublicKey marshal t v u k at named) (Later-IsKept hu h r)
    ]

    -- A key that was added for a named user is found until its time to live is over, whatever the
    -- store held before and whatever else is called with keys in between, if it is not added again or
    -- removed, and fewer of the user's other keys are added behind it than the user may have keys.
    -- The calls for the user in between read the clock before that time.
    pub has-Later :
        {n : ℕ} {t : AuthKeyStore PublicKey marshal} (at : ℕ)
        → is_empty u ≡ false
        → n < s.max_keys_per_user
        → at < now + s.ttl
        → Later n t
        → (has PublicKey marshal t u (some key) at).1 ≡ true
    has-Later {n = n} {t = t} at hu h l later =
        has-active PublicKey marshal t u key at hu
        ∙ any-IsIn PublicKey marshal key now n (active PublicKey marshal t u at)
            (active-IsIn n t at l (Later-IsKept hu h later))
