-- ===== src/Server/AuthKeyStore/Kept.antt =====
-- internal/ssh/server/authkeystore.go: the entry of a key that was added, among the user's others.
use dtail.Base.{
  ℕ, suc, ◌-◌, ◌≤◌, ◌<◌, ◌≡◌, refl, ap, ◌∙◌, inl, inr, Bool, true, not, List, [], ◌∷◌, ◌++◌,
  append_assoc, arith, ltb, if◌then◌else◌, any, length, length-append, length-select, drop, select,
  Bytes, any-append, Bool-cases,
}
use dtail.Server.AuthKeyStore.{AuthKeyEntry, other_key, newest}
use dtail.Server.AuthKeyStore.Laws.{drop-append, select-append}

module _ (PublicKey : Type 0) (marshal : PublicKey → Bytes) where
  -- The key has an entry that is not older than the Add, with so many entries behind it at most.
  pub record IsIn (key : PublicKey) (now after : ℕ) (es : List (AuthKeyEntry PublicKey marshal))
      : Type 0 where
    pub front : List (AuthKeyEntry PublicKey marshal)
    pub entry : AuthKeyEntry PublicKey marshal
    pub back : List (AuthKeyEntry PublicKey marshal)
    pub all_entries : es ≡ front ++ entry ∷ back
    pub same : not (other_key PublicKey marshal key entry) ≡ true
    pub fresh : now ≤ entry.registered_at
    pub behind : length back ≤ after

  pub select-IsIn :
      (p : AuthKeyEntry PublicKey marshal → Bool) (key : PublicKey) (now after : ℕ)
      (es : List (AuthKeyEntry PublicKey marshal))
      → ((e : AuthKeyEntry PublicKey marshal)
          → not (other_key PublicKey marshal key e) ≡ true
          → now ≤ e.registered_at
          → p e ≡ true)
      → IsIn key now after es
      → IsIn key now after (select p es)
  select-IsIn p key now after es h i =
      let passes : p i.entry ≡ true = h i.entry i.same i.fresh in
      record {
        front = select p i.front;
        entry = i.entry;
        back = select p i.back;
        all_entries =
            ap (select p) i.all_entries
            ∙ select-append p i.front (i.entry ∷ i.back)
            ∙ rw passes refl;
        same = i.same;
        fresh = i.fresh;
        behind = omega (arith, length-select p i.back, i.behind);
      }

  newest-split :
      (n : ℕ) (front : List (AuthKeyEntry PublicKey marshal)) (e : AuthKeyEntry PublicKey marshal)
      (back : List (AuthKeyEntry PublicKey marshal))
      → length back < n
      → newest PublicKey marshal n (front ++ e ∷ back) ≡ (
          (if ltb n (length (front ++ e ∷ back))
            then drop (length (front ++ e ∷ back) - n) front
            else front)
          ++ e ∷ back)
  unfolding newest
  newest-split n front e back h = elim (Bool-cases (ltb n (length (front ++ e ∷ back)))) [
    | inl long ↦ rw long (
        drop-append (length (front ++ e ∷ back) - n) front (e ∷ back)
          (omega (arith, h, length-append front (e ∷ back))))
    | inr short ↦ rw short refl
  ]

  pub newest-IsIn :
      (n : ℕ) (key : PublicKey) (now after : ℕ) (es : List (AuthKeyEntry PublicKey marshal))
      (e : AuthKeyEntry PublicKey marshal)
      → suc after < n
      → IsIn key now after es
      → IsIn key now (suc after) (newest PublicKey marshal n (es ++ e ∷ []))
  newest-IsIn n key now after es e h i =
      let back = i.back ++ e ∷ [] in
      let few : length back ≤ suc after = omega (arith, i.behind, length-append i.back (e ∷ [])) in
      record {
        front =
            if ltb n (length (i.front ++ i.entry ∷ back))
            then drop (length (i.front ++ i.entry ∷ back) - n) i.front
            else i.front;
        entry = i.entry;
        back = back;
        all_entries =
            ap (λ xs. newest PublicKey marshal n (xs ++ e ∷ [])) i.all_entries
            ∙ ap (newest PublicKey marshal n) (append_assoc i.front (i.entry ∷ i.back) (e ∷ []))
            ∙ newest-split n i.front i.entry back (omega (arith, h, few));
        same = i.same;
        fresh = i.fresh;
        behind = few;
      }

  pub any-IsIn :
      (key : PublicKey) (now after : ℕ) (es : List (AuthKeyEntry PublicKey marshal))
      → IsIn key now after es
      → any (λ e. not (other_key PublicKey marshal key e)) es ≡ true
  any-IsIn key now after es i =
      ap (any (λ e. not (other_key PublicKey marshal key e))) i.all_entries
      ∙ ground (
        arith,
        i.same,
        any-append (λ e. not (other_key PublicKey marshal key e)) i.front (i.entry ∷ i.back),
      )
