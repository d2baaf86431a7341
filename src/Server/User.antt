-- ===== src/Server/User.antt =====
-- internal/user/server/user.go: the permission rules of a user.
use dtail.Base.{
  ◌≡◌, inl, inr, Bool, true, false, not, ◌&&◌, ◌||◌, List, [], ◌∷◌, Option, none, some, arith,
  if◌then◌else◌, any, Bytes, codes, str_eq, has_prefix, split, join, drop, Bool-cases, is_some,
}

-- Go's regexp: the compilation of a pattern, which may fail, and the match.
module _ (compile : Bytes → Option (Bytes → Bool)) where
  -- A rule's permission type and what follows it; the type is "readfiles" if none is written.
  unfoldable pub typed : Bytes → List Bytes → Bytes × Bytes
  unfolding join
  typed permission (t ∷ (p ∷ ps)) = (t, join (p ∷ ps) b':')
  typed permission _ = (codes "readfiles", permission)

  abbrev pub rule : Bytes → Bytes × Bytes
  rule permission = typed permission (split permission b':')

  abbrev pub is_deny : Bytes → Bool
  is_deny permission = has_prefix permission (codes "!")

  abbrev pub regex_str : Bytes → Bytes
  regex_str permission = if is_deny permission then drop 1 permission else permission

  -- iteratePaths, with what the loop has found so far; `none` is the error of a pattern that
  -- does not compile.
  unfoldable pub iterate_from : Bool → List Bytes → Bytes → Bytes → Option Bool
  iterate_from has_permission [] clean_path permission_type = some has_permission
  iterate_from has_permission (permission ∷ rules) clean_path permission_type =
      let next = iterate_from has_permission rules clean_path permission_type in
      let granted = iterate_from true rules clean_path permission_type in
      let (type_str, pattern) = rule permission in
      if not (str_eq type_str permission_type) then next else (elim (compile (regex_str pattern)) [
        | none ↦ none
        | some re ↦
            if re clean_path then (if is_deny pattern then some false else granted) else next
      ])

  unfoldable pub iterate_paths : List Bytes → Bytes → Bytes → Option Bool
  unfolding iterate_from
  iterate_paths permissions clean_path permission_type =
      iterate_from false permissions clean_path permission_type

  -- Whether a rule is for the permission type.
  abbrev pub applies : Bytes → Bytes → Bool
  applies permission_type permission = str_eq (rule permission).0 permission_type

  -- Whether the pattern of a rule compiles and matches the path.
  abbrev pub matches : Bytes → Bytes → Bool
  matches clean_path permission = elim (compile (regex_str (rule permission).1)) [
    | none ↦ false
    | some re ↦ re clean_path
  ]

  abbrev pub denies : Bytes → Bytes → Bytes → Bool
  denies clean_path permission_type permission =
      applies permission_type permission
      && (matches clean_path permission && is_deny (rule permission).1)

  abbrev pub allows : Bytes → Bytes → Bytes → Bool
  allows clean_path permission_type permission =
      applies permission_type permission
      && (matches clean_path permission && not (is_deny (rule permission).1))

  -- Whether some rule for the permission type does not compile.
  abbrev pub is_broken : Bytes → Bytes → Bool
  is_broken permission_type permission =
      applies permission_type permission && not (is_some (compile (regex_str (rule permission).1)))

  iterate_from-any :
      (b : Bool) (rules : List Bytes) (path type : Bytes)
      → any (is_broken type) rules ≡ false
      → iterate_from b rules path type
        ≡ some ((b || any (allows path type) rules) && not (any (denies path type) rules))
  unfolding iterate_from
  iterate_from-any b [] path type h = ground arith
  iterate_from-any b (permission ∷ rules) path type h = ground (
    arith,
    h,
    iterate_from-any b rules path type (ground (arith, h)),
    iterate_from-any true rules path type (ground (arith, h)),
  )

  -- Where all patterns of a permission type compile, access is granted just when some rule allows
  -- the path and none denies it, in whatever order the rules stand.
  pub iterate_paths-any :
      (rules : List Bytes) (path type : Bytes)
      → any (is_broken type) rules ≡ false
      → iterate_paths rules path type
        ≡ some (any (allows path type) rules && not (any (denies path type) rules))
  unfolding iterate_paths
  iterate_paths-any rules path type h = iterate_from-any false rules path type h

  -- The callers' reading of the result: an error grants nothing.
  abbrev pub granted : Option Bool → Bool
  granted (some b) = b
  granted none = false

  iterate_from-denied :
      (b : Bool) (rules : List Bytes) (path type : Bytes)
      → any (denies path type) rules ≡ true
      → granted (iterate_from b rules path type) ≡ false
  unfolding iterate_from
  iterate_from-denied b [] path type h = cc
  iterate_from-denied b (permission ∷ rules) path type h =
      elim (Bool-cases (any (denies path type) rules)) [
        | inl later ↦ ground (
          arith,
          h,
          later,
          iterate_from-denied b rules path type later,
          iterate_from-denied true rules path type later,
        )
        | inr here ↦ ground (arith, h, here)
      ]

  -- Whether or not all patterns compile, a path that some rule denies is not granted.
  pub iterate_paths-denied :
      (rules : List Bytes) (path type : Bytes)
      → any (denies path type) rules ≡ true
      → granted (iterate_paths rules path type) ≡ false
  unfolding iterate_paths
  iterate_paths-denied rules path type h = iterate_from-denied false rules path type h
