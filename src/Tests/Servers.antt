-- ===== src/Tests/Servers.antt =====
-- internal/ssh/server, internal/server and internal/user/server on small inputs.
use dtail.Base.{
  ◌+◌, ◌<◌, ◌≡◌, refl, Bool, true, false, not, ◌&&◌, List, [], ◌∷◌, Option, some, arith, any, Bytes,
  codes, str_eq, split, split_onto, join, has_prefix, pos,
}
use dtail.Server.AuthKeyStore.{AuthKeyStore, new_auth_key_store, add, has, remove}
use dtail.Server.AuthKeyStore.Laws.{has-remove}
use dtail.Server.AuthKeyStore.Later.{at_once, another, added_elsewhere, has-Later}
use dtail.Server.AuthKeyStore.Bounds.{created, added, IsBounded, Reachable-IsBounded}
use dtail.Server.Stats.Slots.{new_server, started, IsCounted, Reachable-IsCounted}
use dtail.Server.User.{
  iterate_paths, typed, allows, denies, is_broken, granted, iterate_paths-any, iterate_paths-denied,
}

-- Keys that are their own wire format.
abbrev keys : AuthKeyStore Bytes (λ k. k)
keys = new_auth_key_store Bytes (λ k. k) (pos 100) (pos 2)

two_keys : 1 < keys.max_keys_per_user
unfolding new_auth_key_store
two_keys = omega arith

in_time : 90 < 10 + keys.ttl
unfolding new_auth_key_store
in_time = omega arith

in_time_again : 30 < 10 + keys.ttl
unfolding new_auth_key_store
in_time_again = omega arith

abbrev with_key : AuthKeyStore Bytes (λ k. k)
with_key = add Bytes (λ k. k) keys (codes "u") (some (codes "k")) 10

abbrev with_two : AuthKeyStore Bytes (λ k. k)
with_two = add Bytes (λ k. k) with_key (codes "u") (some (codes "l")) 30

-- A second key of the user, and then one of another user.
abbrev with_three : AuthKeyStore Bytes (λ k. k)
with_three = add Bytes (λ k. k) with_two (codes "v") (some (codes "k")) 40

has-Later_example : (has Bytes (λ k. k) with_three (codes "u") (some (codes "k")) 90).1 ≡ true
has-Later_example =
    has-Later Bytes (λ k. k) keys (codes "u") (codes "k") 10 90 refl two_keys in_time
      (added_elsewhere with_two (codes "v") (codes "k") 40 (unfold str_eq in refl)
        (another with_key (codes "l") 30 in_time_again (unfold str_eq in refl) at_once))

has-remove_example :
    (has Bytes
      (λ k. k)
      (remove Bytes (λ k. k) keys (codes "u") (some (codes "k")) 10)
      (codes "u")
      (some (codes "k"))
      20).1
    ≡ false
has-remove_example = has-remove Bytes (λ k. k) keys (codes "u") (codes "k") 10 20 refl

Reachable-IsBounded_example :
    IsBounded Bytes (λ k. k) (add Bytes (λ k. k) keys (codes "u") (some (codes "k")) 10)
Reachable-IsBounded_example =
    Reachable-IsBounded Bytes (λ k. k)
      (added keys (codes "u") (some (codes "k")) 10 (created (pos 100) (pos 2)))

Reachable-IsCounted_example : IsCounted (pos 3) (new_server (pos 3))
Reachable-IsCounted_example = Reachable-IsCounted (pos 3) started

-- A regexp package whose patterns match what they begin.
abbrev prefixes : Bytes → Option (Bytes → Bool)
prefixes pattern = some (λ s. has_prefix s pattern)

abbrev rules : List Bytes
rules = codes "readfiles:!/var/log/secret" ∷ codes "/var/log" ∷ []

none_broken : any (is_broken prefixes (codes "readfiles")) rules ≡ false
unfolding typed str_eq split split_onto join has_prefix
none_broken = refl

secret_denied : any (denies prefixes (codes "/var/log/secret/a") (codes "readfiles")) rules ≡ true
unfolding typed str_eq split split_onto join has_prefix
secret_denied = refl

iterate_paths-any_example :
    iterate_paths prefixes rules (codes "/var/log/a") (codes "readfiles")
    ≡ some (
        any (allows prefixes (codes "/var/log/a") (codes "readfiles")) rules
        && not (any (denies prefixes (codes "/var/log/a") (codes "readfiles")) rules))
iterate_paths-any_example =
    iterate_paths-any prefixes rules (codes "/var/log/a") (codes "readfiles") none_broken

iterate_paths-denied_example :
    granted prefixes (iterate_paths prefixes rules (codes "/var/log/secret/a") (codes "readfiles"))
    ≡ false
iterate_paths-denied_example =
    iterate_paths-denied prefixes rules (codes "/var/log/secret/a") (codes "readfiles")
      secret_denied
