-- ===== src/LoginLimit/Examples.antt =====
-- Runs of the login limiter (src/server/login_limit.rs) with its default policy. Code points above
-- the capitals of ASCII are left as they are, and the space is the only whitespace.
use base_search.Prelude.{
  ℕ, zero, suc, ◌+◌, ◌≤◌, ◌≡◌, refl, some, List, [], ◌∷◌, if◌then◌else◌, leb, ◌&&◌, ◌==◌, nat_eq,
  arith, Result, err, ok, length,
}
use base_search.LoginLimit.Buckets.{default_policy, from_secs, backoff, prune_stale, reserve_key}
use base_search.LoginLimit.Names.{Unicode, normalize_username}
use base_search.LoginLimit.Limiter.{Limiter, Call, failed, check_at, record_failure_at, run}
use base_search.LoginLimit.Runs.{IsTimed}
use base_search.LoginLimit.Waits.{run_bounded, check_at-few, record_failure_at-check_at}
use base_search.LoginLimit.Independence.{record_failure_at-others}

abbrev ascii : Unicode
ascii = record {
  is_whitespace = λ c. c == 32;
  to_lowercase = λ c. (if leb 65 c && leb c 90 then c + 32 else c) ∷ [];
}

-- " Bob ", "bob" and "eve".
abbrev spaced_bob : List ℕ
spaced_bob = 32 ∷ 66 ∷ 111 ∷ 98 ∷ 32 ∷ []

abbrev bob : List ℕ
bob = 98 ∷ 111 ∷ 98 ∷ []

abbrev eve : List ℕ
eve = 101 ∷ 118 ∷ 101 ∷ []

normalize_username-spaced_bob : normalize_username ascii spaced_bob ≡ bob
unfolding normalize_username
normalize_username-spaced_bob = refl

-- Some failures of one user from the peer 7, all at the time 9.
abbrev failures : ℕ → List (Call ℕ)
failures zero = []
failures (suc n) = failed 7 spaced_bob 9 ∷ failures n

failures-IsTimed : (n : ℕ) → IsTimed 9 (failures n)
failures-IsTimed zero = tt
failures-IsTimed (suc n) = (omega arith, failures-IsTimed n)

abbrev answer : ℕ → List ℕ → List (Call ℕ) → Result (Unit {0}) ℕ
answer ip username calls =
    (check_at default_policy ascii ip username 9 (run default_policy ascii calls)).1

five_failures : answer 8 bob (failures 5) ≡ err (from_secs 1)
unfolding check_at run record_failure_at normalize_username reserve_key prune_stale backoff
five_failures = refl

seven_failures : answer 7 eve (failures 7) ≡ err (from_secs 4)
unfolding check_at run record_failure_at normalize_username reserve_key prune_stale backoff
seven_failures = refl

run_bounded_example :
    (st : Limiter ℕ) × (run default_policy ascii (failures 3) ≡ some st)
    × (length st.ips ≤ 2048)
    × (length st.usernames ≤ 2048)
run_bounded_example =
    run_bounded default_policy ascii 9 (failures 3) (omega arith) (failures-IsTimed 3)

check_at-few_example : answer 8 bob (failures 4) ≡ ok tt
unfolding normalize_username
check_at-few_example =
    check_at-few default_policy ascii 9 8 bob (failures 4) (omega arith) (failures-IsTimed 4)
      (omega arith) (omega arith)

abbrev none_seen : Limiter ℕ
none_seen = record { ips = []; usernames = [] }

record_failure_at-check_at_example :
    (check_at default_policy ascii 7 bob 9
      (record_failure_at default_policy ascii 7 bob 9 (some none_seen))).1
    ≡ ok tt
unfolding run normalize_username prune_stale
record_failure_at-check_at_example =
    record_failure_at-check_at default_policy ascii 9 9 7 bob [] none_seen (omega arith) tt refl
      (omega arith) (omega arith)

record_failure_at-others_example :
    (check_at default_policy ascii 8 eve 9
      (record_failure_at default_policy ascii 7 bob 9 (run default_policy ascii (failures 5)))).1
    ≡ ok tt
unfolding normalize_username check_at run record_failure_at reserve_key prune_stale backoff
record_failure_at-others_example =
    record_failure_at-others default_policy ascii 9 9 8 7 eve bob (failures 5) (omega arith)
      (failures-IsTimed 5) (ground arith) (ground arith) refl
