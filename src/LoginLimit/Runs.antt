-- ===== src/LoginLimit/Runs.antt =====
-- The login limiter after any sequence of calls: a count of the failures of a key since it was
-- last cleared, and the soundness of both maps by that count.
use base_search.Prelude.{
  ℕ, ◌+◌, ◌≤◌, ◌<◌, ◌≡◌, refl, some, List, [], ◌∷◌, if◌then◌else◌, arith, Equality, ◌==◌,
}
use base_search.Prelude.Dict.{remove}
use base_search.LoginLimit.Buckets.{Policy}
use base_search.LoginLimit.Names.{Unicode, normalize_username}
use base_search.Prelude.Texts.{codes_eq}
use base_search.LoginLimit.Limiter.{
  Limiter, empty, pruned, recorded, Call, checked, failed, cleared, check_at, record_failure_at,
  clear, step, run,
}
use base_search.LoginLimit.Soundness.{
  IsSoundMap, prune_stale-IsSoundMap, reserve_key-IsSoundMap, remove-IsSoundMap, later-IsSoundMap,
}

-- The times of the calls, latest first, do not go back, and none is after `now`: the clock of
-- `Instant` is monotonic.
abbrev pub IsTimed : {Ip : Type 0} → ℕ → List (Call Ip) → Type 0
IsTimed now [] = Unit
IsTimed now (checked ip username t ∷ calls) = (t ≤ now) × IsTimed t calls
IsTimed now (failed ip username t ∷ calls) = (t ≤ now) × IsTimed t calls
IsTimed now (cleared ip username ∷ calls) = IsTimed now calls

module _ {Ip : Type 0} ⦃q : Equality Ip⦄ (policy : Policy) (unicode : Unicode) where
  abbrev pub ip_failures : List (Call Ip) → Ip → ℕ
  ip_failures [] j = 0
  ip_failures (checked ip username t ∷ calls) j = ip_failures calls j
  ip_failures (failed ip username t ∷ calls) j = (if ip == j then 1 else 0) + ip_failures calls j
  ip_failures (cleared ip username ∷ calls) j = if ip == j then 0 else ip_failures calls j

  abbrev pub name_failures : List (Call Ip) → List ℕ → ℕ
  name_failures [] j = 0
  name_failures (checked ip username t ∷ calls) j = name_failures calls j
  name_failures (failed ip username t ∷ calls) j =
      (if normalize_username unicode username == j then 1 else 0) + name_failures calls j
  name_failures (cleared ip username ∷ calls) j =
      if normalize_username unicode username == j then 0 else name_failures calls j

  pub record IsSound (clock : ℕ) (calls : List (Call Ip)) (st : Limiter Ip) : Type 0 where
    pub ips : IsSoundMap policy clock (ip_failures calls) st.ips
    pub usernames : IsSoundMap policy clock (name_failures calls) st.usernames

  pub run-IsSound :
      (now : ℕ) (calls : List (Call Ip))
      → 0 < policy.max_tracked_keys
      → IsTimed now calls
      → (st : Limiter Ip) × (run policy unicode calls ≡ some st) × IsSound now calls st
  unfolding run step check_at record_failure_at clear
  run-IsSound now [] p t = (
    empty,
    refl,
    record {
      ips = record { distinct = tt; bounded = omega arith; entries = λ k e g. ground arith };
      usernames = record { distinct = tt; bounded = omega arith; entries = λ k e g. ground arith };
    },
  )
  run-IsSound now (checked ip username u ∷ calls) p t =
      let (st, e, s) = run-IsSound u calls p t.1 in
      (
        pruned policy unicode u st,
        rw e refl,
        record {
          ips =
              later-IsSoundMap policy u now _ _ t.0
                (prune_stale-IsSoundMap policy u u _ st.ips (omega arith) s.ips);
          usernames =
              later-IsSoundMap policy u now _ _ t.0
                (prune_stale-IsSoundMap policy u u _ st.usernames (omega arith) s.usernames);
        },
      )
  run-IsSound now (failed ip username u ∷ calls) p t =
      let (st, e, s) = run-IsSound u calls p t.1 in
      let name = normalize_username unicode username in
      (
        recorded policy unicode ip name u st,
        rw e refl,
        record {
          ips = later-IsSoundMap policy u now _ _ t.0 (
              reserve_key-IsSoundMap policy u u _ ip _ p (omega arith)
                (prune_stale-IsSoundMap policy u u _ st.ips (omega arith) s.ips));
          usernames = later-IsSoundMap policy u now _ _ t.0 (
              reserve_key-IsSoundMap policy u u _ name _ p (omega arith)
                (prune_stale-IsSoundMap policy u u _ st.usernames (omega arith) s.usernames));
        },
      )
  run-IsSound now (cleared ip username ∷ calls) p t =
      let (st, e, s) = run-IsSound now calls p t in
      let name = normalize_username unicode username in
      (
        record { ips = remove ip st.ips; usernames = remove name st.usernames },
        rw e refl,
        record {
          ips = remove-IsSoundMap policy now _ ip st.ips s.ips;
          usernames = remove-IsSoundMap policy now _ name st.usernames s.usernames;
        },
      )
