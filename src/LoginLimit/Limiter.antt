-- ===== src/LoginLimit/Limiter.antt =====
-- src/server/login_limit.rs: the limiter, its two maps behind one mutex. `none` is a mutex that a
-- panic has poisoned. The type of the peers' addresses is a parameter.
use base_search.Prelude.{
  ℕ, max, Option, none, some, List, [], ◌∷◌, if◌then◌else◌, ltb, Result, ok, err, Equality,
}
use base_search.Prelude.Dict.{get, remove}
use base_search.LoginLimit.Buckets.{
  Policy, Entry, from_secs, remaining_wait, prune_stale, reserve_key,
}
use base_search.LoginLimit.Names.{Unicode, normalize_username}
use base_search.Prelude.Texts.{codes_eq}

pub record Limiter (Ip : Type 0) : Type 0 where
  pub ips : List (Ip × Entry)
  pub usernames : List (List ℕ × Entry)

abbrev pub empty : {Ip : Type 0} → Limiter Ip
empty = record { ips = []; usernames = [] }

-- The calls of the server's login handler, each with its peer, name and time.
pub data Call (Ip : Type 0) : Type 0 where
  checked failed : Ip → List ℕ → ℕ → Call Ip
  cleared : Ip → List ℕ → Call Ip

module _ {Ip : Type 0} ⦃q : Equality Ip⦄ (policy : Policy) (unicode : Unicode) where
  abbrev pub pruned : ℕ → Limiter Ip → Limiter Ip
  pruned now st = record {
    ips = prune_stale now policy.stale_after st.ips;
    usernames = prune_stale now policy.stale_after st.usernames;
  }

  abbrev pub wait_of : Ip → List ℕ → ℕ → Limiter Ip → ℕ
  wait_of ip name now st =
      max (remaining_wait (get ip st.ips) now) (remaining_wait (get name st.usernames) now)

  -- `check_at`: the error is the time to wait.
  unfoldable pub check_at :
      Ip → List ℕ → ℕ → Option (Limiter Ip) → Option (Limiter Ip) × Result (Unit {0}) ℕ
  check_at ip username now none = (none, err (from_secs 1))
  check_at ip username now (some st) =
      let wait = wait_of ip (normalize_username unicode username) now (pruned now st) in
      (some (pruned now st), if ltb 0 wait then err wait else ok tt)

  abbrev pub recorded : Ip → List ℕ → ℕ → Limiter Ip → Limiter Ip
  recorded ip name now st = record {
    ips = reserve_key policy now ip (prune_stale now policy.stale_after st.ips);
    usernames = reserve_key policy now name (prune_stale now policy.stale_after st.usernames);
  }

  unfoldable pub record_failure_at : Ip → List ℕ → ℕ → Option (Limiter Ip) → Option (Limiter Ip)
  record_failure_at ip username now none = none
  record_failure_at ip username now (some st) =
      some (recorded ip (normalize_username unicode username) now st)

  unfoldable pub clear : Ip → List ℕ → Option (Limiter Ip) → Option (Limiter Ip)
  clear ip username none = none
  clear ip username (some st) = some (record {
    ips = remove ip st.ips;
    usernames = remove (normalize_username unicode username) st.usernames;
  })

  unfoldable pub step : Call Ip → Option (Limiter Ip) → Option (Limiter Ip)
  step (checked ip username now) st = (check_at ip username now st).0
  step (failed ip username now) st = record_failure_at ip username now st
  step (cleared ip username) st = clear ip username st

  -- The calls are listed latest first.
  unfoldable pub run : List (Call Ip) → Option (Limiter Ip)
  unfolding step
  run [] = some empty
  run (c ∷ calls) = step c (run calls)
