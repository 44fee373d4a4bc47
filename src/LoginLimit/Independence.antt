-- ===== src/LoginLimit/Independence.antt =====
-- The login limiter: the failures of one peer and name, and the logins of another.
use base_search.Prelude.{
  ℕ, ◌≤◌, ◌<◌, ◌≡◌, ◌≢◌, Bool, some, List, arith, Equality, ok, Option-cases, inl, inr, ◌==◌,
}
use base_search.Prelude.Dict.{get, get-insert, get-retain}
use base_search.LoginLimit.Buckets.{
  Policy, Entry, bump, or_insert, remaining_wait, is_recent, prune_stale, make_room, reserve_key,
}
use base_search.LoginLimit.Sizes.{get-prune_stale, get-make_room}
use base_search.LoginLimit.Soundness.{IsSoundMap, prune_stale-IsSoundMap, reserve_key-IsSoundMap}
use base_search.LoginLimit.Names.{Unicode, normalize_username}
use base_search.Prelude.Texts.{codes_eq}
use base_search.LoginLimit.Limiter.{Call, check_at, record_failure_at, run}
use base_search.LoginLimit.Runs.{IsTimed, run-IsSound}

module _ {K : Type 0} ⦃q : Equality K⦄ where
  get-reserve_key_other :
      (policy : Policy) (now : ℕ) (key j : K) (e : Entry) (m : List (K × Entry))
      → key ≢ j
      → get j (reserve_key policy now key m) ≡ some e
      → get j m ≡ some e
  unfolding reserve_key
  get-reserve_key_other policy now key j e m d h =
      let room = make_room policy key m in
      let v = bump policy now (or_insert (get key room) now) in
      get-make_room policy key j e m (
        ground (
          arith,
          get-insert key j v room,
          λ (x : (key == j) ≡ Bool.true). d ((q.same_iff key j).0 x),
        ))

  -- An entry that a later check still finds after another key's failure, it found before, too.
  still_there :
      (policy : Policy) (now later : ℕ) (count : K → ℕ) (key j : K) (e : Entry)
      (m : List (K × Entry))
      → 0 < policy.max_tracked_keys
      → key ≢ j
      → IsSoundMap policy now count m
      → get j (
          prune_stale later policy.stale_after
            (reserve_key policy now key (prune_stale now policy.stale_after m)))
        ≡ some e
      → get j (prune_stale later policy.stale_after m) ≡ some e
  unfolding prune_stale
  still_there policy now later count key j e m p d s h =
      let now_left = prune_stale now policy.stale_after m in
      let v = prune_stale-IsSoundMap policy now now count m (omega arith) s in
      let w =
        (reserve_key-IsSoundMap policy now now count key now_left p (omega arith) v).distinct in
      let recent =
        get-retain (is_recent later policy.stale_after) j (reserve_key policy now key now_left) w in
      let g : get j (reserve_key policy now key now_left) ≡ some e =
        get-prune_stale later policy.stale_after j e (reserve_key policy now key now_left) w h in
      let f =
        get-prune_stale now policy.stale_after j e m s.distinct
          (get-reserve_key_other policy now key j e now_left d g) in
      ground (arith, get-retain (is_recent later policy.stale_after) j m s.distinct)

  remaining_wait-others :
      (policy : Policy) (now later : ℕ) (count : K → ℕ) (key j : K) (m : List (K × Entry))
      → 0 < policy.max_tracked_keys
      → key ≢ j
      → IsSoundMap policy now count m
      → remaining_wait
          (get j (
            prune_stale later policy.stale_after
              (reserve_key policy now key (prune_stale now policy.stale_after m))))
          later
        ≤ remaining_wait (get j (prune_stale later policy.stale_after m)) later
  remaining_wait-others policy now later count key j m p d s =
      let after =
        prune_stale later policy.stale_after
          (reserve_key policy now key (prune_stale now policy.stale_after m)) in
      elim (Option-cases (get j after)) [
        | inl g ↦ ground arith
        | inr (e, g) ↦ ground (arith, still_there policy now later count key j e m p d s g)
      ]

module _ {Ip : Type 0} ⦃q : Equality Ip⦄ (policy : Policy) (unicode : Unicode) where
  -- After any calls at times that do not go back: a failure from another address with another
  -- name, in normal form, never makes a login wait that is let through without that failure.
  pub record_failure_at-others :
      (now later : ℕ) (ip ip' : Ip) (username username' : List ℕ) (calls : List (Call Ip))
      → 0 < policy.max_tracked_keys
      → IsTimed now calls
      → ip' ≢ ip
      → normalize_username unicode username' ≢ normalize_username unicode username
      → (check_at policy unicode ip username later (run policy unicode calls)).1 ≡ ok tt
      → (check_at policy unicode ip username later
          (record_failure_at policy unicode ip' username' now (run policy unicode calls))).1
        ≡ ok tt
  unfolding check_at record_failure_at
  record_failure_at-others now later ip ip' username username' calls p t d f h =
      let (st, e, s) = run-IsSound policy unicode now calls p t in
      let name = normalize_username unicode username in
      let name' = normalize_username unicode username' in
      let a = remaining_wait-others policy now later _ ip' ip st.ips p d s.ips in
      let b = remaining_wait-others policy now later _ name' name st.usernames p f s.usernames in
      ground (arith, e, a, b)
