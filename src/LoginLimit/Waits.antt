-- ===== src/LoginLimit/Waits.antt =====
-- The answers of the login limiter: who waits, for how long, and who does not.
use base_search.Prelude.{
  ℕ, ◌+◌, ◌-◌, ◌≤◌, ◌<◌, ◌≡◌, refl, max, Option, none, some, List, [], ◌∷◌, if◌then◌else◌, ltb, leb,
  arith, Equality, ok, err, length, Option-cases, inl, inr, eq_refl, ap, subst, ◌∙◌,
}
use base_search.Prelude.Dict.{get, remove, get-remove, get-retain, get-insert}
use base_search.LoginLimit.Buckets.{
  Policy, Entry, backoff, bump, or_insert, saturating_suc, remaining_wait, is_recent, prune_stale,
  make_room, reserve_key,
}
use base_search.LoginLimit.Sizes.{get-make_room_own}
use base_search.LoginLimit.Soundness.{IsSoundMap, prune_stale-IsSoundMap, reserve_key-IsSoundMap}
use base_search.LoginLimit.Names.{Unicode, normalize_username}
use base_search.Prelude.Texts.{codes_eq}
use base_search.LoginLimit.Limiter.{Limiter, Call, pruned, check_at, record_failure_at, clear, run}
use base_search.LoginLimit.Runs.{IsTimed, ip_failures, name_failures, IsSound, run-IsSound}

-- The wait that a number of failures calls for.
abbrev pub penalty : Policy → ℕ → ℕ
penalty policy attempts =
    if leb policy.attempts_before_backoff attempts then backoff policy attempts else 0

abbrev pub attempts_of : Option Entry → ℕ
attempts_of none = 0
attempts_of (some entry) = entry.attempts

module _ {K : Type 0} ⦃q : Equality K⦄ where
  remaining_wait-le :
      (policy : Policy) (now : ℕ) (count : K → ℕ) (key : K) (m : List (K × Entry))
      → IsSoundMap policy now count m
      → (remaining_wait (get key m) now ≤ policy.max_backoff)
        × (count key < policy.attempts_before_backoff → remaining_wait (get key m) now ≡ 0)
  remaining_wait-le policy now count key m s = elim (Option-cases (get key m)) [
    | inl g ↦ ground arith
    | inr (e, g) ↦ let d = s.entries key e g in ground (arith, d.seen, d.counted, d.blocked, d.few)
  ]

  or_insert-wait :
      (policy : Policy) (now later : ℕ) (count : K → ℕ) (key : K) (m : List (K × Entry))
      → IsSoundMap policy now count m
      → now ≤ later
      → remaining_wait (some (bump policy now (or_insert (get key m) now))) later
        ≡ penalty policy (saturating_suc (attempts_of (get key m))) - (later - now)
  or_insert-wait policy now later count key m s h = elim (Option-cases (get key m)) [
    | inl g ↦ rw g (ground arith)
    | inr (e, g) ↦ let d = s.entries key e g in rw g (ground (arith, d.seen, d.few, d.fits))
  ]

  get-reserve_key :
      (policy : Policy) (now : ℕ) (key : K) (m : List (K × Entry))
      → get key (reserve_key policy now key m) ≡ some (bump policy now (or_insert (get key m) now))
  unfolding reserve_key
  get-reserve_key policy now key m =
      let room = make_room policy key m in
      let v = bump policy now (or_insert (get key room) now) in
      get-insert key key v room
      ∙ ap (λ b. if b then some v else get key room) (eq_refl key)
      ∙ ap (λ o. some (bump policy now (or_insert o now))) (get-make_room_own policy key m)

  -- After a failure, the wait of its key at a time before it is stale.
  remaining_wait-reserve_key :
      (policy : Policy) (now later : ℕ) (count : K → ℕ) (key : K) (m : List (K × Entry))
      → 0 < policy.max_tracked_keys
      → IsSoundMap policy now count m
      → now ≤ later
      → later < now + policy.stale_after
      → remaining_wait
          (get key (prune_stale later policy.stale_after (reserve_key policy now key m)))
          later
        ≡ penalty policy (saturating_suc (attempts_of (get key m))) - (later - now)
  unfolding prune_stale
  remaining_wait-reserve_key policy now later count key m p s h l =
      let e = or_insert (get key m) now in
      let d = (reserve_key-IsSoundMap policy now now count key m p (omega arith) s).distinct in
      let k = or_insert-wait policy now later count key m s h in
      ground (
        arith,
        get-retain (is_recent later policy.stale_after) key (reserve_key policy now key m) d,
        get-reserve_key policy now key m,
        k,
      )

  get-prune_stale-none :
      (now age : ℕ) (key : K) (m : List (K × Entry))
      → get key m ≡ none
      → get key (prune_stale now age m) ≡ none
  unfolding prune_stale
  get-prune_stale-none now age key [] g = refl
  get-prune_stale-none now age key ((j, e) ∷ m) g =
      ground (arith, get-prune_stale-none now age key m)

module _ {Ip : Type 0} ⦃q : Equality Ip⦄ (policy : Policy) (unicode : Unicode) where
  -- After any calls at times that do not go back, the limiter is not poisoned and neither of its
  -- maps has more entries than the policy allows, if it allows at least one.
  pub run_bounded :
      (now : ℕ) (calls : List (Call Ip))
      → 0 < policy.max_tracked_keys
      → IsTimed now calls
      → (st : Limiter Ip) × (run policy unicode calls ≡ some st)
        × (length st.ips ≤ policy.max_tracked_keys)
        × (length st.usernames ≤ policy.max_tracked_keys)
  run_bounded now calls p t =
      let (st, e, s) = run-IsSound policy unicode now calls p t in
      (st, e, s.ips.bounded, s.usernames.bounded)

  -- After any calls at times that do not go back: a login that is refused is told to wait for a
  -- time that is not zero and not more than the longest backoff.
  check_at-wait :
      (now wait : ℕ) (ip : Ip) (username : List ℕ) (calls : List (Call Ip))
      → 0 < policy.max_tracked_keys
      → IsTimed now calls
      → (check_at policy unicode ip username now (run policy unicode calls)).1 ≡ err wait
      → (0 < wait) × (wait ≤ policy.max_backoff)
  unfolding check_at
  check_at-wait now wait ip username calls p t h =
      let (st, e, s) = run-IsSound policy unicode now calls p t in
      let name = normalize_username unicode username in
      let a =
        remaining_wait-le policy now _ ip _
          (prune_stale-IsSoundMap policy now now _ st.ips (omega arith) s.ips) in
      let b =
        remaining_wait-le policy now _ name _
          (prune_stale-IsSoundMap policy now now _ st.usernames (omega arith) s.usernames) in
      ground (arith, e, a.0, b.0)

  -- After any calls at times that do not go back: with fewer failures from the address, and fewer
  -- of the name in its normal form, than the backoff starts at, each counted since it was last
  -- cleared, a login is let through.
  pub check_at-few :
      (now : ℕ) (ip : Ip) (username : List ℕ) (calls : List (Call Ip))
      → 0 < policy.max_tracked_keys
      → IsTimed now calls
      → ip_failures policy unicode calls ip < policy.attempts_before_backoff
      → name_failures policy unicode calls (normalize_username unicode username)
        < policy.attempts_before_backoff
      → (check_at policy unicode ip username now (run policy unicode calls)).1 ≡ ok tt
  unfolding check_at
  check_at-few now ip username calls p t f g =
      let (st, e, s) = run-IsSound policy unicode now calls p t in
      let name = normalize_username unicode username in
      let a =
        remaining_wait-le policy now _ ip _
          (prune_stale-IsSoundMap policy now now _ st.ips (omega arith) s.ips) in
      let b =
        remaining_wait-le policy now _ name _
          (prune_stale-IsSoundMap policy now now _ st.usernames (omega arith) s.usernames) in
      ground (arith, e, a.1 f, b.1 g)

  -- A successful login forgets the failures of both its address and its name, so that the same
  -- user's next login is let through at once, in whatever state the limiter was.
  clear-check_at :
      (now : ℕ) (ip : Ip) (username : List ℕ) (st : Limiter Ip)
      → (check_at policy unicode ip username now (clear policy unicode ip username (some st))).1
        ≡ ok tt
  unfolding check_at clear
  clear-check_at now ip username st =
      let name = normalize_username unicode username in
      ground (
        arith,
        eq_refl ip,
        eq_refl name,
        get-remove ip ip st.ips,
        get-remove name name st.usernames,
        get-prune_stale-none now policy.stale_after ip (remove ip st.ips),
        get-prune_stale-none now policy.stale_after name (remove name st.usernames),
      )

  -- After any calls at times that do not go back: a failure and then, before the failure is stale,
  -- a login from the same address with the same name. The wait is the larger one of what the
  -- failures of the address call for and what those of the name do, less the time since then.
  pub record_failure_at-check_at :
      (now later : ℕ) (ip : Ip) (username : List ℕ) (calls : List (Call Ip)) (st : Limiter Ip)
      → 0 < policy.max_tracked_keys
      → IsTimed now calls
      → run policy unicode calls ≡ some st
      → now ≤ later
      → later < now + policy.stale_after
      → let name = normalize_username unicode username in
        let before = pruned policy unicode now st in
        let of_ip = penalty policy (saturating_suc (attempts_of (get ip before.ips))) in
        let of_name = penalty policy (saturating_suc (attempts_of (get name before.usernames))) in
        let wait = max of_ip of_name - (later - now) in
        (check_at policy unicode ip username later
          (record_failure_at policy unicode ip username now (some st))).1
        ≡ (if ltb 0 wait then err wait else ok tt)
  unfolding check_at record_failure_at
  record_failure_at-check_at now later ip username calls st p t r h l =
      let (st', e, s) = run-IsSound policy unicode now calls p t in
      let name = normalize_username unicode username in
      let before = pruned policy unicode now st in
      let same : st' ≡ st = ground (arith, e) in
      let v = subst (λ x. IsSound policy unicode now calls x) same s in
      let a =
        remaining_wait-reserve_key policy now later _ ip before.ips p
          (prune_stale-IsSoundMap policy now now _ st.ips (omega arith) v.ips) h l in
      let b =
        remaining_wait-reserve_key policy now later _ name before.usernames p
          (prune_stale-IsSoundMap policy now now _ st.usernames (omega arith) v.usernames) h l in
      ground (arith, a, b)
