-- ===== src/LoginLimit/Soundness.antt =====
-- The maps of the login limiter: what holds of every entry after any failures, by a count of them.
use base_search.Prelude.{
  ℕ, ◌+◌, ◌^◌, ◌≤◌, ◌<◌, ◌≡◌, some, List, if◌then◌else◌, arith, length, Equality, Option-cases, inl,
  inr, ◌==◌, Bool-cases, subst,
}
use base_search.Prelude.Dict.{
  get, remove, get-remove, length-remove-le, remove-IsDistinct, IsDistinct, retain-IsDistinct,
  get-insert, length-retain-le, insert-IsDistinct,
}
use base_search.LoginLimit.Buckets.{
  Policy, Entry, backoff, bump, new_entry, or_insert, saturating_suc, is_recent, prune_stale,
  make_room, reserve_key,
}
use base_search.LoginLimit.Sizes.{
  get-prune_stale, get-make_room, get-make_room_own, make_room-IsDistinct, length-reserve_key,
}

-- An entry after at most `failures` failures, the last of them not after the time `clock`.
pub record IsSoundEntry (policy : Policy) (clock failures : ℕ) (entry : Entry) : Type 0 where
  pub seen : entry.last_seen ≤ clock
  pub fits : entry.attempts < 2 ^ 32
  pub counted : entry.attempts ≤ failures
  pub blocked : entry.blocked_until ≤ entry.last_seen + policy.max_backoff
  pub few : entry.attempts < policy.attempts_before_backoff → entry.blocked_until ≤ entry.last_seen

backoff-le : (policy : Policy) (attempts : ℕ) → backoff policy attempts ≤ policy.max_backoff
unfolding backoff
backoff-le policy attempts = omega arith

bump-IsSoundEntry :
    (policy : Policy) (clock now failures : ℕ) (entry : Entry)
    → clock ≤ now
    → IsSoundEntry policy clock failures entry
    → IsSoundEntry policy now (1 + failures) (bump policy now entry)
bump-IsSoundEntry policy clock now failures entry h s = ground (
  arith,
  s.seen,
  s.fits,
  s.counted,
  s.blocked,
  s.few,
  backoff-le policy (saturating_suc entry.attempts),
)

new_entry-IsSoundEntry :
    (policy : Policy) (now failures : ℕ) → IsSoundEntry policy now failures (new_entry now)
new_entry-IsSoundEntry policy now failures = ground arith

-- A map whose entries have at most the failures that `count` has of their keys.
pub record IsSoundMap {K : Type 0} ⦃q : Equality K⦄ (policy : Policy) (clock : ℕ) (count : K → ℕ)
    (m : List (K × Entry)) : Type 0 where
  pub distinct : IsDistinct m
  pub bounded : length m ≤ policy.max_tracked_keys
  pub entries :
      (key : K) (entry : Entry)
      → get key m ≡ some entry
      → IsSoundEntry policy clock (count key) entry

module _ {K : Type 0} ⦃q : Equality K⦄ where
  abbrev pub count_one_more : K → (K → ℕ) → K → ℕ
  count_one_more key count j = (if key == j then 1 else 0) + count j

  pub prune_stale-IsSoundMap :
      (policy : Policy) (clock now : ℕ) (count : K → ℕ) (m : List (K × Entry))
      → clock ≤ now
      → IsSoundMap policy clock count m
      → IsSoundMap policy now count (prune_stale now policy.stale_after m)
  unfolding prune_stale
  prune_stale-IsSoundMap policy clock now count m h s = record {
    distinct = retain-IsDistinct (is_recent now policy.stale_after) m s.distinct;
    bounded = omega (arith, length-retain-le (is_recent now policy.stale_after) m, s.bounded);
    entries = λ key entry g.
        let e =
          s.entries key entry (get-prune_stale now policy.stale_after key entry m s.distinct g) in
        record {
          seen = omega (arith, e.seen);
          fits = e.fits;
          counted = e.counted;
          blocked = e.blocked;
          few = e.few;
        };
  }

  bumped-IsSoundEntry :
      (policy : Policy) (clock now : ℕ) (count : K → ℕ) (key : K) (m : List (K × Entry))
      → clock ≤ now
      → IsSoundMap policy clock count m
      → IsSoundEntry policy now
          (1 + count key)
          (bump policy now (or_insert (get key (make_room policy key m)) now))
  bumped-IsSoundEntry policy clock now count key m h s =
      rw get-make_room_own (elim (Option-cases (get key m)) [
        | inl g ↦ rw g (
            bump-IsSoundEntry policy now now (count key) (new_entry now) (omega arith)
              (new_entry-IsSoundEntry policy now (count key)))
        | inr (e, g) ↦ rw g (bump-IsSoundEntry policy clock now (count key) e h (s.entries key e g))
      ])

  pub reserve_key-IsSoundMap :
      (policy : Policy) (clock now : ℕ) (count : K → ℕ) (key : K) (m : List (K × Entry))
      → 0 < policy.max_tracked_keys
      → clock ≤ now
      → IsSoundMap policy clock count m
      → IsSoundMap policy now (count_one_more key count) (reserve_key policy now key m)
  unfolding reserve_key
  reserve_key-IsSoundMap policy clock now count key m p h s =
      let room = make_room policy key m in
      let v = bump policy now (or_insert (get key room) now) in
      record {
        distinct = insert-IsDistinct key v room (make_room-IsDistinct policy key m s.distinct);
        bounded = length-reserve_key policy now key m p s.bounded;
        entries = λ j entry g. elim (Bool-cases (key == j)) [
          | inl same ↦
              let b = bumped-IsSoundEntry policy clock now count key m h s in
              let k : key ≡ j = (q.same_iff key j).0 same in
              let e : v ≡ entry = ground (arith, get-insert key j v room) in
              subst (λ x. IsSoundEntry policy now (count_one_more key count j) x) e
                (rw same (subst (λ i. IsSoundEntry policy now (1 + count i) v) k b))
          | inr other ↦
              let e =
                s.entries j entry
                  (get-make_room policy key j entry m (ground (arith, get-insert key j v room))) in
              ground (arith, e.seen, e.fits, e.counted, e.blocked, e.few)
        ];
      }

  pub remove-IsSoundMap :
      (policy : Policy) (clock : ℕ) (count : K → ℕ) (key : K) (m : List (K × Entry))
      → IsSoundMap policy clock count m
      → IsSoundMap policy clock (λ j. if key == j then 0 else count j) (remove key m)
  remove-IsSoundMap policy clock count key m s = record {
    distinct = remove-IsDistinct key m s.distinct;
    bounded = omega (arith, length-remove-le key m, s.bounded);
    entries = λ j entry g.
        let e = s.entries j entry (ground (arith, get-remove key j m)) in
        ground (arith, get-remove key j m, e.seen, e.fits, e.counted, e.blocked, e.few);
  }

  pub later-IsSoundMap :
      (policy : Policy) (clock now : ℕ) (count : K → ℕ) (m : List (K × Entry))
      → clock ≤ now
      → IsSoundMap policy clock count m
      → IsSoundMap policy now count m
  later-IsSoundMap policy clock now count m h s = record {
    distinct = s.distinct;
    bounded = s.bounded;
    entries = λ key entry g.
        let e = s.entries key entry g in
        ground (arith, e.seen, e.fits, e.counted, e.blocked, e.few);
  }
