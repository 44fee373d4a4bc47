-- ===== src/LoginLimit/Buckets.antt =====
-- src/server/login_limit.rs: one map of the limiter, by key. An `Instant` and a `Duration` are
-- numbers of nanoseconds. Where several entries are the oldest, `evict_oldest` takes the first in
-- the order of the list, as the code takes the first in the order of its hash map.
use base_search.Prelude.{
  ℕ, ◌+◌, ◌-◌, ◌*◌, ◌^◌, min, Bool, true, Option, none, some, List, [], ◌∷◌, if◌then◌else◌, ltb,
  leb, length, ◌&&◌, not, Equality,
}
use base_search.Prelude.Dict.{get, insert, remove, contains_key, retain}

pub record Policy : Type 0 where
  pub max_tracked_keys : ℕ
  pub stale_after : ℕ
  pub attempts_before_backoff : ℕ
  pub max_backoff : ℕ

abbrev pub from_secs : ℕ → ℕ
from_secs seconds = seconds * 1000000000

abbrev pub default_policy : Policy
default_policy = record {
  max_tracked_keys = 2048;
  stale_after = from_secs (15 * 60);
  attempts_before_backoff = 5;
  max_backoff = from_secs 60;
}

pub record Entry : Type 0 where
  pub attempts : ℕ
  pub blocked_until : ℕ
  pub last_seen : ℕ

-- `u32::saturating_add(1)`.
abbrev pub saturating_suc : ℕ → ℕ
saturating_suc attempts = if leb (2 ^ 32 - 1) attempts then 2 ^ 32 - 1 else attempts + 1

-- The exponent is at most 31, so `1u64.checked_shl` is a power of two and never `None`.
unfoldable pub backoff : Policy → ℕ → ℕ
backoff policy attempts =
    min (from_secs (2 ^ min (attempts - policy.attempts_before_backoff) 31)) policy.max_backoff

abbrev pub new_entry : ℕ → Entry
new_entry now = record { attempts = 0; blocked_until = now; last_seen = now }

-- What a failure does to the entry of its key.
abbrev pub bump : Policy → ℕ → Entry → Entry
bump policy now entry =
    let attempts = saturating_suc entry.attempts in
    record {
      attempts = attempts;
      last_seen = now;
      blocked_until =
          if leb policy.attempts_before_backoff attempts
          then now + backoff policy attempts
          else entry.blocked_until;
    }

-- `now.checked_duration_since(last_seen)` is `None` for a `last_seen` in the future.
abbrev pub is_recent : ℕ → ℕ → Entry → Bool
is_recent now stale_after entry =
    if ltb now entry.last_seen then true else ltb (now - entry.last_seen) stale_after

abbrev pub remaining_wait : Option Entry → ℕ → ℕ
remaining_wait none now = 0
remaining_wait (some entry) now =
    if ltb entry.blocked_until now then 0 else entry.blocked_until - now

abbrev pub or_insert : Option Entry → ℕ → Entry
or_insert none now = new_entry now
or_insert (some entry) now = entry

module _ {K : Type 0} ⦃q : Equality K⦄ where
  -- The key with the smallest `last_seen`, the first one if there are several.
  unfoldable pub oldest : List (K × Entry) → Option (K × ℕ)
  oldest [] = none
  oldest ((k, e) ∷ m) = elim (oldest m) [
    | none ↦ some (k, e.last_seen)
    | some (j, seen) ↦ if leb e.last_seen seen then some (k, e.last_seen) else some (j, seen)
  ]

  unfoldable pub evict_oldest : List (K × Entry) → List (K × Entry)
  evict_oldest m = elim (oldest m) [ none ↦ m | some (k, seen) ↦ remove k m ]

  unfoldable pub prune_stale : ℕ → ℕ → List (K × Entry) → List (K × Entry)
  prune_stale now stale_after m = retain (is_recent now stale_after) m

  abbrev pub make_room : Policy → K → List (K × Entry) → List (K × Entry)
  make_room policy key m =
      if not (contains_key key m) && leb policy.max_tracked_keys (length m)
      then evict_oldest m
      else m

  unfoldable pub reserve_key : Policy → ℕ → K → List (K × Entry) → List (K × Entry)
  reserve_key policy now key m =
      let room = make_room policy key m in
      insert key (bump policy now (or_insert (get key room) now)) room
