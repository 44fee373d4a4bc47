-- ===== src/LoginLimit/Sizes.antt =====
-- The maps of the login limiter: eviction makes room, pruning and eviction add no entry.
use base_search.Prelude.{
  ℕ, ◌+◌, ◌≤◌, ◌<◌, ◌≡◌, refl, true, none, some, List, [], ◌∷◌, leb, arith, length, Equality,
  Option-cases, inl, inr, Bool-cases, ◌&&◌, not,
}
use base_search.Prelude.Dict.{
  get, contains_key, IsDistinct, get-retain, get-remove, length-remove-lt, remove-IsDistinct,
  length-insert-le, length-insert_known,
}
use base_search.LoginLimit.Buckets.{
  Policy, Entry, is_recent, oldest, evict_oldest, prune_stale, make_room, reserve_key, bump,
  or_insert,
}

module _ {K : Type 0} ⦃q : Equality K⦄ where
  oldest-known :
      (k : K) (seen : ℕ) (m : List (K × Entry))
      → oldest m ≡ some (k, seen)
      → contains_key k m ≡ true
  unfolding oldest
  oldest-known k seen [] h = ground arith
  oldest-known k seen ((j, e) ∷ m) h = elim (Option-cases (oldest m)) [
    | inl g ↦ ground (arith, q.same_iff j k)
    | inr ((i, s), g) ↦ ground (arith, q.same_iff j k, oldest-known i s m g)
  ]

  oldest-none : (m : List (K × Entry)) → oldest m ≡ none → length m ≡ 0
  unfolding oldest
  oldest-none [] h = refl
  oldest-none ((j, e) ∷ m) h = elim (Option-cases (oldest m)) [
    | inl g ↦ ground arith
    | inr ((i, s), g) ↦ ground arith
  ]

  length-evict_oldest-lt :
      (m : List (K × Entry)) → 0 < length m → length (evict_oldest m) + 1 ≤ length m
  unfolding evict_oldest
  length-evict_oldest-lt m h = elim (Option-cases (oldest m)) [
    | inl g ↦ ground (arith, oldest-none m g)
    | inr ((k, s), g) ↦ ground (arith, length-remove-lt k m (oldest-known k s m g))
  ]

  get-evict_oldest :
      (j : K) (e : Entry) (m : List (K × Entry))
      → get j (evict_oldest m) ≡ some e
      → get j m ≡ some e
  unfolding evict_oldest
  get-evict_oldest j e m h = elim (Option-cases (oldest m)) [
    | inl g ↦ ground arith
    | inr ((k, s), g) ↦ ground (arith, get-remove k j m)
  ]

  evict_oldest-IsDistinct : (m : List (K × Entry)) → IsDistinct m → IsDistinct (evict_oldest m)
  unfolding evict_oldest
  evict_oldest-IsDistinct m d = elim (Option-cases (oldest m)) [
    | inl g ↦ rw (evict_oldest, g) d
    | inr ((k, s), g) ↦ rw (evict_oldest, g) (remove-IsDistinct k m d)
  ]

  pub get-prune_stale :
      (now age : ℕ) (j : K) (e : Entry) (m : List (K × Entry))
      → IsDistinct m
      → get j (prune_stale now age m) ≡ some e
      → get j m ≡ some e
  unfolding prune_stale
  get-prune_stale now age j e m d h = ground (arith, get-retain (is_recent now age) j m d)

  pub get-make_room :
      (policy : Policy) (key j : K) (e : Entry) (m : List (K × Entry))
      → get j (make_room policy key m) ≡ some e
      → get j m ≡ some e
  get-make_room policy key j e m h = ground (arith, get-evict_oldest j e m)

  pub make_room-IsDistinct :
      (policy : Policy) (key : K) (m : List (K × Entry))
      → IsDistinct m
      → IsDistinct (make_room policy key m)
  make_room-IsDistinct policy key m d =
      elim (Bool-cases (not (contains_key key m) && leb policy.max_tracked_keys (length m))) [
        | inl b ↦ rw b (evict_oldest-IsDistinct m d)
        | inr b ↦ rw b d
      ]

  pub get-make_room_own :
      (policy : Policy) (key : K) (m : List (K × Entry))
      → get key (make_room policy key m) ≡ get key m
  get-make_room_own policy key m = elim (Option-cases (get key (make_room policy key m))) [
    | inl g ↦ ground arith
    | inr (e, g) ↦ ground (arith, get-make_room policy key key e m g)
  ]

  pub length-reserve_key :
      (policy : Policy) (now : ℕ) (key : K) (m : List (K × Entry))
      → 0 < policy.max_tracked_keys
      → length m ≤ policy.max_tracked_keys
      → length (reserve_key policy now key m) ≤ policy.max_tracked_keys
  unfolding reserve_key
  length-reserve_key policy now key m p h =
      let room = make_room policy key m in
      let v = bump policy now (or_insert (get key room) now) in
      ground (
        arith,
        length-evict_oldest-lt m,
        get-make_room_own policy key m,
        length-insert-le key v room,
        length-insert_known key v room,
      )
