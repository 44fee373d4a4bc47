-- ===== src/Jobs/Pruning.antt =====
-- Pruning: which jobs `prune` forgets, by rank among the finished ones instead of by sorting.
use base_search.Prelude.{
  ℕ, ◌≡◌, refl, Bool, true, false, ◌&&◌, none, some, List, [], ◌∷◌, if◌then◌else◌, arith, nat_eq,
  ◌==◌, ltb, length, any, count_if, Bool-cases, Option-cases, inl, inr, leb, ap, ◌∙◌,
}
use base_search.Prelude.Dict.{get}
use base_search.Jobs.Types.{is_terminal, JobSnapshot}
use base_search.Jobs.State.{RegistryState}
use base_search.Jobs.Keys.{Keyed, get-remove_all}
use base_search.Jobs.Retention.{Finished, newer, sort_newest, finished, expired, prune}
use base_search.Jobs.Ranking.{
  has_id, same, rank, sort_newest-IsSorted, count_if-sort_newest, any-absent, same-le, any-drop,
  rank-le,
}

module _ {V : Type 0} where
  finished-absent :
      (i : ℕ) (m : List (ℕ × JobSnapshot V))
      → Keyed m
      → get i m ≡ none
      → count_if (has_id i) (finished m) ≡ 0
  finished-absent i [] k g = refl
  finished-absent i ((j, s) ∷ m) k g = ground (arith, finished-absent i m k.2)

  abbrev finished_of : ℕ → JobSnapshot V → Finished
  finished_of i s = record { id = i; updated_ms = s.updated_ms }

  finished-present :
      (i : ℕ) (m : List (ℕ × JobSnapshot V)) (s : JobSnapshot V)
      → Keyed m
      → get i m ≡ some s
      → (count_if (has_id i) (finished m) ≡ (if is_terminal s.status then 1 else 0))
        × (count_if (same (finished_of i s)) (finished m) ≡ (if is_terminal s.status then 1 else 0))
  finished-present i [] s k g = ground arith
  finished-present i ((j, t) ∷ m) s k g = ground (
    arith,
    same-le (finished_of i s) (finished m),
    finished-absent i m k.2,
    finished-present i m s k.2,
  )

  -- A finished job with `retained` finished jobs, itself among them, that are at least as new.
  abbrev pub is_surplus : ℕ → ℕ → List (ℕ × JobSnapshot V) → Bool
  is_surplus retained i m = elim (get i m) [
    | none ↦ false
    | some s ↦ is_terminal s.status && ltb retained (rank (finished_of i s) (finished m))
  ]

  any-expired :
      (k i : ℕ) (m : List (ℕ × JobSnapshot V))
      → Keyed m
      → any (λ id. id == i) (expired k m) ≡ is_surplus k i m
  any-expired k i m d = elim (Option-cases (get i m)) [
    | inl g ↦ ground (
      arith,
      any-absent i k (sort_newest (finished m)),
      count_if-sort_newest (has_id i) (finished m),
      finished-absent i m d g,
    )
    | inr (s, g) ↦
        let x = finished_of i s in
        ground (
          arith,
          finished-present i m s d g,
          any-absent i k (sort_newest (finished m)),
          any-drop x k (sort_newest (finished m)) (sort_newest-IsSorted (finished m)),
          count_if-sort_newest (has_id i) (finished m),
          count_if-sort_newest (same x) (finished m),
          count_if-sort_newest (λ y. newer y x) (finished m),
        )
  ]

  few-kept :
      (k i : ℕ) (m : List (ℕ × JobSnapshot V))
      → leb (length (finished m)) k ≡ true
      → is_surplus k i m ≡ false
  few-kept k i m h = elim (Option-cases (get i m)) [
    | inl g ↦ ground arith
    | inr (s, g) ↦ ground (arith, rank-le (finished_of i s) (finished m))
  ]

  -- When the store has deleted the rows, `prune` forgets exactly the finished jobs that are not
  -- among the `retained` newest, in the order of their last change and then of their id, and
  -- leaves every other job as it was.
  pub prune_lem :
      (retained i : ℕ) (st : RegistryState V)
      → Keyed st.entries
      → get i (prune retained true st).entries
        ≡ (if is_surplus retained i st.entries then none else get i st.entries)
  unfolding prune
  prune_lem retained i st d = elim (Bool-cases (leb (length (finished st.entries)) retained)) [
    | inl few ↦ rw (few, few-kept retained i st.entries few)
    | inr many ↦ rw many (
        get-remove_all i (expired retained st.entries) st.entries
        ∙ ap (λ b. if b then none else get i st.entries) (any-expired retained i st.entries d))
  ]

  pub prune-queues :
      (retained : ℕ) (deleted : Bool) (st : RegistryState V)
      → ((prune retained deleted st).write_queue ≡ st.write_queue)
        × ((prune retained deleted st).read_queue ≡ st.read_queue)
  unfolding prune
  prune-queues retained deleted st = ground arith

  pub prune-not_deleted : (retained : ℕ) (st : RegistryState V) → prune retained false st ≡ st
  unfolding prune
  prune-not_deleted retained st = ground arith
