-- ===== src/Jobs/Rounds.antt =====
-- src/server/jobs.rs: what a round of `dispatch_available` that finds a job has done.
use base_search.Prelude.{
  ℕ, ◌+◌, ◌<◌, ◌≡◌, ap, sym, ◌∙◌, String, Bool, true, false, Option, some, List, ◌∷◌, inl, inr,
  arith, nat_eq, ltb, List-cases, value, Bool-cases, Option-cases,
}
use base_search.Prelude.Dict.{get}
use base_search.Auth.Roles.{Permission}
use base_search.Jobs.Types.{JobSnapshot, JobQueueLimits}
use base_search.Jobs.State.{PendingJob, RegistryState, Dispatch}
use base_search.Jobs.Queue.{pick, pick_read, settle, authorized, dispatch_next}

module _ {V : Type 0} where
  -- The job is the first of a queue whose class has a free slot, and it takes that slot.
  pub data Picked (limits : JobQueueLimits) (st : RegistryState V) (pending : PendingJob)
      (picked : RegistryState V) : Type 0 where
    writer :
        (rest : List PendingJob)
        → st.active_write ≡ false
        → st.write_queue ≡ pending ∷ rest
        → picked ≡ record st { write_queue = rest; active_write = true }
        → Picked limits st pending picked
    reader :
        (rest : List PendingJob)
        → st.active_reads < limits.concurrent_reads
        → st.read_queue ≡ pending ∷ rest
        → picked ≡ record st { read_queue = rest; active_reads = st.active_reads + 1 }
        → Picked limits st pending picked

  pick_read-Picked :
      (limits : JobQueueLimits) (st : RegistryState V) (pending : PendingJob)
      (picked : RegistryState V)
      → pick_read limits st ≡ some (pending, picked)
      → Picked limits st pending picked
  pick_read-Picked limits st pending picked h =
      elim (Bool-cases (ltb st.active_reads limits.concurrent_reads)) [
        | inl free ↦ elim (List-cases st.read_queue) [
          | inl e ↦ absurd (ground arith)
          | inr (p, rest, e) ↦ reader rest (ground arith) (ground arith) (ground arith)
        ]
        | inr full ↦ absurd (ground arith)
      ]

  pub pick-Picked :
      (limits : JobQueueLimits) (st : RegistryState V) (pending : PendingJob)
      (picked : RegistryState V)
      → pick limits st ≡ some (pending, picked)
      → Picked limits st pending picked
  pick-Picked limits st pending picked h = elim (Bool-cases st.active_write) [
    | inl busy ↦ pick_read-Picked limits st pending picked (ground arith)
    | inr free ↦ elim (List-cases st.write_queue) [
      | inl e ↦ pick_read-Picked limits st pending picked (ground arith)
      | inr (p, rest, e) ↦ writer rest free (ground arith) (ground arith)
    ]
  ]

  pub Picked-entries :
      {limits : JobQueueLimits} {st : RegistryState V} {pending : PendingJob}
      {picked : RegistryState V}
      → Picked limits st pending picked
      → picked.entries ≡ st.entries
  Picked-entries (writer rest free q e) = ap (λ r. r.entries) e
  Picked-entries (reader rest free q e) = ap (λ r. r.entries) e

  -- The round looks the job up and starts it, or refuses it.
  pub data Round (authorizer : Option (String → Permission → Bool)) (now : ℕ)
      (limits : JobQueueLimits) (st st' : RegistryState V) (d : Dispatch V) : Type 0 where
    round :
        (pending : PendingJob) (picked : RegistryState V) (entry : JobSnapshot V)
        → Picked limits st pending picked
        → get pending.id st.entries ≡ some entry
        → (st', d) ≡ settle (authorized authorizer pending entry) pending entry now picked
        → Round authorizer now limits st st' d

  pub dispatch_next-Round :
      (limits : JobQueueLimits) (authorizer : Option (String → Permission → Bool)) (now : ℕ)
      (st st' : RegistryState V) (d : Dispatch V)
      → dispatch_next limits authorizer now st ≡ value (some (st', d))
      → Round authorizer now limits st st' d
  unfolding dispatch_next
  dispatch_next-Round limits authorizer now st st' d h = elim (Option-cases (pick limits st)) [
    | inl e ↦ absurd (ground arith)
    | inr ((p, picked), e) ↦ elim (Option-cases (get p.id picked.entries)) [
      | inl g ↦ absurd (ground arith)
      | inr (entry, g) ↦
          round p picked entry (pick-Picked limits st p picked e)
            (sym (ap (get p.id) (Picked-entries (pick-Picked limits st p picked e))) ∙ g)
            (ground arith)
    ]
  ]
