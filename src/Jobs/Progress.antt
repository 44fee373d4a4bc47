-- ===== src/Jobs/Progress.antt =====
-- src/server/jobs.rs: the dispatcher's loop ends, does not panic, and leaves no job waiting that
-- has a free slot.
use base_search.Prelude.{
  ℕ, zero, suc, ◌+◌, ◌<◌, ◌≡◌, ◌⊎◌, inl, inr, refl, ap, String, Bool, true, Option, none, some, [],
  arith, length, Panics, panic, value, ◌≤◌,
}
use base_search.Auth.Roles.{Permission}
use base_search.Jobs.Types.{JobSnapshot, JobQueueLimits}
use base_search.Jobs.State.{PendingJob, RegistryState, Dispatch, start, reject}
use base_search.Jobs.Queue.{dispatch_next, free_slot, settle, authorized}
use base_search.Jobs.Retention.{job_history_limit}
use base_search.Jobs.Rounds.{Picked, writer, reader, Round, round, dispatch_next-Round}
use base_search.Jobs.Pruning.{prune-queues}
use base_search.Jobs.World.{
  World, Reach, pruned, started, refused, slot_freed, here, next, new_world,
}
use base_search.Jobs.Schedules.{Settled, Step-Settled, Settled-no_panic, reached-Settled}
use base_search.Jobs.Dispatcher.{after_round, dispatch_available}

Panics-cases {ℓ} :
    {A : Type ℓ} (r : Panics (Option A))
    → (r ≡ panic) ⊎ (r ≡ value none) ⊎ ((a : A) × (r ≡ value (some a)))
Panics-cases panic = inl refl
Panics-cases (value none) = inr (inl refl)
Panics-cases (value (some a)) = inr (inr (a, refl))

module _ {V : Type 0} where
  Reach-trans : {w u v : World V} → Reach w u → Reach u v → Reach w v
  Reach-trans r here = r
  Reach-trans r (next q s) = next (Reach-trans r q) s

  abbrev pub backlog : RegistryState V → ℕ
  backlog st = length st.write_queue + length st.read_queue

  -- Nothing that waits could start.
  pub record IsIdle (w : World V) : Type 0 where
    pub writers : (w.state.active_write ≡ true) ⊎ (w.state.write_queue ≡ [])
    pub readers : (w.limits.concurrent_reads ≤ w.state.active_reads) ⊎ (w.state.read_queue ≡ [])

  ends-IsIdle :
      (w : World V) (authorizer : Option (String → Permission → Bool)) (now : ℕ)
      → dispatch_next w.limits authorizer now w.state ≡ value none
      → IsIdle w
  unfolding dispatch_next
  ends-IsIdle w authorizer now h = ground arith

  Picked-backlog :
      {limits : JobQueueLimits} {st picked : RegistryState V} {pending : PendingJob}
      → Picked limits st pending picked
      → backlog st ≡ suc (backlog picked)
  Picked-backlog (writer rest free q e) = ground (arith, ap length q)
  Picked-backlog (reader rest free q e) = ground (arith, ap length q)

  settle-backlog :
      (allowed : Bool) (pending : PendingJob) (entry : JobSnapshot V) (now : ℕ)
      (picked : RegistryState V)
      → backlog (settle allowed pending entry now picked).0 ≡ backlog picked
  settle-backlog allowed pending entry now picked = ground arith

  Round-backlog :
      {limits : JobQueueLimits} {authorizer : Option (String → Permission → Bool)} {now : ℕ}
      {st st' : RegistryState V} {d : Dispatch V}
      → Round authorizer now limits st st' d
      → backlog st ≡ suc (backlog st')
  Round-backlog {authorizer} {now} {st} (round pending picked entry p g e) = ground (
    arith,
    Picked-backlog p,
    settle-backlog (authorized authorizer pending entry) pending entry now picked,
    ap (λ (x : RegistryState V × Dispatch V). x.0) e,
  )

  -- The steps of a round, the freeing of a refused job's slot and the pruning after it among them.
  round-Reach :
      (w : World V) (authorizer : Option (String → Permission → Bool)) (now : ℕ) (deleted : Bool)
      (st : RegistryState V) (d : Dispatch V)
      → dispatch_next w.limits authorizer now w.state ≡ value (some (st, d))
      → Reach w (after_round deleted w st d)
  round-Reach w authorizer now deleted st (start pending snapshot) h =
      next here (started authorizer now st pending snapshot h)
  round-Reach w authorizer now deleted st (reject snapshot class) h =
      next
        (next (next here (refused authorizer now st snapshot class h))
          (slot_freed [] w.rejecting class refl))
        (pruned job_history_limit deleted)

  after_round-backlog :
      (w : World V) (deleted : Bool) (st : RegistryState V) (d : Dispatch V)
      → backlog (after_round deleted w st d).state ≡ backlog st
  after_round-backlog w deleted st (start pending snapshot) = refl
  after_round-backlog w deleted st (reject snapshot class) =
      ground (arith, prune-queues job_history_limit deleted (free_slot class st))

  Reach-keeps : {w u : World V} → Reach w u → Settled w → Settled u
  Reach-keeps here v = v
  Reach-keeps (next r s) v = Step-Settled s (Reach-keeps r v)

  abbrev pub Completes : World V → Option (World V) → Type 0
  Completes w result = (u : World V) × (result ≡ some u) × Reach w u × IsIdle u

  dispatch_available-Completes :
      (fuel : ℕ) (authorizer : Option (String → Permission → Bool)) (now : ℕ) (deleted : Bool)
      (w : World V)
      → Settled w
      → backlog w.state < fuel
      → Completes w (dispatch_available fuel authorizer now deleted w)
  unfolding dispatch_available
  dispatch_available-Completes zero authorizer now deleted w v h = absurd (omega arith)
  dispatch_available-Completes (suc fuel) authorizer now deleted w v h =
      elim (Panics-cases (dispatch_next w.limits authorizer now w.state)) [
        | inl e ↦ absurd (Settled-no_panic w authorizer now v e)
        | inr (inl e) ↦ (w, rw (e, dispatch_available), here, ends-IsIdle w authorizer now e)
        | inr (inr ((st, d), e)) ↦
            let r = round-Reach w authorizer now deleted st d e in
            let (u, q, s, idle) =
              dispatch_available-Completes fuel authorizer now deleted (after_round deleted w st d)
                (Reach-keeps r v)
                (omega (
                  arith,
                  Round-backlog (dispatch_next-Round w.limits authorizer now w.state st d e),
                  after_round-backlog w deleted st d,
                )) in
            (u, rw (e, dispatch_available) q, Reach-trans r s, idle)
      ]

  -- In every state that a schedule of a new registry reaches, the dispatcher's loop ends within
  -- one round more than there are waiting jobs, without a panic, by steps of the registry; and
  -- then no job waits whose class has a free slot.
  pub dispatch_available_lem :
      (limits : JobQueueLimits) (w : World V) (authorizer : Option (String → Permission → Bool))
      (now : ℕ) (deleted : Bool)
      → Reach (new_world limits) w
      → Completes w (dispatch_available (suc (backlog w.state)) authorizer now deleted w)
  dispatch_available_lem limits w authorizer now deleted r =
      dispatch_available-Completes (suc (backlog w.state)) authorizer now deleted w
        (reached-Settled limits w r) (omega arith)
