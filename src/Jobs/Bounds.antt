-- ===== src/Jobs/Bounds.antt =====
-- The limits of the queues on every schedule of the registry's threads (src/server/jobs.rs).
use base_search.Prelude.{◌≤◌, ◌≡◌, String, true, some, arith, refl}
use base_search.Jobs.Types.{JobKind, is_single_flight, JobQueueLimits, WorkClass}
use base_search.Jobs.State.{RegistryState, start, reject, pending_for_user, workspace_pending}
use base_search.Jobs.Admission.{acquire_preview, release_preview}
use base_search.Jobs.Rounds.{dispatch_next-Round}
use base_search.Jobs.Load.{
  NotMore, flights, drop_admission-NotMore, cancel-NotMore, call-NotMore, enter-NotMore,
  prune-NotMore, worker_finished-NotMore, Round-NotMore,
}
use base_search.Jobs.Arrivals.{enqueue-NotMore, reserve-bounded}
use base_search.Jobs.World.{
  World, Step, Reach, reserved, dropped, enqueued, preview_acquired, preview_released, cancelled,
  pruned, started, refused, slot_freed, called, committed, finished, here, next, new_world,
}
use base_search.Jobs.Schedules.{Settled, reached-Settled, Reach-limits}

module _ {V : Type 0} (user : String) (kind : JobKind) where
  -- For one user and one kind of job.
  record Capped (w : World V) : Type 0 where
    workspace : workspace_pending w.state ≤ w.limits.workspace_pending
    own : pending_for_user w.state user ≤ w.limits.per_user_pending
    flying : is_single_flight kind ≡ true → flights kind w.state ≤ 1

  NotMore-Capped :
      (w : World V) (st : RegistryState V) {u : World V}
      → NotMore user kind w.state st
      → u.state ≡ st
      → u.limits ≡ w.limits
      → Capped w
      → Capped u
  NotMore-Capped w st m e l v = ground arith

  acquire_preview-NotMore :
      (limits : JobQueueLimits) (st st' : RegistryState V)
      → acquire_preview limits st ≡ some st'
      → NotMore user kind st st'
  unfolding acquire_preview
  acquire_preview-NotMore limits st st' h = ground arith

  release_preview-NotMore : (st : RegistryState V) → NotMore user kind st (release_preview st)
  unfolding release_preview
  release_preview-NotMore st = ground arith

  Step-Capped : {w u : World V} → Step w u → Settled w → Capped w → Capped u
  Step-Capped {w} (reserved identity k rid st admission h) q v =
      ground (arith, reserve-bounded user kind w.limits identity rid k w.state st admission h)
  Step-Capped {w} (dropped admission) q v =
      NotMore-Capped w _ (drop_admission-NotMore user kind admission w.state) refl refl v
  Step-Capped {w} (enqueued admission title visibility input now h) q v =
      NotMore-Capped w _
        (enqueue-NotMore user kind w.next_id admission title visibility input now w.state) refl refl
        v
  Step-Capped {w} (preview_acquired st h) q v =
      NotMore-Capped w _ (acquire_preview-NotMore w.limits w.state st h) refl refl v
  Step-Capped {w} preview_released q v =
      NotMore-Capped w _ (release_preview-NotMore w.state) refl refl v
  Step-Capped {w} (cancelled id now) q v =
      NotMore-Capped w _ (cancel-NotMore user kind id now w.state) refl refl v
  Step-Capped {w} (pruned retained deleted) q v =
      NotMore-Capped w _ (prune-NotMore user kind retained deleted w.state) refl refl v
  Step-Capped {w} (started authorizer now st pending snapshot h) q v =
      NotMore-Capped w _
        (Round-NotMore user kind
          (dispatch_next-Round w.limits authorizer now w.state st (start pending snapshot) h)
          (λ i. (q.places i).waits_queued))
        refl refl v
  Step-Capped {w} (refused authorizer now st snapshot class h) q v =
      NotMore-Capped w _
        (Round-NotMore user kind
          (dispatch_next-Round w.limits authorizer now w.state st (reject snapshot class) h)
          (λ i. (q.places i).waits_queued))
        refl refl v
  Step-Capped {w} (slot_freed before after WorkClass.read e) q v = ground arith
  Step-Capped {w} (slot_freed before after WorkClass.write e) q v = ground arith
  Step-Capped {w} (called id handle_call now h) q v =
      NotMore-Capped w _ (call-NotMore user kind id handle_call now w.state) refl refl v
  Step-Capped {w} (committed id phase now h) q v =
      NotMore-Capped w _ (enter-NotMore user kind id phase now w.state) refl refl v
  Step-Capped {w} (finished before after worker now st snapshot e h) q v =
      NotMore-Capped w _
        (worker_finished-NotMore user kind worker.id worker.class now w.state st snapshot h) refl
        refl v

  Reach-Capped : (limits : JobQueueLimits) {u : World V} → Reach (new_world limits) u → Capped u
  Reach-Capped limits here = ground arith
  Reach-Capped limits (next {u} r s) =
      Step-Capped s (reached-Settled limits u r) (Reach-Capped limits r)

  -- On every schedule of a new registry: the jobs and reservations that wait are no more than the
  -- limit of the workspace, those of any user no more than the limit per user, and of a kind that
  -- is single flight at most one job is reserved or unfinished.
  pub pending_bounded :
      (limits : JobQueueLimits) (w : World V)
      → Reach (new_world limits) w
      → (workspace_pending w.state ≤ limits.workspace_pending)
        × (pending_for_user w.state user ≤ limits.per_user_pending)
        × (is_single_flight kind ≡ true → flights kind w.state ≤ 1)
  pending_bounded limits w r = ground (arith, Reach-Capped limits r, Reach-limits r)
