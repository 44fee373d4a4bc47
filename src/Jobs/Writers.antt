-- ===== src/Jobs/Writers.antt =====
-- Write jobs exclude one another on every schedule (src/server/jobs.rs): a job of a kind that
-- writes waits and runs as a writer, and there is one slot for writers.
use base_search.Prelude.{
  ℕ, ◌+◌, ◌≤◌, ◌≡◌, ◌≢◌, refl, ap, sym, subst, String, Bool, true, Option, some, List, [], ◌∷◌,
  if◌then◌else◌, arith, nat_eq, count_if, ok,
}
use base_search.Prelude.Dict.{get, get-adjust}
use base_search.Auth.Roles.{Permission, Identity}
use base_search.Jobs.Types.{JobKind, is_write, running, JobSnapshot, JobQueueLimits, WorkClass}
use base_search.Jobs.State.{PendingJob, JobAdmission, RegistryState, Dispatch, start, reject}
use base_search.Jobs.Admission.{reserve, drop_admission, acquire_preview, release_preview}
use base_search.Jobs.Queue.{begin, revoke, settle, authorized}
use base_search.Jobs.Rounds.{
  Picked, writer, reader, Picked-entries, Round, round, dispatch_next-Round,
}
use base_search.Jobs.World.{
  World, Worker, worker_of, Step, Reach, reserved, dropped, enqueued, preview_acquired,
  preview_released, pruned, started, refused, slot_freed, called, committed, finished, here, next,
  new_world, status_of, waiting, working, runs, has_class, is_class, holders,
}
use base_search.Jobs.World
use native.Mathlib.Decide.{ℕ_discrete}
use base_search.Jobs.Places.{after_dispatch}
use base_search.Jobs.Schedules.{Settled, reached-Settled}
use base_search.Jobs.Occupancy.{holders_bounded}
use base_search.Jobs.Typing.{
  waits_as_reader, runs_as_reader, Typed, enqueue-Typed, cancel-Typed, call-Typed, enter-Typed,
  finished-Typed, prune-Typed,
}

module _ {V : Type 0} (i : ℕ) where
  Picked-readers :
      (limits : JobQueueLimits) (st picked : RegistryState V) (pending : PendingJob)
      → Picked limits st pending picked
      → count_if (waits_as_reader i) st.write_queue + count_if (waits_as_reader i) st.read_queue
        ≡ count_if (waits_as_reader i) picked.write_queue
          + count_if (waits_as_reader i) picked.read_queue
          + (if waits_as_reader i pending then 1 else 0)
  Picked-readers limits st picked pending (writer rest free q e) =
      ground (arith, ap (count_if (waits_as_reader i)) q)
  Picked-readers limits st picked pending (reader rest free q e) =
      ground (arith, ap (count_if (waits_as_reader i)) q)

  settle-Typed :
      (ws : List Worker) (allowed : Bool) (pending : PendingJob) (entry : JobSnapshot V) (now : ℕ)
      (st picked : RegistryState V)
      → picked.entries ≡ st.entries
      → count_if (waits_as_reader i) st.write_queue + count_if (waits_as_reader i) st.read_queue
        ≡ count_if (waits_as_reader i) picked.write_queue
          + count_if (waits_as_reader i) picked.read_queue
          + (if waits_as_reader i pending then 1 else 0)
      → Typed i ws st
      → let (st', d) = settle allowed pending entry now picked in Typed i (after_dispatch d ws) st'
  settle-Typed ws allowed pending entry now st picked e c t = ground (
    arith,
    get-adjust pending.id i (begin now) picked.entries,
    get-adjust pending.id i (revoke now) picked.entries,
  )

  Round-Typed :
      (ws : List Worker) {limits : JobQueueLimits}
      {authorizer : Option (String → Permission → Bool)} {now : ℕ} {st st' : RegistryState V}
      {d : Dispatch V}
      → Round authorizer now limits st st' d
      → Typed i ws st
      → Typed i (after_dispatch d ws) st'
  Round-Typed ws {limits} {authorizer} {now} {st} (round pending picked entry p g e) t =
      subst (λ (x : RegistryState V × Dispatch V). Typed i (after_dispatch x.1 ws) x.0) (sym e)
        (settle-Typed ws (authorized authorizer pending entry) pending entry now st picked
          (Picked-entries p) (Picked-readers limits st picked pending p) t)

  reserve-Typed :
      (limits : JobQueueLimits) (identity : Identity) (kind : JobKind) (rid : ℕ)
      (st st' : RegistryState V) (admission : JobAdmission) (ws : List Worker)
      → reserve limits identity kind rid st ≡ ok (st', admission)
      → Typed i ws st
      → Typed i ws st'
  unfolding reserve
  reserve-Typed limits identity kind rid st st' admission ws h t = ground arith

  acquire_preview-Typed :
      (limits : JobQueueLimits) (st st' : RegistryState V) (ws : List Worker)
      → acquire_preview limits st ≡ some st'
      → Typed i ws st
      → Typed i ws st'
  unfolding acquire_preview
  acquire_preview-Typed limits st st' ws h t = ground arith

  Step-Typed :
      {w u : World V} → Step w u → Settled w → Typed i w.workers w.state → Typed i u.workers u.state
  Step-Typed {w} (reserved identity kind rid st admission h) q t =
      reserve-Typed w.limits identity kind rid w.state st admission w.workers h t
  Step-Typed {w} (dropped admission) q t = unfold drop_admission in t
  Step-Typed {w} (enqueued admission title visibility input now h) q t =
      enqueue-Typed i w.next_id w.workers admission title visibility input now w.state (q.places i)
        t
  Step-Typed {w} (preview_acquired st h) q t =
      acquire_preview-Typed w.limits w.state st w.workers h t
  Step-Typed {w} preview_released q t = unfold release_preview in t
  Step-Typed {w} (World.Step.cancelled id now) q t = cancel-Typed i w.workers id now w.state t
  Step-Typed {w} (pruned retained deleted) q t =
      prune-Typed i w.workers retained deleted w.state q.keyed t
  Step-Typed {w} (started authorizer now st pending snapshot h) q t =
      Round-Typed w.workers
        (dispatch_next-Round w.limits authorizer now w.state st (start pending snapshot) h) t
  Step-Typed {w} (refused authorizer now st snapshot class h) q t =
      Round-Typed w.workers
        (dispatch_next-Round w.limits authorizer now w.state st (reject snapshot class) h) t
  Step-Typed {w} (slot_freed before after WorkClass.read e) q t = t
  Step-Typed {w} (slot_freed before after WorkClass.write e) q t = t
  Step-Typed {w} (called id handle_call now h) q t =
      call-Typed i w.workers id handle_call now w.state t
  Step-Typed {w} (committed id phase now h) q t = enter-Typed i w.workers id phase now w.state t
  Step-Typed {w} (finished before after worker now st snapshot e h) q t =
      finished-Typed i before after worker now w.state st snapshot h
        (subst (λ ws. Typed i ws w.state) e t)

  Reach-Typed :
      (limits : JobQueueLimits) {u : World V}
      → Reach (new_world limits) u
      → Typed i u.workers u.state
  Reach-Typed limits here = λ h. refl
  Reach-Typed limits (next {u} r s) =
      Step-Typed s (reached-Settled limits u r) (Reach-Typed limits r)

-- Two jobs that run and are not readers are two writers.
runs_as_writer-le :
    (i j : ℕ) (ws : List Worker)
    → i ≢ j
    → working i ws + working j ws
      ≤ count_if (has_class WorkClass.write) ws
        + count_if (runs_as_reader i) ws
        + count_if (runs_as_reader j) ws
runs_as_writer-le i j [] d = omega arith
runs_as_writer-le i j (w ∷ ws) d = ground (arith, runs_as_writer-le i j ws d)

module _ {V : Type 0} where
  -- On every schedule of a new registry, no two different jobs whose kinds write to the database
  -- are shown as running at the same time.
  pub write_jobs_exclusive :
      (limits : JobQueueLimits) (w : World V) (i j : ℕ) (a b : JobSnapshot V)
      → Reach (new_world limits) w
      → get i w.state.entries ≡ some a
      → get j w.state.entries ≡ some b
      → is_write a.kind ≡ true
      → is_write b.kind ≡ true
      → a.status ≡ running
      → b.status ≡ running
      → i ≡ j
  write_jobs_exclusive limits w i j a b r ga gb wa wb ra rb = elim (ℕ_discrete i j) [
    | yes e ↦ e
    | no d ↦ absurd (
        ground (
          arith,
          (reached-Settled limits w r).places i,
          (reached-Settled limits w r).places j,
          Reach-Typed i limits r,
          Reach-Typed j limits r,
          holders_bounded limits w r,
          runs_as_writer-le i j w.workers d,
        ))
  ]
