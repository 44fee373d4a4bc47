-- ===== src/Jobs/Admission.antt =====
-- src/server/jobs.rs: how a job comes in. A reservation is taken under the limits, and is spent
-- when the job is put into its queue; preview permits.
use base_search.Prelude.{
  ℕ, ◌+◌, ◌-◌, String, true, false, not, ◌||◌, Option, none, some, [], ◌∷◌, ◌++◌, if◌then◌else◌,
  leb, ◌==◌, nat_eq, string_eq, Result, ok, err,
}
use base_search.Prelude.Dict.{get, insert, remove}
use base_search.Auth.Roles.{allows, Identity}
use base_search.Jobs.Types.{
  JobKind, permission, kind_eq, JobVisibility, queued, default_progress, JobSnapshot,
  JobQueueLimits, JobCreateError, forbidden, user_queue_full, workspace_queue_full,
  maintenance_busy, WorkClass,
}
use base_search.Jobs.State.{
  PendingJob, JobAdmission, RegistryState, work_class, pending_for_user, workspace_pending,
  single_flight_busy,
}

module _ {V : Type 0} where
  -- `reserve_for`.
  unfoldable pub reserve :
      JobQueueLimits
      → Identity
      → JobKind
      → ℕ
      → RegistryState V
      → Result (RegistryState V × JobAdmission) JobCreateError
  reserve limits identity kind reservation_id st =
      if not (allows identity.role (permission kind))
      then err forbidden
      else if single_flight_busy st kind
      then err maintenance_busy
      else if leb limits.per_user_pending (pending_for_user st identity.user_id)
      then err user_queue_full
      else if leb limits.workspace_pending (workspace_pending st)
      then err workspace_queue_full
      else ok (
        record st {
          reservations =
              insert reservation_id (record { owner_user_id = identity.user_id; kind = kind })
                st.reservations;
        },
        record { id = reservation_id; kind = kind; owner_user_id = identity.user_id },
      )

  -- `Drop for JobAdmission`, of an admission that was not consumed.
  unfoldable pub drop_admission : JobAdmission → RegistryState V → RegistryState V
  drop_admission admission st = record st { reservations = remove admission.id st.reservations }

  -- `acquire_preview`: `none` is `PreviewAdmissionError::Busy`.
  unfoldable pub acquire_preview : JobQueueLimits → RegistryState V → Option (RegistryState V)
  acquire_preview limits st =
      if leb limits.concurrent_previews st.active_previews
      then none
      else some (record st { active_previews = st.active_previews + 1 })

  -- `Drop for PreviewPermit`, of a permit that was not released: `saturating_sub` is `-` on ℕ.
  unfoldable pub release_preview : RegistryState V → RegistryState V
  release_preview st = record st { active_previews = st.active_previews - 1 }

  -- The snapshot of a job that `enqueue_admitted` registers.
  abbrev pub new_snapshot : ℕ → JobAdmission → String → JobVisibility → Option V → ℕ → JobSnapshot V
  new_snapshot id admission title visibility input now = record {
    id = id;
    kind = admission.kind;
    status = queued;
    owner_user_id = admission.owner_user_id;
    visibility = visibility;
    title = title;
    progress = default_progress;
    message = none;
    error = none;
    result = none;
    input = input;
    cancellable = true;
    cancel_requested = false;
    non_cancellable_reason = none;
    created_ms = now;
    updated_ms = now;
  }

  abbrev pub push_back : PendingJob → WorkClass → RegistryState V → RegistryState V
  push_back pending WorkClass.write st = record st { write_queue = st.write_queue ++ pending ∷ [] }
  push_back pending WorkClass.read st = record st { read_queue = st.read_queue ++ pending ∷ [] }

  -- The locked section of `enqueue_admitted`: the reservation is spent on every branch.
  unfoldable pub enqueue :
      ℕ
      → JobAdmission
      → String
      → JobVisibility
      → Option V
      → ℕ
      → RegistryState V
      → RegistryState V × Result (JobSnapshot V) JobCreateError
  enqueue id admission title visibility input now st =
      let snapshot = new_snapshot id admission title visibility input now in
      let class = work_class admission.kind in
      let spent = record st { reservations = remove admission.id st.reservations } in
      let pending : PendingJob = record {
        id = id;
        owner_user_id = admission.owner_user_id;
        class = class;
      } in
      elim (get admission.id st.reservations) [
        | none ↦ (spent, err workspace_queue_full)
        | some reserved ↦
            if not (kind_eq reserved.kind admission.kind)
              || not (reserved.owner_user_id == admission.owner_user_id)
            then (spent, err forbidden)
            else (
              push_back pending class (record spent { entries = insert id snapshot st.entries }),
              ok snapshot,
            )
      ]
