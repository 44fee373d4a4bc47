-- ===== src/Jobs/Queue.antt =====
-- src/server/jobs.rs: `cancel`, one round of `dispatch_available`, and `worker_finished`.
use base_search.Prelude.{
  ℕ, ◌+◌, ◌-◌, String, Bool, true, false, not, ◌||◌, Option, none, some, [], ◌∷◌, if◌then◌else◌,
  ltb, nat_eq, length, keep, Panics, panic, value,
}
use base_search.Prelude.Dict.{get, adjust}
use base_search.Auth.Roles.{Permission}
use base_search.Jobs.Types.{
  permission, JobStatus, queued, running, failed, cancelled, is_terminal, JobSnapshot,
  JobQueueLimits, WorkClass,
}
use base_search.Jobs.State.{
  PendingJob, RegistryState, Dispatch, start, reject, incomplete_error,
  authorization_revoked_message, is_job, is_raised,
}

abbrev pub is_queued : JobStatus → Bool
is_queued queued = true
is_queued status = false

pub record CancelOutcome (V : Type 0) : Type 0 where
  pub cancelled : Bool
  pub changed_snapshot : Option (JobSnapshot V)
  pub dispatch : Bool

module _ {V : Type 0} where
  abbrev not_cancelled : CancelOutcome V
  not_cancelled = record { cancelled = false; changed_snapshot = none; dispatch = false }

  abbrev pub request_cancel : JobSnapshot V → JobSnapshot V
  request_cancel s = record s { cancel_requested = true; cancellable = false }

  abbrev pub drop_job : ℕ → RegistryState V → RegistryState V
  drop_job id st = record st {
    write_queue = keep (λ pending. not (is_job id pending)) st.write_queue;
    read_queue = keep (λ pending. not (is_job id pending)) st.read_queue;
  }

  abbrev pub write_entry : ℕ → (JobSnapshot V → JobSnapshot V) → RegistryState V → RegistryState V
  write_entry id f st = record st { entries = adjust id f st.entries }

  -- The branch of `cancel` for a job that may be cancelled.
  abbrev pub cancel_entry :
      ℕ → ℕ → JobSnapshot V → RegistryState V → RegistryState V × CancelOutcome V
  cancel_entry id now entry st =
      let requested = record (write_entry id request_cancel st) { raised = id ∷ st.raised } in
      let dropped = drop_job id requested in
      let before = length requested.write_queue + length requested.read_queue in
      let after = length dropped.write_queue + length dropped.read_queue in
      let stopped =
        write_entry id (λ s. record s { status = cancelled; updated_ms = now }) dropped in
      let noted = write_entry id (λ s. record s { updated_ms = now }) requested in
      if is_queued entry.status
      then if ltb after before
        then (
          stopped,
          record { cancelled = true; changed_snapshot = get id stopped.entries; dispatch = true },
        )
        else (dropped, record { cancelled = true; changed_snapshot = none; dispatch = false })
      else (
        noted,
        record { cancelled = true; changed_snapshot = get id noted.entries; dispatch = false },
      )

  -- The locked section of `cancel`.
  unfoldable pub cancel : ℕ → ℕ → RegistryState V → RegistryState V × CancelOutcome V
  cancel id now st = elim (get id st.entries) [
    | none ↦ (st, not_cancelled)
    | some entry ↦
        if is_terminal entry.status || not entry.cancellable
        then (st, not_cancelled)
        else cancel_entry id now entry st
  ]

  abbrev pub pick_read : JobQueueLimits → RegistryState V → Option (PendingJob × RegistryState V)
  pick_read limits st =
      if ltb st.active_reads limits.concurrent_reads
      then elim st.read_queue [
        | [] ↦ none
        | pending ∷ rest ↦
            some (pending, record st { read_queue = rest; active_reads = st.active_reads + 1 })
      ]
      else none

  -- The next job whose class has a free slot: a write job first.
  abbrev pub pick : JobQueueLimits → RegistryState V → Option (PendingJob × RegistryState V)
  pick limits st =
      if not st.active_write
      then elim st.write_queue [
        | [] ↦ pick_read limits st
        | pending ∷ rest ↦ some (pending, record st { write_queue = rest; active_write = true })
      ]
      else pick_read limits st

  -- `is_none_or`: with no authorizer every job may start.
  abbrev pub authorized : Option (String → Permission → Bool) → PendingJob → JobSnapshot V → Bool
  authorized none pending entry = true
  authorized (some authorize) pending entry =
      authorize pending.owner_user_id (permission entry.kind)

  abbrev pub revoke : ℕ → JobSnapshot V → JobSnapshot V
  revoke now s = record s {
    status = cancelled;
    cancellable = false;
    cancel_requested = true;
    message = some authorization_revoked_message;
    updated_ms = now;
  }

  abbrev pub begin : ℕ → JobSnapshot V → JobSnapshot V
  begin now s = record s { status = running; updated_ms = now }

  abbrev pub settle :
      Bool → PendingJob → JobSnapshot V → ℕ → RegistryState V → RegistryState V × Dispatch V
  settle true pending entry now st =
      (write_entry pending.id (begin now) st, start pending (begin now entry))
  settle false pending entry now st = (
    record (write_entry pending.id (revoke now) st) { raised = pending.id ∷ st.raised },
    reject (revoke now entry) pending.class,
  )

  -- The locked section of a round of `dispatch_available`: `none` ends the loop.
  unfoldable pub dispatch_next :
      JobQueueLimits
      → Option (String → Permission → Bool)
      → ℕ
      → RegistryState V
      → Panics (Option (RegistryState V × Dispatch V))
  dispatch_next limits authorizer now st = elim (pick limits st) [
    | none ↦ value none
    | some (pending, picked) ↦ elim (get pending.id picked.entries) [
      | none ↦ panic
      | some entry ↦
          value (some (settle (authorized authorizer pending entry) pending entry now picked))
    ]
  ]

  abbrev pub free_slot : WorkClass → RegistryState V → RegistryState V
  free_slot WorkClass.write st = record st { active_write = false }
  free_slot WorkClass.read st = record st { active_reads = st.active_reads - 1 }

  abbrev pub conclude : Bool → ℕ → JobSnapshot V → JobSnapshot V
  conclude true now s = record s {
    status = cancelled;
    cancel_requested = true;
    cancellable = false;
    updated_ms = now;
  }
  conclude false now s = record s {
    status = failed;
    error = some incomplete_error;
    cancellable = false;
    updated_ms = now;
  }

  -- The locked section of `worker_finished`.
  unfoldable pub worker_finished :
      ℕ → WorkClass → ℕ → RegistryState V → Panics (RegistryState V × Option (JobSnapshot V))
  worker_finished id class now st =
      let freed = free_slot class st in
      let final = conclude (is_raised st id) now in
      elim (get id st.entries) [
        | none ↦ panic
        | some entry ↦
            if is_terminal entry.status
            then value (freed, none)
            else value (write_entry id final freed, some (final entry))
      ]
