-- ===== src/Jobs/Load.antt =====
-- Load: how the sections change the number of jobs that wait and of maintenance jobs under way.
use base_search.Prelude.{
  ℕ, ◌+◌, ◌≤◌, ◌<◌, ◌≡◌, String, Bool, true, false, not, ap, Option, some, List, [], ◌∷◌, arith,
  nat_eq, string_eq, ◌∙◌, length, length-keep-le, count_if, count_if-append, count_if-keep-le, keep,
  value,
}
use base_search.Prelude.Dict.{
  get, adjust, tally, tally-adjust-le, tally-adjust_at-le, tally-remove-le, length-remove-le,
  remove,
}
use base_search.Auth.Roles.{Permission}
use base_search.Jobs.Types.{
  JobKind, is_terminal, queued, cancelled, JobSnapshot, JobQueueLimits, WorkClass,
}
use base_search.Jobs.State.{
  PendingJob, JobAdmission, RegistryState, Dispatch, is_job, active_kind, reserved_kind,
  reserved_by, queued_by, pending_for_user, workspace_pending,
}
use base_search.Jobs.Admission.{drop_admission}
use base_search.Jobs.Queue.{
  cancel, worker_finished, request_cancel, begin, revoke, conclude, settle, authorized,
}
use base_search.Jobs.Handle.{HandleCall, update, call, enter_non_cancellable, stop, commit_to}
use base_search.Jobs.Rounds.{Picked, writer, reader, Picked-entries, Round, round}
use base_search.Jobs.World.{status_of, waiting}
use base_search.Jobs.Places.{Picked-waiting}
use base_search.Jobs.Retention.{prune, remove_all, expired}

module _ {V : Type 0} where
  -- Maintenance jobs of a kind that are reserved or unfinished.
  abbrev pub flights : JobKind → RegistryState V → ℕ
  flights kind st = tally (active_kind kind) st.entries + tally (reserved_kind kind) st.reservations

  -- For one user and one kind, nothing has grown.
  pub record NotMore (user : String) (kind : JobKind) (st st' : RegistryState V) : Type 0 where
    pub workspace : workspace_pending st' ≤ workspace_pending st
    pub own : pending_for_user st' user ≤ pending_for_user st user
    pub flying : flights kind st' ≤ flights kind st

  module _ (user : String) (kind : JobKind) where
    pub spent-NotMore :
        (admission : JobAdmission) (st : RegistryState V)
        → NotMore user kind st (record st { reservations = remove admission.id st.reservations })
    spent-NotMore admission st = ground (
      arith,
      length-remove-le admission.id st.reservations,
      tally-remove-le (reserved_by user) admission.id st.reservations,
      tally-remove-le (reserved_kind kind) admission.id st.reservations,
    )

    pub drop_admission-NotMore :
        (admission : JobAdmission) (st : RegistryState V)
        → NotMore user kind st (drop_admission admission st)
    unfolding drop_admission
    drop_admission-NotMore admission st = spent-NotMore admission st

    pub cancel-NotMore :
        (id now : ℕ) (st : RegistryState V) → NotMore user kind st (cancel id now st).0
    unfolding cancel
    cancel-NotMore id now st =
        let other = λ (p : PendingJob). not (is_job id p) in
        let requested = adjust id request_cancel st.entries in
        ground (
          arith,
          tally-adjust-le (active_kind kind) id request_cancel st.entries (λ s. ground arith),
          tally-adjust-le (active_kind kind) id
              (λ s. record s { status = cancelled; updated_ms = now }) requested
              (λ s. ground arith),
          tally-adjust-le (active_kind kind) id (λ s. record s { updated_ms = now }) requested
              (λ s. ground arith),
          length-keep-le other st.write_queue,
          length-keep-le other st.read_queue,
          count_if-keep-le (queued_by user) other st.write_queue,
          count_if-keep-le (queued_by user) other st.read_queue,
          count_if-append (queued_by user) st.write_queue st.read_queue,
          count_if-append (queued_by user) (keep other st.write_queue) (keep other st.read_queue),
        )

    pub call-NotMore :
        (id : ℕ) (handle_call : HandleCall V) (now : ℕ) (st : RegistryState V)
        → NotMore user kind st (call id handle_call now st).0
    unfolding call
    call-NotMore id handle_call now st = ground (
      arith,
      tally-adjust-le (active_kind kind) id
          (λ s. record (update handle_call s) { updated_ms = now }) st.entries
          (λ s. unfold update in ground arith),
    )

    pub enter-NotMore :
        (id : ℕ) (phase : String) (now : ℕ) (st : RegistryState V)
        → NotMore user kind st (enter_non_cancellable id phase now st).0
    unfolding enter_non_cancellable
    enter-NotMore id phase now st = ground (
      arith,
      tally-adjust-le (active_kind kind) id (stop now) st.entries (λ s. ground arith),
      tally-adjust-le (active_kind kind) id (commit_to phase now) st.entries (λ s. ground arith),
    )

    remove_all-le :
        (ids : List ℕ) (entries : List (ℕ × JobSnapshot V))
        → tally (active_kind kind) (remove_all ids entries) ≤ tally (active_kind kind) entries
    remove_all-le [] entries = omega arith
    remove_all-le (id ∷ ids) entries = omega (
      arith,
      remove_all-le ids (remove id entries),
      tally-remove-le (active_kind kind) id entries,
    )

    pub prune-NotMore :
        (retained : ℕ) (deleted : Bool) (st : RegistryState V)
        → NotMore user kind st (prune retained deleted st)
    unfolding prune
    prune-NotMore retained deleted st =
        ground (arith, remove_all-le (expired retained st.entries) st.entries)

    pub worker_finished-NotMore :
        (id : ℕ) (class : WorkClass) (now : ℕ) (st st' : RegistryState V)
        (snapshot : Option (JobSnapshot V))
        → worker_finished id class now st ≡ value (st', snapshot)
        → NotMore user kind st st'
    unfolding worker_finished
    worker_finished-NotMore id class now st st' snapshot h = ground (
      arith,
      tally-adjust-le (active_kind kind) id (conclude true now) st.entries (λ s. ground arith),
      tally-adjust-le (active_kind kind) id (conclude false now) st.entries (λ s. ground arith),
    )

    Picked-NotMore :
        (limits : JobQueueLimits) (st picked : RegistryState V) (pending : PendingJob)
        → Picked limits st pending picked
        → NotMore user kind st picked
    Picked-NotMore limits st picked pending (writer rest free q e) = ground (
      arith,
      ap length q,
      count_if-append (queued_by user) st.write_queue st.read_queue,
      count_if-append (queued_by user) rest st.read_queue,
      ap (count_if (queued_by user)) q,
    )
    Picked-NotMore limits st picked pending (reader rest free q e) = ground (
      arith,
      ap length q,
      count_if-append (queued_by user) st.write_queue st.read_queue,
      count_if-append (queued_by user) st.write_queue rest,
      ap (count_if (queued_by user)) q,
    )

    settle-NotMore :
        (allowed : Bool) (pending : PendingJob) (entry : JobSnapshot V) (now : ℕ)
        (picked : RegistryState V)
        → get pending.id picked.entries ≡ some entry
        → is_terminal entry.status ≡ false
        → NotMore user kind picked (settle allowed pending entry now picked).0
    settle-NotMore allowed pending entry now picked g t = ground (
      arith,
      tally-adjust_at-le (active_kind kind) pending.id (begin now) entry picked.entries g
          (λ h. ground arith),
      tally-adjust-le (active_kind kind) pending.id (revoke now) picked.entries (λ s. ground arith),
    )

    -- A round does so where the jobs that wait are shown as queued.
    pub Round-NotMore :
        {limits : JobQueueLimits} {authorizer : Option (String → Permission → Bool)} {now : ℕ}
        {st st' : RegistryState V} {d : Dispatch V}
        → Round authorizer now limits st st' d
        → ((i : ℕ) → 0 < waiting i st → status_of i st ≡ some queued)
        → NotMore user kind st st'
    Round-NotMore {limits} {authorizer} {now} {st} {d} (round pending picked entry p g e) q =
        ground (
          arith,
          q pending.id,
          Picked-waiting pending.id limits st picked pending p,
          Picked-NotMore limits st picked pending p,
          settle-NotMore (authorized authorizer pending entry) pending entry now picked
              (ap (get pending.id) (Picked-entries p) ∙ g),
          ap (λ (x : RegistryState V × Dispatch V). x.0) e,
        )
