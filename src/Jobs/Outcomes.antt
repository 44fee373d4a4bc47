-- ===== src/Jobs/Outcomes.antt =====
-- src/server/jobs.rs: the outcome of the registry's operations on every branch.
use base_search.Prelude.{
  ℕ, ◌<◌, ◌≤◌, ◌≡◌, ◌↔◌, String, true, false, Option, none, some, [], ◌∷◌, ◌++◌, arith, nat_eq,
  string_eq, ok, err,
}
use base_search.Prelude.Dict.{get, insert, get-insert, get-remove, any_value-tally, tally-any_value}
use base_search.Auth.Roles.{allows, Identity}
use base_search.Jobs.Types.{
  JobKind, permission, is_write, is_single_flight, JobVisibility, queued, JobSnapshot,
  JobQueueLimits, forbidden, user_queue_full, workspace_queue_full, maintenance_busy,
}
use base_search.Jobs.State.{
  PendingJob, ReservedJob, JobAdmission, RegistryState, active_kind, reserved_kind,
  pending_for_user, workspace_pending, work_class,
}
use base_search.Jobs.Admission.{reserve, enqueue, new_snapshot}
use base_search.Jobs.Load.{flights}
use base_search.Jobs.World.{status_of}
use text.Mathlib.TextEquality.{eq_iff}

-- The place in a queue that a job gets.
abbrev pub pending_of : ℕ → JobAdmission → PendingJob
pending_of id admission = record {
  id = id;
  owner_user_id = admission.owner_user_id;
  class = work_class admission.kind;
}

module _ {V : Type 0} where
  -- What `reserve_for` asks of a request.
  pub record Admissible (limits : JobQueueLimits) (identity : Identity) (kind : JobKind)
      (st : RegistryState V) : Type 0 where
    pub allowed : allows identity.role (permission kind) ≡ true
    pub idle : is_single_flight kind ≡ true → flights kind st ≡ 0
    pub user_room : pending_for_user st identity.user_id < limits.per_user_pending
    pub workspace_room : workspace_pending st < limits.workspace_pending

  abbrev pub granted : Identity → JobKind → ℕ → RegistryState V → RegistryState V × JobAdmission
  granted identity kind rid st = (
    record st {
      reservations =
          insert rid (record { owner_user_id = identity.user_id; kind = kind }) st.reservations;
    },
    record { id = rid; kind = kind; owner_user_id = identity.user_id },
  )

  -- A reservation is granted exactly when the role has the permission of the kind, no other job of
  -- a single-flight kind is reserved or unfinished, and neither the user nor the workspace is at
  -- its limit; then nothing but the reservation is added.
  pub reserve_iff :
      (limits : JobQueueLimits) (identity : Identity) (kind : JobKind) (rid : ℕ)
      (st : RegistryState V)
      → (reserve limits identity kind rid st ≡ ok (granted identity kind rid st))
        ↔ Admissible limits identity kind st
  unfolding reserve
  reserve_iff limits identity kind rid st = (
    λ h. ground (
      arith,
      any_value-tally (λ (s : JobSnapshot V). active_kind kind s) st.entries,
      any_value-tally (reserved_kind kind) st.reservations,
    ),
    λ h. ground (
      arith,
      tally-any_value (λ (s : JobSnapshot V). active_kind kind s) st.entries,
      tally-any_value (reserved_kind kind) st.reservations,
    ),
  )

  -- The order of the refusals: permission, then a maintenance job under way, then the user's
  -- limit, then the workspace's.
  reserve_refusals :
      (limits : JobQueueLimits) (identity : Identity) (kind : JobKind) (rid : ℕ)
      (st : RegistryState V)
      → ((reserve limits identity kind rid st ≡ err forbidden)
          ↔ (allows identity.role (permission kind) ≡ false))
        × (reserve limits identity kind rid st ≡ err maintenance_busy
            → (is_single_flight kind ≡ true) × (0 < flights kind st))
        × (reserve limits identity kind rid st ≡ err user_queue_full
            → limits.per_user_pending ≤ pending_for_user st identity.user_id)
        × (reserve limits identity kind rid st ≡ err workspace_queue_full
            → (limits.workspace_pending ≤ workspace_pending st)
              × (pending_for_user st identity.user_id < limits.per_user_pending))
  unfolding reserve
  reserve_refusals limits identity kind rid st = (
    (λ h. ground arith, λ h. ground arith),
    λ h. ground (
      arith,
      tally-any_value (λ (s : JobSnapshot V). active_kind kind s) st.entries,
      tally-any_value (reserved_kind kind) st.reservations,
    ),
    λ h. ground arith,
    λ h. ground arith,
  )

  -- A job whose admission was just granted is accepted: it is shown as queued, it stands last in
  -- the queue of its class, the other queue is as it was, and its reservation is spent.
  pub reserve-enqueue :
      (limits : JobQueueLimits) (identity : Identity) (kind : JobKind) (rid id : ℕ) (title : String)
      (visibility : JobVisibility) (input : Option V) (now : ℕ) (st st' : RegistryState V)
      (admission : JobAdmission)
      → reserve limits identity kind rid st ≡ ok (st', admission)
      → let (st'', answer) = enqueue id admission title visibility input now st' in
        (answer ≡ ok (new_snapshot id admission title visibility input now))
        × (status_of id st'' ≡ some queued)
        × (get rid st''.reservations ≡ none)
        × (is_write kind ≡ true
            → (st''.write_queue ≡ st.write_queue ++ pending_of id admission ∷ [])
              × (st''.read_queue ≡ st.read_queue))
        × (is_write kind ≡ false
            → (st''.read_queue ≡ st.read_queue ++ pending_of id admission ∷ [])
              × (st''.write_queue ≡ st.write_queue))
  unfolding reserve enqueue
  reserve-enqueue limits identity kind rid id title visibility input now st st' admission h =
      let r : ReservedJob = record { owner_user_id = identity.user_id; kind = kind } in
      let s = new_snapshot id admission title visibility input now in
      ground (
        arith,
        get-insert rid rid r st.reservations,
        get-remove rid rid (insert rid r st.reservations),
        get-insert id id s st.entries,
        eq_iff identity.user_id identity.user_id,
      )
