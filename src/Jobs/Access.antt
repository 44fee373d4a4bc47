-- ===== src/Jobs/Access.antt =====
-- src/server/jobs.rs: what a user sees of the jobs, and whose jobs a user may cancel.
use base_search.Prelude.{
  ℕ, String, Bool, true, false, not, ◌&&◌, ◌||◌, Option, none, some, List, [], ◌∷◌, map,
  if◌then◌else◌, leb, ◌==◌, nat_eq, string_eq, keep, Result, ok, err,
}
use base_search.Prelude.Dict.{get}
use base_search.Auth.Roles.{Role, viewer, is_privileged, Identity}
use base_search.Jobs.Types.{
  JobKind, kind_eq, JobVisibility, workspace, private, JobStatus, queued, running, succeeded,
  failed, cancelled, JobSnapshot, JobAccessError,
}
use base_search.Jobs.State.{RegistryState}
use base_search.Jobs.Queue.{CancelOutcome, cancel}

abbrev pub is_workspace : JobVisibility → Bool
is_workspace workspace = true
is_workspace private = false

abbrev pub is_viewer : Role → Bool
is_viewer viewer = true
is_viewer role = false

abbrev pub import_failed : String
import_failed = "Import failed. Ask an editor or administrator for details."

abbrev pub redacted_message : JobStatus → String
redacted_message queued = "Import is waiting to start."
redacted_message running = "Import is in progress."
redacted_message succeeded = "Import completed."
redacted_message failed = import_failed
redacted_message cancelled = "Import was cancelled."

module _ {V : Type 0} where
  unfoldable pub can_view : Identity → JobSnapshot V → Bool
  unfolding is_privileged
  can_view identity snapshot =
      is_privileged identity.role
      || (snapshot.owner_user_id == identity.user_id || is_workspace snapshot.visibility)

  abbrev pub is_redacted : Identity → JobSnapshot V → Bool
  is_redacted identity snapshot =
      is_viewer identity.role
      && (kind_eq snapshot.kind JobKind.import && is_workspace snapshot.visibility)

  unfoldable pub redact_for : Identity → JobSnapshot V → JobSnapshot V
  redact_for identity snapshot =
      if is_redacted identity snapshot
      then record snapshot {
        title = "Import";
        input = none;
        result = none;
        message = some (redacted_message snapshot.status);
        error = elim snapshot.error [ none ↦ none | some e ↦ some import_failed ];
        non_cancellable_reason = none;
      }
      else snapshot

  -- `list`: `sort_by_key(|job| Reverse(job.id))`, newest first.
  unfoldable pub insert_job : JobSnapshot V → List (JobSnapshot V) → List (JobSnapshot V)
  insert_job x [] = x ∷ []
  insert_job x (y ∷ ys) = if leb y.id x.id then x ∷ y ∷ ys else y ∷ insert_job x ys

  unfoldable pub sort_jobs : List (ℕ × JobSnapshot V) → List (JobSnapshot V)
  sort_jobs [] = []
  sort_jobs ((id, s) ∷ entries) = insert_job s (sort_jobs entries)

  unfoldable pub list : RegistryState V → List (JobSnapshot V)
  list st = sort_jobs st.entries

  unfoldable pub list_for : Identity → RegistryState V → List (JobSnapshot V)
  list_for identity st = map (redact_for identity) (keep (can_view identity) (list st))

  unfoldable pub snapshot_for : Identity → ℕ → RegistryState V → Option (JobSnapshot V)
  snapshot_for identity id st = elim (get id st.entries) [
    | none ↦ none
    | some s ↦ if can_view identity s then some (redact_for identity s) else none
  ]

  -- `cancel_for`, up to the locked section of `cancel`.
  unfoldable pub cancel_for :
      Identity → ℕ → ℕ → RegistryState V → Result (RegistryState V × CancelOutcome V) JobAccessError
  cancel_for identity id now st = elim (get id st.entries) [
    | none ↦ err JobAccessError.not_found
    | some s ↦
        if not (is_privileged identity.role) && not (s.owner_user_id == identity.user_id)
        then err JobAccessError.forbidden
        else ok (cancel id now st)
  ]
