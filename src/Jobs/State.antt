-- ===== src/Jobs/State.antt =====
-- src/server/jobs.rs: the state behind the registry's mutex. The sections of code that hold the
-- lock are functions from state to state, in the modules beside this one; a clock reading and an
-- identifier drawn from an atomic counter are arguments. `raised` holds the jobs whose
-- cancellation flag is set: the code shares one `Arc<AtomicBool>` between a job's entry, its place
-- in a queue and its handle, and keeps the rest of an entry, its snapshot, in the map.
use base_search.Prelude.{
  ℕ, ◌+◌, String, Bool, not, ◌&&◌, ◌||◌, List, ◌++◌, if◌then◌else◌, ◌==◌, nat_eq, string_eq, length,
  any, count_if,
}
use base_search.Prelude.Dict.{tally, any_value}
use base_search.Jobs.Types.{
  JobKind, is_write, is_single_flight, kind_eq, is_terminal, JobSnapshot, WorkClass,
}

-- The closure that a queued job will run is left out: what it does is what its handle is told.
pub record PendingJob : Type 0 where
  pub id : ℕ
  pub owner_user_id : String
  pub class : WorkClass

pub record ReservedJob : Type 0 where
  pub owner_user_id : String
  pub kind : JobKind

pub record JobAdmission : Type 0 where
  pub id : ℕ
  pub kind : JobKind
  pub owner_user_id : String

pub record RegistryState (V : Type 0) : Type 0 where
  pub entries : List (ℕ × JobSnapshot V)
  pub write_queue : List PendingJob
  pub read_queue : List PendingJob
  pub reservations : List (ℕ × ReservedJob)
  pub active_write : Bool
  pub active_reads : ℕ
  pub active_previews : ℕ
  pub raised : List ℕ

pub data Dispatch (V : Type 0) : Type 0 where
  start : PendingJob → JobSnapshot V → Dispatch V
  reject : JobSnapshot V → WorkClass → Dispatch V

abbrev pub interrupted_error : String
interrupted_error = "Job interrupted because Base Search stopped before it completed."

abbrev pub incomplete_error : String
incomplete_error = "Job worker stopped without publishing a final result."

abbrev pub authorization_revoked_message : String
authorization_revoked_message = "Cancelled because the account no longer permits this operation."

abbrev pub work_class : JobKind → WorkClass
work_class kind = if is_write kind then WorkClass.write else WorkClass.read

abbrev pub reserved_kind : JobKind → ReservedJob → Bool
reserved_kind kind reservation = kind_eq reservation.kind kind

abbrev pub reserved_by : String → ReservedJob → Bool
reserved_by user reservation = reservation.owner_user_id == user

abbrev pub queued_by : String → PendingJob → Bool
queued_by user pending = pending.owner_user_id == user

abbrev pub is_job : ℕ → PendingJob → Bool
is_job id pending = pending.id == id

module _ {V : Type 0} where
  abbrev pub active_kind : JobKind → JobSnapshot V → Bool
  active_kind kind snapshot = kind_eq snapshot.kind kind && not (is_terminal snapshot.status)

  abbrev pub is_raised : RegistryState V → ℕ → Bool
  is_raised st id = any (λ i. i == id) st.raised

  abbrev pub pending_for_user : RegistryState V → String → ℕ
  pending_for_user st user =
      count_if (queued_by user) (st.write_queue ++ st.read_queue)
      + tally (reserved_by user) st.reservations

  abbrev pub workspace_pending : RegistryState V → ℕ
  workspace_pending st = length st.write_queue + length st.read_queue + length st.reservations

  abbrev pub single_flight_busy : RegistryState V → JobKind → Bool
  single_flight_busy st kind =
      is_single_flight kind
      && (any_value (active_kind kind) st.entries || any_value (reserved_kind kind) st.reservations)
