-- ===== src/Jobs/Types.antt =====
-- src/server/jobs.rs: kinds, statuses, snapshots, queue limits and error types.
-- A result or an input of a job is a JSON value of the library serde_json: a type parameter `V`.
use base_search.Prelude.{ℕ, String, Bool, true, false, Option, ltb, if◌then◌else◌, ◌==◌, nat_eq}
use base_search.Auth.Roles.{Permission}

pub data JobKind : Type 0 where
  import export optimize compact reindex clear olap_build : JobKind

-- Write jobs mutate the database and must not run concurrently.
unfoldable pub is_write : JobKind → Bool
is_write export = false
is_write kind = true

unfoldable pub permission : JobKind → Permission
permission import = Permission.import
permission export = Permission.export
permission kind = Permission.maintain_database

unfoldable pub is_single_flight : JobKind → Bool
is_single_flight import = false
is_single_flight export = false
is_single_flight kind = true

-- The derived `==` of `JobKind`, by the constructors' positions.
abbrev kind_index : JobKind → ℕ
kind_index import = 0
kind_index export = 1
kind_index optimize = 2
kind_index compact = 3
kind_index reindex = 4
kind_index clear = 5
kind_index olap_build = 6

abbrev pub kind_eq : JobKind → JobKind → Bool
kind_eq a b = kind_index a == kind_index b

pub data JobVisibility : Type 0 where
  private workspace : JobVisibility

pub data JobStatus : Type 0 where
  queued running succeeded failed cancelled : JobStatus

abbrev pub is_terminal : JobStatus → Bool
is_terminal queued = false
is_terminal running = false
is_terminal succeeded = true
is_terminal failed = true
is_terminal cancelled = true

-- The `f64` percentage, kept as the expression that the code evaluates: 0.0, 100.0, or
-- `(done as f64 / total as f64 * 100.0).clamp(0.0, 100.0)`.
pub data Percent : Type 0 where
  zero_percent full_percent : Percent
  ratio : ℕ → ℕ → Percent

pub record JobProgress : Type 0 where
  pub phase : String
  pub done : ℕ
  pub total : ℕ
  pub percent : Percent

abbrev pub default_progress : JobProgress
default_progress = record { phase = ""; done = 0; total = 0; percent = zero_percent }

pub record JobSnapshot (V : Type 0) : Type 0 where
  pub id : ℕ
  pub kind : JobKind
  pub status : JobStatus
  pub owner_user_id : String
  pub visibility : JobVisibility
  pub title : String
  pub progress : JobProgress
  pub message : Option String
  pub error : Option String
  pub result : Option V
  pub input : Option V
  pub cancellable : Bool
  pub cancel_requested : Bool
  pub non_cancellable_reason : Option String
  pub created_ms : ℕ
  pub updated_ms : ℕ

pub record JobQueueLimits : Type 0 where
  pub workspace_pending : ℕ
  pub per_user_pending : ℕ
  pub concurrent_reads : ℕ
  pub concurrent_previews : ℕ

abbrev pub default_limits : JobQueueLimits
default_limits = record {
  workspace_pending = 24;
  per_user_pending = 6;
  concurrent_reads = 2;
  concurrent_previews = 2;
}

-- `Ord::clamp`, for bounds in order.
abbrev pub clamp : ℕ → ℕ → ℕ → ℕ
clamp x lo hi = if ltb x lo then lo else if ltb hi x then hi else x

unfoldable pub normalized : JobQueueLimits → JobQueueLimits
normalized l = record {
  workspace_pending = clamp l.workspace_pending 1 1024;
  per_user_pending = clamp l.per_user_pending 1 (clamp l.workspace_pending 1 1024);
  concurrent_reads = clamp l.concurrent_reads 1 32;
  concurrent_previews = clamp l.concurrent_previews 1 8;
}

pub data JobCreateError : Type 0 where
  forbidden user_queue_full workspace_queue_full maintenance_busy : JobCreateError

pub data JobAccessError : Type 0 where
  not_found forbidden : JobAccessError

pub data WorkClass : Type 0 where
  read write : WorkClass
