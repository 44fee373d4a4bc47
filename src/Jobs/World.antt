-- ===== src/Jobs/World.antt =====
-- src/server/jobs.rs under concurrency: the registry with the threads that are between two locked
-- sections. A worker thread runs from `Dispatch::Start` until `worker_finished`; a dispatcher that
-- rejected a job still holds its slot until its next locked section (`rejecting`). A step is one
-- locked section, so every schedule of the threads is a sequence of steps. Job ids are drawn from
-- a 64-bit counter; a step that draws one supposes that it is not used up.
use base_search.Prelude.{
  ℕ, ◌+◌, ◌^◌, ◌<◌, ◌≡◌, String, Bool, Option, none, some, List, [], ◌∷◌, ◌++◌, ◌==◌, nat_eq,
  count_if, ok, value,
}
use base_search.Prelude.Dict.{get}
use base_search.Auth.Roles.{Permission, Identity}
use base_search.Jobs.Types.{
  JobKind, JobVisibility, JobStatus, JobSnapshot, JobQueueLimits, WorkClass,
}
use base_search.Jobs.State.{PendingJob, JobAdmission, RegistryState, start, reject, is_job}
use base_search.Jobs.Admission.{reserve, drop_admission, acquire_preview, release_preview, enqueue}
use base_search.Jobs.Queue.{cancel, dispatch_next, free_slot, worker_finished}
use base_search.Jobs.Handle.{HandleCall, call, enter_non_cancellable}
use base_search.Jobs.Retention.{prune}

pub record Worker : Type 0 where
  pub id : ℕ
  pub class : WorkClass

pub record World (V : Type 0) : Type 0 where
  pub limits : JobQueueLimits
  pub state : RegistryState V
  pub next_id : ℕ
  pub workers : List Worker
  pub rejecting : List WorkClass

abbrev class_index : WorkClass → ℕ
class_index WorkClass.read = 0
class_index WorkClass.write = 1

abbrev pub is_class : WorkClass → WorkClass → Bool
is_class c d = class_index d == class_index c

abbrev pub has_class : WorkClass → Worker → Bool
has_class c worker = is_class c worker.class

abbrev pub runs : ℕ → Worker → Bool
runs id worker = worker.id == id

abbrev pub worker_of : PendingJob → Worker
worker_of pending = record { id = pending.id; class = pending.class }

-- How many threads run a job.
abbrev pub working : ℕ → List Worker → ℕ
working id = count_if (runs id)

module _ {V : Type 0} where
  abbrev pub status_of : ℕ → RegistryState V → Option JobStatus
  status_of id st = elim (get id st.entries) [ none ↦ none | some s ↦ some s.status ]

  -- How often a job stands in the queues.
  abbrev pub waiting : ℕ → RegistryState V → ℕ
  waiting id st = count_if (is_job id) st.write_queue + count_if (is_job id) st.read_queue

  -- How many threads hold a slot of a class.
  abbrev pub holders : WorkClass → World V → ℕ
  holders c w = count_if (has_class c) w.workers + count_if (is_class c) w.rejecting

  abbrev empty_state : RegistryState V
  empty_state = record {
    entries = [];
    write_queue = [];
    read_queue = [];
    reservations = [];
    active_write = Bool.false;
    active_reads = 0;
    active_previews = 0;
    raised = [];
  }

  -- `JobRegistry::with_limits`, of limits that are normalized.
  abbrev pub new_world : JobQueueLimits → World V
  new_world limits = record {
    limits = limits;
    state = empty_state;
    next_id = 1;
    workers = [];
    rejecting = [];
  }

  pub data Step (w : World V) : World V → Type 0 where
    reserved :
        (identity : Identity) (kind : JobKind) (reservation_id : ℕ) (st : RegistryState V)
        (admission : JobAdmission)
        → reserve w.limits identity kind reservation_id w.state ≡ ok (st, admission)
        → Step w (record w { state = st })
    dropped :
        (admission : JobAdmission) → Step w (record w { state = drop_admission admission w.state })
    enqueued :
        (admission : JobAdmission) (title : String) (visibility : JobVisibility) (input : Option V)
        (now : ℕ)
        → w.next_id + 1 < 2 ^ 64
        → Step w (record w {
          state = (enqueue w.next_id admission title visibility input now w.state).0;
          next_id = w.next_id + 1;
        })
    preview_acquired :
        (st : RegistryState V)
        → acquire_preview w.limits w.state ≡ some st
        → Step w (record w { state = st })
    preview_released : Step w (record w { state = release_preview w.state })
    cancelled : (id now : ℕ) → Step w (record w { state = (cancel id now w.state).0 })
    pruned :
        (retained : ℕ) (deleted : Bool)
        → Step w (record w { state = prune retained deleted w.state })
    started :
        (authorizer : Option (String → Permission → Bool)) (now : ℕ) (st : RegistryState V)
        (pending : PendingJob) (snapshot : JobSnapshot V)
        → dispatch_next w.limits authorizer now w.state ≡ value (some (st, start pending snapshot))
        → Step w (record w { state = st; workers = worker_of pending ∷ w.workers })
    refused :
        (authorizer : Option (String → Permission → Bool)) (now : ℕ) (st : RegistryState V)
        (snapshot : JobSnapshot V) (class : WorkClass)
        → dispatch_next w.limits authorizer now w.state ≡ value (some (st, reject snapshot class))
        → Step w (record w { state = st; rejecting = class ∷ w.rejecting })
    slot_freed :
        (before after : List WorkClass) (class : WorkClass)
        → w.rejecting ≡ before ++ class ∷ after
        → Step w (record w { state = free_slot class w.state; rejecting = before ++ after })
    called :
        (id : ℕ) (handle_call : HandleCall V) (now : ℕ)
        → 0 < working id w.workers
        → Step w (record w { state = (call id handle_call now w.state).0 })
    committed :
        (id : ℕ) (phase : String) (now : ℕ)
        → 0 < working id w.workers
        → Step w (record w { state = (enter_non_cancellable id phase now w.state).0 })
    finished :
        (before after : List Worker) (worker : Worker) (now : ℕ) (st : RegistryState V)
        (snapshot : Option (JobSnapshot V))
        → w.workers ≡ before ++ worker ∷ after
        → worker_finished worker.id worker.class now w.state ≡ value (st, snapshot)
        → Step w (record w { state = st; workers = before ++ after })

  pub data Reach (w : World V) : World V → Type 0 where
    here : Reach w w
    next : {u v : World V} → Reach w u → Step u v → Reach w v
