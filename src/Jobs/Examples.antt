-- ===== src/Jobs/Examples.antt =====
-- Runs of the job registry (src/server/jobs.rs): a schedule with one import, and the theorems at
-- its states.
use base_search.Prelude.{
  ℕ, ◌+◌, ◌≤◌, ◌<◌, ◌≡◌, ◌↔◌, refl, String, true, false, none, some, List, [], ◌∷◌, arith, ok, err,
  panic, value, nat_eq, string_eq, zero, suc, count_if, if◌then◌else◌,
}
use base_search.Prelude.Dict.{get}
use base_search.Auth.Roles.{editor, viewer, Identity, allows, is_privileged}
use base_search.Jobs.Types.{
  JobKind, queued, running, workspace, JobSnapshot, default_limits, WorkClass, permission,
  is_single_flight, is_write, clear,
}
use base_search.Jobs.State.{
  PendingJob, JobAdmission, RegistryState, pending_for_user, workspace_pending, start,
}
use base_search.Jobs.Admission.{reserve, enqueue, new_snapshot}
use base_search.Jobs.Queue.{dispatch_next, cancel, begin}
use base_search.Jobs.World.{
  World, Step, Reach, reserved, enqueued, started, here, next, new_world, status_of, waiting,
  working, holders,
}
use base_search.Jobs.Occupancy.{holders_bounded}
use base_search.Jobs.Bounds.{pending_bounded}
use base_search.Jobs.Load.{flights}
use base_search.Jobs.Schedules.{job_in_place}
use base_search.Jobs.Writers.{write_jobs_exclusive}
use base_search.Jobs.Dispatcher.{dispatch_available}
use base_search.Jobs.Progress.{Completes, dispatch_available_lem}
use base_search.Jobs.Outcomes.{Admissible, granted, reserve_iff, reserve-enqueue}
use base_search.Jobs.Cancelling.{open_to_cancel, cancel_outcome, succeed-worker_finished_panics}
use base_search.Jobs.Handle.{succeed, call}
use base_search.Jobs.Queue.{worker_finished}
use base_search.Jobs.Retention.{prune}
use base_search.Jobs.Keys.{Keyed}
use base_search.Jobs.Pruning.{is_surplus, prune_lem}
use base_search.Jobs.Access.{list_for, redact_for, cancel_for}
use base_search.Jobs.Types.{JobAccessError, succeeded}
use base_search.Jobs.Privacy.{has_id, shows, list_for_lem, redact_for-hides}

abbrev ed : Identity
ed = record { user_id = "u1"; username = "ed"; role = editor }

abbrev import_admission : JobAdmission
import_admission = record { id = 1; kind = JobKind.import; owner_user_id = "u1" }

abbrev fresh : World ℕ
fresh = new_world default_limits

abbrev reserved_world : World ℕ
reserved_world = record fresh {
  state = record (fresh.state) {
    reservations = (1, record { owner_user_id = "u1"; kind = JobKind.import }) ∷ [];
  };
}

abbrev import_snapshot : JobSnapshot ℕ
import_snapshot = new_snapshot 1 import_admission "Import" workspace none 5

abbrev import_pending : PendingJob
import_pending = record { id = 1; owner_user_id = "u1"; class = WorkClass.write }

abbrev queued_world : World ℕ
queued_world = record fresh {
  state = record (fresh.state) {
    entries = (1, import_snapshot) ∷ [];
    write_queue = import_pending ∷ [];
  };
  next_id = 2;
}

abbrev running_world : World ℕ
running_world = record fresh {
  state = record (fresh.state) { entries = (1, begin 6 import_snapshot) ∷ []; active_write = true };
  next_id = 2;
  workers = record { id = 1; class = WorkClass.write } ∷ [];
}

reserve_import :
    reserve default_limits ed JobKind.import 1 fresh.state
    ≡ ok (reserved_world.state, import_admission)
unfolding reserve allows permission is_single_flight
reserve_import = refl

enqueue_import :
    enqueue 1 import_admission "Import" workspace none 5 reserved_world.state
    ≡ (queued_world.state, ok import_snapshot)
unfolding enqueue is_write
enqueue_import = refl

dispatch_import :
    dispatch_next default_limits none 6 queued_world.state
    ≡ value (some (running_world.state, start import_pending (begin 6 import_snapshot)))
unfolding dispatch_next
dispatch_import = refl

enqueue_step : Step reserved_world queued_world
unfolding enqueue is_write
enqueue_step = enqueued import_admission "Import" workspace none 5 (omega arith)

to_queued : Reach fresh queued_world
to_queued =
    next
      (next here
        (reserved ed JobKind.import 1 reserved_world.state import_admission reserve_import))
      enqueue_step

to_running : Reach fresh running_world
to_running =
    next to_queued
      (started none 6 running_world.state import_pending (begin 6 import_snapshot) dispatch_import)

holders_bounded_example :
    (holders WorkClass.write running_world ≤ 1)
    × (holders WorkClass.read running_world ≤ 2)
    × (running_world.state.active_reads ≡ holders WorkClass.read running_world)
    × ((running_world.state.active_write ≡ true) ↔ (holders WorkClass.write running_world ≡ 1))
holders_bounded_example = holders_bounded default_limits running_world to_running

pending_bounded_example :
    (workspace_pending queued_world.state ≤ 24)
    × (pending_for_user queued_world.state "u1" ≤ 6)
    × (is_single_flight clear ≡ true → flights clear queued_world.state ≤ 1)
pending_bounded_example = pending_bounded "u1" clear default_limits queued_world to_queued

job_in_place_example :
    ((status_of 1 queued_world.state ≡ some queued) ↔ (waiting 1 queued_world.state ≡ 1))
    × (status_of 1 queued_world.state ≡ some running → working 1 queued_world.workers ≡ 1)
    × (waiting 1 queued_world.state + working 1 queued_world.workers ≤ 1)
job_in_place_example = job_in_place default_limits queued_world 1 to_queued

write_jobs_exclusive_example : ◌≡◌ {A = ℕ} 1 1
unfolding is_write
write_jobs_exclusive_example =
    write_jobs_exclusive default_limits running_world 1 1 (begin 6 import_snapshot)
      (begin 6 import_snapshot) to_running refl refl refl refl refl refl

dispatch_available_lem_example :
    Completes queued_world (dispatch_available 2 none 6 true queued_world)
dispatch_available_lem_example =
    dispatch_available_lem default_limits queued_world none 6 true to_queued

dispatch_available_import : dispatch_available 2 none 6 true queued_world ≡ some running_world
unfolding dispatch_available dispatch_next
dispatch_available_import = refl

reserve_iff_example :
    (reserve default_limits ed JobKind.import 1 fresh.state
      ≡ ok (granted ed JobKind.import 1 fresh.state))
    ↔ Admissible default_limits ed JobKind.import fresh.state
reserve_iff_example = reserve_iff default_limits ed JobKind.import 1 fresh.state

reserve-enqueue_example :
    status_of 1 (enqueue 1 import_admission "Import" workspace none 5 reserved_world.state).0
    ≡ some queued
reserve-enqueue_example =
    (reserve-enqueue default_limits ed JobKind.import 1 1 "Import" workspace none 5 fresh.state
      reserved_world.state import_admission reserve_import).1

cancel_outcome_example :
    (cancel 1 7 running_world.state).1.cancelled ≡ open_to_cancel 1 running_world.state
cancel_outcome_example = (cancel_outcome 1 7 running_world.state).0

-- Forty jobs that were finished at a later time than the clock shows now.
abbrev done_job : ℕ → JobSnapshot ℕ
done_job id = record import_snapshot { id = id; status = succeeded; updated_ms = 100 }

abbrev crowd : ℕ → List (ℕ × JobSnapshot ℕ)
crowd zero = []
crowd (suc n) = (suc (suc n), done_job (suc (suc n))) ∷ crowd n

get-crowd : (n k : ℕ) → n + 1 < k → get k (crowd n) ≡ none
get-crowd zero k h = refl
get-crowd (suc n) k h = ground (arith, get-crowd n k)

Keyed-crowd : (n : ℕ) → Keyed (crowd n)
Keyed-crowd zero = tt
Keyed-crowd (suc n) = (refl, get-crowd n (suc (suc n)) (omega arith), Keyed-crowd n)

get_one-crowd : (n : ℕ) → get 1 (crowd n) ≡ none
get_one-crowd zero = refl
get_one-crowd (suc n) = ground (arith, get_one-crowd n)

abbrev crowded : RegistryState ℕ
crowded = record (running_world.state) { entries = (1, begin 6 import_snapshot) ∷ crowd 40 }

crowded-Keyed : Keyed crowded.entries
crowded-Keyed = (refl, get_one-crowd 40, Keyed-crowd 40)

prune_lem_example :
    get 1 (prune 40 true crowded).entries
    ≡ (if is_surplus 40 1 crowded.entries then none else get 1 crowded.entries)
prune_lem_example = prune_lem 40 1 crowded crowded-Keyed

succeed-worker_finished_panics_example :
    worker_finished 1 WorkClass.write 8 (prune 40 true (call 1 (succeed false none) 7 crowded).0)
    ≡ panic
succeed-worker_finished_panics_example =
    succeed-worker_finished_panics 1 7 8 false none WorkClass.write (begin 6 import_snapshot)
      crowded crowded-Keyed refl refl (omega arith)

abbrev guest : Identity
guest = record { user_id = "u2"; username = "guest"; role = viewer }

list_for_lem_example :
    count_if (has_id 1) (list_for guest running_world.state)
    ≡ shows guest 1 running_world.state.entries
list_for_lem_example = list_for_lem guest 1 running_world.state (refl, refl, tt)

abbrev titled : String → JobSnapshot ℕ
titled title = record import_snapshot { title = title; result = some 3 }

redact_for-hides_example :
    redact_for guest (titled "salaries.xlsx") ≡ redact_for guest (titled "a.csv")
redact_for-hides_example =
    redact_for-hides guest (titled "salaries.xlsx") (titled "a.csv") refl (record {
      id = refl;
      kind = refl;
      status = refl;
      owner_user_id = refl;
      visibility = refl;
      progress = refl;
      has_error = (λ h. h, λ h. h);
      cancellable = refl;
      cancel_requested = refl;
      created_ms = refl;
      updated_ms = refl;
    })

cancel_for-guest : cancel_for guest 1 7 running_world.state ≡ err JobAccessError.forbidden
unfolding cancel_for is_privileged
cancel_for-guest = refl
