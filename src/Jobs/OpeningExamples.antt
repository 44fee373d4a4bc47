-- ===== src/Jobs/OpeningExamples.antt =====
-- A job registry (src/server/jobs.rs) that is opened on a job which its process did not finish.
use base_search.Prelude.{
  ℕ, ◌+◌, ◌≤◌, ◌≡◌, ◌≢◌, ◌↔◌, refl, true, none, some, List, [], ◌∷◌, arith, ok, panic,
}
use base_search.Jobs.Types.{JobKind, queued, running, workspace, JobSnapshot, default_limits}
use base_search.Jobs.State.{JobAdmission}
use base_search.Jobs.Admission.{new_snapshot}
use base_search.Jobs.Queue.{dispatch_next, begin}
use base_search.Jobs.World.{World, here, status_of, waiting, working}
use base_search.Jobs.Opening.{load_all, interrupt, opened, opened_job_in_place}

abbrev import_admission : JobAdmission
import_admission = record { id = 1; kind = JobKind.import; owner_user_id = "u1" }

abbrev left_running : JobSnapshot ℕ
left_running = begin 6 (new_snapshot 7 import_admission "Import" workspace none 5)

abbrev rows : List (JobSnapshot ℕ)
rows = left_running ∷ []

abbrev entries : List (ℕ × JobSnapshot ℕ)
entries = (7, interrupt 9 left_running) ∷ []

load_all-rows : load_all (λ s. none) 9 rows 0 [] ≡ ok (7, entries)
unfolding load_all
load_all-rows = refl

abbrev world : World ℕ
world = opened default_limits true 7 entries

opened_job_in_place_example :
    ((status_of 7 world.state ≡ some queued) ↔ (waiting 7 world.state ≡ 1))
    × (status_of 7 world.state ≡ some running → working 7 world.workers ≡ 1)
    × (waiting 7 world.state + working 7 world.workers ≤ 1)
    × (dispatch_next world.limits none 10 world.state ≢ panic)
opened_job_in_place_example =
    opened_job_in_place default_limits (λ s. none) 9 rows true 7 entries world 7 none 10
      load_all-rows (omega arith) here
