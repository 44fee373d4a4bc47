-- ===== src/Jobs/Cancelling.antt =====
-- src/server/jobs.rs: `cancel` against the point of no return, and a job that is forgotten too
-- early.
use base_search.Prelude.{
  ℕ, ◌≤◌, ◌≡◌, refl, suc, String, Bool, true, false, not, ◌&&◌, Option, none, some, List, [], ◌∷◌,
  arith, nat_eq, string_eq, panic,
}
use base_search.Prelude.Dict.{get, adjust, get-adjust}
use base_search.Jobs.Types.{is_terminal, cancelled, JobSnapshot, WorkClass}
use base_search.Jobs.State.{RegistryState, is_raised}
use base_search.Jobs.Queue.{cancel, request_cancel}
use base_search.Jobs.Handle.{enter_non_cancellable, stop, commit_to}
use base_search.Jobs.Handle.{succeed, call, update}
use base_search.Jobs.Queue.{worker_finished, write_entry}
use base_search.Jobs.Retention.{Finished, finished, job_history_limit, prune}
use base_search.Jobs.Ranking.{rank}
use base_search.Jobs.Pruning.{prune_lem}
use base_search.Jobs.Keys.{Keyed, call-Keyed}
use base_search.Jobs.World.{status_of}

module _ {V : Type 0} where
  abbrev pub open_to_cancel : ℕ → RegistryState V → Bool
  open_to_cancel id st = elim (get id st.entries) [
    | none ↦ false
    | some s ↦ not (is_terminal s.status) && s.cancellable
  ]

  -- `cancel` succeeds exactly for a job that has an entry, is unfinished and may be cancelled.
  -- Then the job's flag is set and it may not be cancelled again; otherwise nothing changes.
  pub cancel_outcome :
      (id now : ℕ) (st : RegistryState V)
      → let (st', outcome) = cancel id now st in
        (outcome.cancelled ≡ open_to_cancel id st)
        × (open_to_cancel id st ≡ true
            → (is_raised st' id ≡ true) × (open_to_cancel id st' ≡ false))
        × (open_to_cancel id st ≡ false → st' ≡ st)
  unfolding cancel
  cancel_outcome id now st =
      let requested = adjust id request_cancel st.entries in
      ground (
        arith,
        get-adjust id id request_cancel st.entries,
        get-adjust id id (λ s. record s { status = cancelled; updated_ms = now }) requested,
        get-adjust id id (λ s. record s { updated_ms = now }) requested,
      )

  -- A job whose worker has passed the point of no return is not
  -- cancelled after it, and the refused cancellation changes nothing.
  pub commit-cancel :
      (id now later : ℕ) (phase : String) (st : RegistryState V)
      → (enter_non_cancellable id phase now st).1 ≡ true
      → let st' = (enter_non_cancellable id phase now st).0 in
        ((cancel id later st').1.cancelled ≡ false) × ((cancel id later st').0 ≡ st')
  unfolding cancel enter_non_cancellable
  commit-cancel id now later phase st h = ground (
    arith,
    get-adjust id id (stop now) st.entries,
    get-adjust id id (commit_to phase now) st.entries,
  )

  -- A worker whose job has been cancelled does not pass the point of no return: it is told to stop, and the job
  -- ends as cancelled.
  cancel-commit :
      (id now later : ℕ) (phase : String) (st : RegistryState V)
      → (cancel id now st).1.cancelled ≡ true
      → let (st', allowed, snapshot) = enter_non_cancellable id phase later (cancel id now st).0 in
        (allowed ≡ false) × (status_of id st' ≡ some cancelled)
  unfolding cancel enter_non_cancellable
  cancel-commit id now later phase st h =
      let requested = adjust id request_cancel st.entries in
      let noted = adjust id (λ s. record s { updated_ms = now }) requested in
      ground (
        arith,
        get-adjust id id request_cancel st.entries,
        get-adjust id id (λ s. record s { status = cancelled; updated_ms = now }) requested,
        get-adjust id id (λ s. record s { updated_ms = now }) requested,
        get-adjust id id (stop later) noted,
        get-adjust id id (stop later) requested,
      )

  rank-adjust :
      (x : Finished) (i : ℕ) (f : JobSnapshot V → JobSnapshot V) (s : JobSnapshot V)
      (m : List (ℕ × JobSnapshot V))
      → get i m ≡ some s
      → is_terminal s.status ≡ false
      → is_terminal (f s).status ≡ true
      → (f s).id ≡ x.id
      → (f s).updated_ms ≡ x.updated_ms
      → rank x (finished (adjust i f m)) ≡ suc (rank x (finished m))
  rank-adjust x i f s [] g t t' e u = ground arith
  rank-adjust x i f s ((j, w) ∷ m) g t t' e u = ground (arith, rank-adjust x i f s m)

  written-panics :
      (i later : ℕ) (class : WorkClass) (f : JobSnapshot V → JobSnapshot V) (s : JobSnapshot V)
      (st : RegistryState V)
      → Keyed (adjust i f st.entries)
      → get i st.entries ≡ some s
      → is_terminal s.status ≡ false
      → is_terminal (f s).status ≡ true
      → (f s).id ≡ i
      → job_history_limit
        ≤ rank (record { id = i; updated_ms = (f s).updated_ms }) (finished st.entries)
      → worker_finished i class later (prune job_history_limit true (write_entry i f st)) ≡ panic
  unfolding worker_finished
  written-panics i later class f s st k g t t' e h = ground (
    arith,
    rank-adjust (record { id = i; updated_ms = (f s).updated_ms }) i f s st.entries g t t' e refl,
    prune_lem job_history_limit i (write_entry i f st) k,
    get-adjust i i f st.entries,
  )

  Keyed-id :
      (i : ℕ) (s : JobSnapshot V) (m : List (ℕ × JobSnapshot V))
      → Keyed m
      → get i m ≡ some s
      → s.id ≡ i
  Keyed-id i s [] k g = ground arith
  Keyed-id i s ((j, w) ∷ m) k g = ground (arith, Keyed-id i s m k.2)

  -- A finished job can be forgotten before its own thread is done with it. If the system clock has
  -- gone back, so that as many finished jobs as are kept were changed after the time at which this
  -- one succeeds, then the pruning at the end of `succeed` deletes its entry, and `worker_finished`,
  -- which expects the entry, panics with the registry's lock held.
  pub succeed-worker_finished_panics :
      (i now later : ℕ) (flag : Bool) (result : Option V) (class : WorkClass) (s : JobSnapshot V)
      (st : RegistryState V)
      → Keyed st.entries
      → get i st.entries ≡ some s
      → is_terminal s.status ≡ false
      → job_history_limit ≤ rank (record { id = i; updated_ms = now }) (finished st.entries)
      → worker_finished i class later
          (prune job_history_limit true (call i (succeed flag result) now st).0)
        ≡ panic
  unfolding call update
  succeed-worker_finished_panics i now later flag result class s st k g t h =
      written-panics i later class
        (λ s'. record (update (succeed flag result) s') { updated_ms = now }) s st
        (call-Keyed i (succeed flag result) now st k) g t (ground arith)
        (ground (arith, Keyed-id i s st.entries k g)) h
