-- ===== src/Jobs/Places.antt =====
-- Places: where a job is, at every moment of every schedule: in one queue, on one thread, or
-- finished. Every statement here is about one job id `i`.
use base_search.Prelude.{
  ℕ, ◌+◌, ◌≤◌, ◌<◌, ◌≡◌, ap, String, Bool, true, false, not, Option, none, some, List, [], ◌∷◌,
  ◌++◌, subst, sym, if◌then◌else◌, arith, nat_eq, ◌==◌, length, keep, count_if, count_if-append,
  value,
}
use base_search.Prelude.Dict.{get, adjust, get-adjust, get-insert}
use base_search.Auth.Roles.{Permission}
use base_search.Jobs.Types.{queued, running, cancelled, JobVisibility, JobSnapshot, JobQueueLimits}
use base_search.Jobs.State.{
  PendingJob, JobAdmission, RegistryState, Dispatch, start, reject, is_job, work_class,
}
use base_search.Jobs.Admission.{enqueue, new_snapshot}
use base_search.Jobs.Queue.{
  cancel, worker_finished, request_cancel, begin, revoke, conclude, settle, authorized,
}
use base_search.Jobs.Handle.{HandleCall, update, call, enter_non_cancellable, stop, commit_to}
use base_search.Jobs.Retention.{prune}
use base_search.Jobs.Rounds.{Picked, writer, reader, Picked-entries, Round, round}
use base_search.Jobs.Keys.{Keyed}
use base_search.Jobs.Pruning.{prune_lem, prune-queues, prune-not_deleted}
use base_search.Jobs.World.{Worker, worker_of, status_of, waiting, working, runs}

-- What `cancel` leaves of a queue.
count_if-drop :
    (i id : ℕ) (q : List PendingJob)
    → count_if (is_job i) (keep (λ p. not (is_job id p)) q)
      ≡ (if id == i then 0 else count_if (is_job i) q)
count_if-drop i id [] = ground arith
count_if-drop i id (p ∷ q) = ground (arith, count_if-drop i id q)

length-drop :
    (id : ℕ) (q : List PendingJob)
    → length (keep (λ p. not (is_job id p)) q) + count_if (is_job id) q ≡ length q
length-drop id [] = ground arith
length-drop id (p ∷ q) = ground (arith, length-drop id q)

module _ {V : Type 0} where
  -- A round: the job leaves its queue, and a thread has it unless it is refused.
  abbrev pub after_dispatch : Dispatch V → List Worker → List Worker
  after_dispatch (start pending snapshot) ws = worker_of pending ∷ ws
  after_dispatch (reject snapshot class) ws = ws

module _ {V : Type 0} (i : ℕ) where
  pub record Place (next_id : ℕ) (workers : List Worker) (st : RegistryState V) : Type 0 where
    -- It waits once or runs once, not both.
    pub once : waiting i st + working i workers ≤ 1
    -- It is shown as queued just when it waits, and a job shown as running has a thread.
    pub queued_waits : status_of i st ≡ some queued → waiting i st ≡ 1
    pub waits_queued : 0 < waiting i st → status_of i st ≡ some queued
    pub running_works : status_of i st ≡ some running → working i workers ≡ 1
    -- Ids are drawn from the counter.
    pub fresh_entry : next_id ≤ i → status_of i st ≡ none
    pub fresh_place : next_id ≤ i → waiting i st + working i workers ≡ 0

  pub enqueue-Place :
      (n : ℕ) (ws : List Worker) (admission : JobAdmission) (title : String)
      (visibility : JobVisibility) (input : Option V) (now : ℕ) (st : RegistryState V)
      → Place n ws st
      → Place (n + 1) ws (enqueue n admission title visibility input now st).0
  unfolding enqueue
  enqueue-Place n ws admission title visibility input now st p =
      let pending : PendingJob = record {
        id = n;
        owner_user_id = admission.owner_user_id;
        class = work_class admission.kind;
      } in
      let snapshot = new_snapshot n admission title visibility input now in
      ground (
        arith,
        get-insert n i snapshot st.entries,
        count_if-append (is_job i) st.write_queue (pending ∷ []),
        count_if-append (is_job i) st.read_queue (pending ∷ []),
      )

  pub cancel-Place :
      (n : ℕ) (ws : List Worker) (id now : ℕ) (st : RegistryState V)
      → Place n ws st
      → Place n ws (cancel id now st).0
  unfolding cancel
  cancel-Place n ws id now st p =
      let requested = adjust id request_cancel st.entries in
      ground (
        arith,
        get-adjust id i request_cancel st.entries,
        get-adjust id i (λ s. record s { status = cancelled; updated_ms = now }) requested,
        get-adjust id i (λ s. record s { updated_ms = now }) requested,
        count_if-drop i id st.write_queue,
        count_if-drop i id st.read_queue,
        length-drop id st.write_queue,
        length-drop id st.read_queue,
      )

  pub call-Place :
      (n : ℕ) (ws : List Worker) (id : ℕ) (handle_call : HandleCall V) (now : ℕ)
      (st : RegistryState V)
      → 0 < working id ws
      → Place n ws st
      → Place n ws (call id handle_call now st).0
  unfolding call update
  call-Place n ws id handle_call now st w p =
      ground (
        arith,
        get-adjust id i (λ s. record (update handle_call s) { updated_ms = now }) st.entries,
      )

  pub enter-Place :
      (n : ℕ) (ws : List Worker) (id : ℕ) (phase : String) (now : ℕ) (st : RegistryState V)
      → 0 < working id ws
      → Place n ws st
      → Place n ws (enter_non_cancellable id phase now st).0
  unfolding enter_non_cancellable
  enter-Place n ws id phase now st w p = ground (
    arith,
    get-adjust id i (stop now) st.entries,
    get-adjust id i (commit_to phase now) st.entries,
  )

  pub finished-Place :
      (n : ℕ) (before after : List Worker) (worker : Worker) (now : ℕ) (st st' : RegistryState V)
      (snapshot : Option (JobSnapshot V))
      → worker_finished worker.id worker.class now st ≡ value (st', snapshot)
      → Place n (before ++ worker ∷ after) st
      → Place n (before ++ after) st'
  unfolding worker_finished
  finished-Place n before after worker now st st' snapshot h p = ground (
    arith,
    get-adjust worker.id i (conclude true now) st.entries,
    get-adjust worker.id i (conclude false now) st.entries,
    count_if-append (runs i) before (worker ∷ after),
    count_if-append (runs i) before after,
  )

  pub Picked-waiting :
      (limits : JobQueueLimits) (st picked : RegistryState V) (pending : PendingJob)
      → Picked limits st pending picked
      → waiting i st ≡ waiting i picked + (if pending.id == i then 1 else 0)
  Picked-waiting limits st picked pending (writer rest free q e) =
      ground (arith, ap (count_if (is_job i)) q)
  Picked-waiting limits st picked pending (reader rest free q e) =
      ground (arith, ap (count_if (is_job i)) q)

  settle-Place :
      (n : ℕ) (ws : List Worker) (allowed : Bool) (pending : PendingJob) (entry : JobSnapshot V)
      (now : ℕ) (st picked : RegistryState V)
      → picked.entries ≡ st.entries
      → get pending.id st.entries ≡ some entry
      → waiting i st ≡ waiting i picked + (if pending.id == i then 1 else 0)
      → Place n ws st
      → let (st', d) = settle allowed pending entry now picked in Place n (after_dispatch d ws) st'
  settle-Place n ws allowed pending entry now st picked e g c p = ground (
    arith,
    get-adjust pending.id i (begin now) picked.entries,
    get-adjust pending.id i (revoke now) picked.entries,
  )

  pub Round-Place :
      (n : ℕ) (ws : List Worker) {limits : JobQueueLimits}
      {authorizer : Option (String → Permission → Bool)} {now : ℕ} {st st' : RegistryState V}
      {d : Dispatch V}
      → Round authorizer now limits st st' d
      → Place n ws st
      → Place n (after_dispatch d ws) st'
  Round-Place n ws {limits} {authorizer} {now} {st} (round pending picked entry p g e) v =
      subst (λ (x : RegistryState V × Dispatch V). Place n (after_dispatch x.1 ws) x.0) (sym e)
        (settle-Place n ws (authorized authorizer pending entry) pending entry now st picked
          (Picked-entries p) g (Picked-waiting limits st picked pending p) v)

  pub prune-Place :
      (n : ℕ) (ws : List Worker) (retained : ℕ) (deleted : Bool) (st : RegistryState V)
      → Keyed st.entries
      → Place n ws st
      → Place n ws (prune retained deleted st)
  prune-Place n ws retained false st k p = rw (prune-not_deleted retained st) p
  prune-Place n ws retained true st k p =
      ground (arith, prune_lem retained i st k, prune-queues retained true st)
