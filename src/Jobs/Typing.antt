-- ===== src/Jobs/Typing.antt =====
-- A job of a kind that writes waits and runs as a writer (src/server/jobs.rs), whatever section of
-- the registry runs.
use base_search.Prelude.{
  ℕ, ◌+◌, ◌≤◌, ◌≡◌, String, Bool, true, false, not, ◌&&◌, Option, none, some, List, [], ◌∷◌, ◌++◌,
  arith, nat_eq, count_if, count_if-append, count_if-keep-le, value,
}
use base_search.Prelude.Dict.{get, adjust, get-adjust, get-insert}
use base_search.Jobs.Types.{is_write, cancelled, JobVisibility, JobSnapshot, WorkClass}
use base_search.Jobs.State.{PendingJob, JobAdmission, RegistryState, is_job, work_class}
use base_search.Jobs.Admission.{enqueue, new_snapshot}
use base_search.Jobs.Queue.{cancel, worker_finished, request_cancel, conclude}
use base_search.Jobs.Handle.{HandleCall, update, call, enter_non_cancellable, stop, commit_to}
use base_search.Jobs.Retention.{prune}
use base_search.Jobs.Keys.{Keyed}
use base_search.Jobs.Pruning.{prune_lem, prune-queues, prune-not_deleted}
use base_search.Jobs.World.{Worker, runs, has_class, is_class}
use base_search.Jobs.Places.{Place}

abbrev pub waits_as_reader : ℕ → PendingJob → Bool
waits_as_reader i p = is_job i p && is_class WorkClass.read p.class

abbrev pub runs_as_reader : ℕ → Worker → Bool
runs_as_reader i w = runs i w && has_class WorkClass.read w

count_if-and-le {ℓ} :
    {A : Type ℓ} (p q : A → Bool) (xs : List A) → count_if (λ x. p x && q x) xs ≤ count_if p xs
count_if-and-le p q [] = omega arith
count_if-and-le p q (x ∷ xs) = ground (arith, count_if-and-le p q xs)

module _ {V : Type 0} (i : ℕ) where
  abbrev pub is_writer : RegistryState V → Bool
  is_writer st = elim (get i st.entries) [ none ↦ false | some s ↦ is_write s.kind ]

  abbrev pub as_reader : RegistryState V → List Worker → ℕ
  as_reader st ws =
      count_if (waits_as_reader i) st.write_queue
      + count_if (waits_as_reader i) st.read_queue
      + count_if (runs_as_reader i) ws

  -- A job of a kind that writes is nowhere a reader.
  abbrev pub Typed : List Worker → RegistryState V → Type 0
  Typed ws st = is_writer st ≡ true → as_reader st ws ≡ 0

  pub enqueue-Typed :
      (n : ℕ) (ws : List Worker) (admission : JobAdmission) (title : String)
      (visibility : JobVisibility) (input : Option V) (now : ℕ) (st : RegistryState V)
      → Place i n ws st
      → Typed ws st
      → Typed ws (enqueue n admission title visibility input now st).0
  unfolding enqueue
  enqueue-Typed n ws admission title visibility input now st p t =
      let pending : PendingJob = record {
        id = n;
        owner_user_id = admission.owner_user_id;
        class = work_class admission.kind;
      } in
      let snapshot = new_snapshot n admission title visibility input now in
      ground (
        arith,
        get-insert n i snapshot st.entries,
        count_if-append (waits_as_reader i) st.write_queue (pending ∷ []),
        count_if-append (waits_as_reader i) st.read_queue (pending ∷ []),
        count_if-and-le (is_job i) (λ p. is_class WorkClass.read p.class) st.write_queue,
        count_if-and-le (is_job i) (λ p. is_class WorkClass.read p.class) st.read_queue,
        count_if-and-le (runs i) (has_class WorkClass.read) ws,
      )

  pub cancel-Typed :
      (ws : List Worker) (id now : ℕ) (st : RegistryState V)
      → Typed ws st
      → Typed ws (cancel id now st).0
  unfolding cancel
  cancel-Typed ws id now st t =
      let requested = adjust id request_cancel st.entries in
      ground (
        arith,
        get-adjust id i request_cancel st.entries,
        get-adjust id i (λ s. record s { status = cancelled; updated_ms = now }) requested,
        get-adjust id i (λ s. record s { updated_ms = now }) requested,
        count_if-keep-le (waits_as_reader i) (λ p. not (is_job id p)) st.write_queue,
        count_if-keep-le (waits_as_reader i) (λ p. not (is_job id p)) st.read_queue,
      )

  pub call-Typed :
      (ws : List Worker) (id : ℕ) (handle_call : HandleCall V) (now : ℕ) (st : RegistryState V)
      → Typed ws st
      → Typed ws (call id handle_call now st).0
  unfolding call update
  call-Typed ws id handle_call now st t =
      ground (
        arith,
        get-adjust id i (λ s. record (update handle_call s) { updated_ms = now }) st.entries,
      )

  pub enter-Typed :
      (ws : List Worker) (id : ℕ) (phase : String) (now : ℕ) (st : RegistryState V)
      → Typed ws st
      → Typed ws (enter_non_cancellable id phase now st).0
  unfolding enter_non_cancellable
  enter-Typed ws id phase now st t = ground (
    arith,
    get-adjust id i (stop now) st.entries,
    get-adjust id i (commit_to phase now) st.entries,
  )

  pub finished-Typed :
      (before after : List Worker) (worker : Worker) (now : ℕ) (st st' : RegistryState V)
      (snapshot : Option (JobSnapshot V))
      → worker_finished worker.id worker.class now st ≡ value (st', snapshot)
      → Typed (before ++ worker ∷ after) st
      → Typed (before ++ after) st'
  unfolding worker_finished
  finished-Typed before after worker now st st' snapshot h t = ground (
    arith,
    get-adjust worker.id i (conclude true now) st.entries,
    get-adjust worker.id i (conclude false now) st.entries,
    count_if-append (runs_as_reader i) before (worker ∷ after),
    count_if-append (runs_as_reader i) before after,
  )

  pub prune-Typed :
      (ws : List Worker) (retained : ℕ) (deleted : Bool) (st : RegistryState V)
      → Keyed st.entries
      → Typed ws st
      → Typed ws (prune retained deleted st)
  prune-Typed ws retained false st k t = rw (prune-not_deleted retained st) t
  prune-Typed ws retained true st k t =
      ground (arith, prune_lem retained i st k, prune-queues retained true st)
