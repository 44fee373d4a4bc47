-- ===== src/Jobs/Slots.antt =====
-- Slots: the counters of active jobs against the threads that hold a slot, over every schedule.
use base_search.Prelude.{
  ℕ, ◌+◌, ◌≤◌, ◌≡◌, String, Bool, ap, Option, some, List, ◌∷◌, ◌++◌, if◌then◌else◌, arith, not, [],
  count_if, count_if-append, count_if-keep-le, ok, value,
}
use base_search.Auth.Roles.{Permission, Identity}
use base_search.Jobs.Types.{JobKind, JobVisibility, JobSnapshot, JobQueueLimits, WorkClass}
use base_search.Jobs.State.{
  PendingJob, JobAdmission, RegistryState, Dispatch, start, reject, is_job, work_class,
}
use base_search.Jobs.Admission.{reserve, drop_admission, acquire_preview, release_preview, enqueue}
use base_search.Jobs.Queue.{cancel, dispatch_next, free_slot, worker_finished}
use base_search.Jobs.Handle.{HandleCall, call, enter_non_cancellable}
use base_search.Jobs.Retention.{prune}
use base_search.Jobs.World.{World, Worker, worker_of, holders, has_class, is_class}

abbrev pub slot : Bool → ℕ
slot b = if b then 1 else 0

abbrev of_class : WorkClass → PendingJob → Bool
of_class c pending = is_class c pending.class

abbrev pub class_slot : WorkClass → WorkClass → ℕ
class_slot c d = slot (is_class c d)

module _ {V : Type 0} where
  -- How many jobs stand in the queue of the other class.
  abbrev pub misplaced : RegistryState V → ℕ
  misplaced st =
      count_if (of_class WorkClass.read) st.write_queue
      + count_if (of_class WorkClass.write) st.read_queue

  -- The counters are the numbers of threads that hold a slot, and each queue holds its class.
  pub record Slots (w : World V) : Type 0 where
    pub write_slot : slot w.state.active_write ≡ holders WorkClass.write w
    pub read_slot : w.state.active_reads ≡ holders WorkClass.read w
    pub reads_capped : w.state.active_reads ≤ w.limits.concurrent_reads
    pub queues_sorted : misplaced w.state ≡ 0

  abbrev pub SameSlots : RegistryState V → RegistryState V → Type 0
  SameSlots st st' =
      (st'.active_write ≡ st.active_write)
      × (st'.active_reads ≡ st.active_reads)
      × (misplaced st' ≤ misplaced st)

  pub SameSlots-Slots :
      (w : World V) (st : RegistryState V) (n : ℕ)
      → SameSlots w.state st
      → Slots w
      → Slots (record w { state = st; next_id = n })
  SameSlots-Slots w st n s v = ground arith

  pub reserve-SameSlots :
      (limits : JobQueueLimits) (identity : Identity) (kind : JobKind) (rid : ℕ)
      (st st' : RegistryState V) (admission : JobAdmission)
      → reserve limits identity kind rid st ≡ ok (st', admission)
      → SameSlots st st'
  unfolding reserve
  reserve-SameSlots limits identity kind rid st st' admission h = ground arith

  pub enqueue-SameSlots :
      (id : ℕ) (admission : JobAdmission) (title : String) (visibility : JobVisibility)
      (input : Option V) (now : ℕ) (st : RegistryState V)
      → SameSlots st (enqueue id admission title visibility input now st).0
  unfolding enqueue
  enqueue-SameSlots id admission title visibility input now st =
      let pending : PendingJob = record {
        id = id;
        owner_user_id = admission.owner_user_id;
        class = work_class admission.kind;
      } in
      ground (
        arith,
        count_if-append (of_class WorkClass.read) st.write_queue (pending ∷ []),
        count_if-append (of_class WorkClass.write) st.read_queue (pending ∷ []),
      )

  pub cancel-SameSlots : (id now : ℕ) (st : RegistryState V) → SameSlots st (cancel id now st).0
  unfolding cancel
  cancel-SameSlots id now st = ground (
    arith,
    count_if-keep-le (of_class WorkClass.read) (λ p. not (is_job id p)) st.write_queue,
    count_if-keep-le (of_class WorkClass.write) (λ p. not (is_job id p)) st.read_queue,
  )

  pub enter-SameSlots :
      (id : ℕ) (phase : String) (now : ℕ) (st : RegistryState V)
      → SameSlots st (enter_non_cancellable id phase now st).0
  unfolding enter_non_cancellable
  enter-SameSlots id phase now st = ground arith

  pub prune-SameSlots :
      (retained : ℕ) (deleted : Bool) (st : RegistryState V)
      → SameSlots st (prune retained deleted st)
  unfolding prune
  prune-SameSlots retained deleted st = ground arith

  abbrev pub dispatch_class : Dispatch V → WorkClass
  dispatch_class (start pending snapshot) = pending.class
  dispatch_class (reject snapshot class) = class

  -- What a round of the dispatcher does to the counters: it takes a free slot of the job's class.
  pub record TakesSlot (w : World V) (st : RegistryState V) (c : WorkClass) : Type 0 where
    pub write_taken :
        slot st.active_write ≡ slot w.state.active_write + class_slot WorkClass.write c
    pub read_taken : st.active_reads ≡ w.state.active_reads + class_slot WorkClass.read c
    pub still_capped : st.active_reads ≤ w.limits.concurrent_reads
    pub still_sorted : misplaced st ≡ 0

  pub dispatch_next-TakesSlot :
      (w : World V) (authorizer : Option (String → Permission → Bool)) (now : ℕ)
      (st : RegistryState V) (d : Dispatch V)
      → dispatch_next w.limits authorizer now w.state ≡ value (some (st, d))
      → Slots w
      → TakesSlot w st (dispatch_class d)
  unfolding dispatch_next
  dispatch_next-TakesSlot w authorizer now st d h v = ground arith

  pub worker_finished-frees :
      (id : ℕ) (class : WorkClass) (now : ℕ) (st st' : RegistryState V)
      (snapshot : Option (JobSnapshot V))
      → worker_finished id class now st ≡ value (st', snapshot)
      → SameSlots (free_slot class st) st'
  unfolding worker_finished
  worker_finished-frees id class now st st' snapshot h = ground arith

  pub drop_admission-SameSlots :
      (admission : JobAdmission) (st : RegistryState V) → SameSlots st (drop_admission admission st)
  unfolding drop_admission
  drop_admission-SameSlots admission st = ground arith

  pub acquire_preview-SameSlots :
      (limits : JobQueueLimits) (st st' : RegistryState V)
      → acquire_preview limits st ≡ some st'
      → SameSlots st st'
  unfolding acquire_preview
  acquire_preview-SameSlots limits st st' h = ground arith

  pub release_preview-SameSlots : (st : RegistryState V) → SameSlots st (release_preview st)
  unfolding release_preview
  release_preview-SameSlots st = ground arith

  pub call-SameSlots :
      (id : ℕ) (handle_call : HandleCall V) (now : ℕ) (st : RegistryState V)
      → SameSlots st (call id handle_call now st).0
  unfolding call
  call-SameSlots id handle_call now st = ground arith

  pub started-Slots :
      (w : World V) (st : RegistryState V) (pending : PendingJob)
      → TakesSlot w st pending.class
      → Slots w
      → Slots (record w { state = st; workers = worker_of pending ∷ w.workers })
  started-Slots w st pending t v = ground arith

  pub refused-Slots :
      (w : World V) (st : RegistryState V) (class : WorkClass)
      → TakesSlot w st class
      → Slots w
      → Slots (record w { state = st; rejecting = class ∷ w.rejecting })
  refused-Slots w st class t v = ground arith

  pub slot_freed-Slots :
      (w : World V) (before after : List WorkClass) (class : WorkClass)
      → w.rejecting ≡ before ++ class ∷ after
      → Slots w
      → Slots (record w { state = free_slot class w.state; rejecting = before ++ after })
  slot_freed-Slots w before after class e v = ground (
    arith,
    ap (count_if (is_class WorkClass.read)) e,
    ap (count_if (is_class WorkClass.write)) e,
    count_if-append (is_class WorkClass.read) before (class ∷ after),
    count_if-append (is_class WorkClass.write) before (class ∷ after),
    count_if-append (is_class WorkClass.read) before after,
    count_if-append (is_class WorkClass.write) before after,
  )

  pub finished-Slots :
      (w : World V) (before after : List Worker) (worker : Worker) (st : RegistryState V)
      → w.workers ≡ before ++ worker ∷ after
      → SameSlots (free_slot worker.class w.state) st
      → Slots w
      → Slots (record w { state = st; workers = before ++ after })
  finished-Slots w before after worker st e s v = ground (
    arith,
    ap (count_if (has_class WorkClass.read)) e,
    ap (count_if (has_class WorkClass.write)) e,
    count_if-append (has_class WorkClass.read) before (worker ∷ after),
    count_if-append (has_class WorkClass.write) before (worker ∷ after),
    count_if-append (has_class WorkClass.read) before after,
    count_if-append (has_class WorkClass.write) before after,
  )
