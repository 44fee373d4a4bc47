-- ===== src/Jobs/Keys.antt =====
-- The map of jobs: each job stands once, under its own id.
use base_search.Prelude.{
  ℕ, ◌≡◌, refl, ap, String, Bool, true, false, Option, none, List, [], ◌∷◌, if◌then◌else◌, arith,
  nat_eq, ◌==◌, any, value,
}
use base_search.Prelude.Dict.{get, adjust, insert, remove, get-adjust, get-insert, get-remove}
use base_search.Auth.Roles.{Permission}
use base_search.Jobs.Types.{JobVisibility, cancelled, JobSnapshot, JobQueueLimits, WorkClass}
use base_search.Jobs.State.{PendingJob, JobAdmission, RegistryState, Dispatch}
use base_search.Jobs.Admission.{enqueue, new_snapshot}
use base_search.Jobs.Queue.{
  cancel, worker_finished, request_cancel, begin, revoke, conclude, settle, authorized,
}
use base_search.Jobs.Handle.{HandleCall, update, call, enter_non_cancellable, stop, commit_to}
use base_search.Jobs.Retention.{remove_all, expired, prune}
use base_search.Jobs.Rounds.{Round, round, Picked-entries}

module _ {V : Type 0} where
  -- A job stands once in the map, under its own id.
  abbrev pub Keyed : List (ℕ × JobSnapshot V) → Type 0
  Keyed [] = Unit {0}
  Keyed ((j, s) ∷ m) = (s.id ≡ j) × (get j m ≡ none) × Keyed m

  pub insert-Keyed :
      (id : ℕ) (s : JobSnapshot V) (m : List (ℕ × JobSnapshot V))
      → s.id ≡ id
      → Keyed m
      → Keyed (insert id s m)
  insert-Keyed id s [] e k = (e, refl, tt)
  insert-Keyed id s ((j, t) ∷ m) e k =
      ground (arith, get-insert id j s m, insert-Keyed id s m e k.2)

  adjust-Keyed :
      (id : ℕ) (f : JobSnapshot V → JobSnapshot V) (m : List (ℕ × JobSnapshot V))
      → ((s : JobSnapshot V) → (f s).id ≡ s.id)
      → Keyed m
      → Keyed (adjust id f m)
  adjust-Keyed id f [] e k = tt
  adjust-Keyed id f ((j, t) ∷ m) e k =
      ground (arith, e t, get-adjust id j f m, adjust-Keyed id f m e k.2)

  remove-Keyed : (id : ℕ) (m : List (ℕ × JobSnapshot V)) → Keyed m → Keyed (remove id m)
  remove-Keyed id [] k = tt
  remove-Keyed id ((j, t) ∷ m) k = ground (arith, get-remove id j m, remove-Keyed id m k.2)

  remove_all-Keyed :
      (ids : List ℕ) (m : List (ℕ × JobSnapshot V)) → Keyed m → Keyed (remove_all ids m)
  remove_all-Keyed [] m k = k
  remove_all-Keyed (id ∷ ids) m k = remove_all-Keyed ids (remove id m) (remove-Keyed id m k)

  pub get-remove_all :
      (i : ℕ) (ids : List ℕ) (m : List (ℕ × JobSnapshot V))
      → get i (remove_all ids m) ≡ (if any (λ id. id == i) ids then none else get i m)
  get-remove_all i [] m = refl
  get-remove_all i (id ∷ ids) m =
      ground (arith, get-remove id i m, get-remove_all i ids (remove id m))

  -- Every section keeps the map so.
  pub enqueue-Keyed :
      (id : ℕ) (admission : JobAdmission) (title : String) (visibility : JobVisibility)
      (input : Option V) (now : ℕ) (st : RegistryState V)
      → Keyed st.entries
      → Keyed (enqueue id admission title visibility input now st).0.entries
  unfolding enqueue
  enqueue-Keyed id admission title visibility input now st k =
      let snapshot = new_snapshot id admission title visibility input now in
      ground (arith, insert-Keyed id snapshot st.entries refl k)

  pub cancel-Keyed :
      (id now : ℕ) (st : RegistryState V) → Keyed st.entries → Keyed (cancel id now st).0.entries
  unfolding cancel
  cancel-Keyed id now st k =
      let requested = adjust id request_cancel st.entries in
      let first = adjust-Keyed id request_cancel st.entries (λ s. refl) k in
      ground (
        arith,
        first,
        adjust-Keyed id (λ s. record s { status = cancelled; updated_ms = now }) requested
            (λ s. refl) first,
        adjust-Keyed id (λ s. record s { updated_ms = now }) requested (λ s. refl) first,
      )

  update-id : (c : HandleCall V) (s : JobSnapshot V) → (update c s).id ≡ s.id
  unfolding update
  update-id c s = ground arith

  pub call-Keyed :
      (id : ℕ) (c : HandleCall V) (now : ℕ) (st : RegistryState V)
      → Keyed st.entries
      → Keyed (call id c now st).0.entries
  unfolding call
  call-Keyed id c now st k =
      adjust-Keyed id (λ s. record (update c s) { updated_ms = now }) st.entries (update-id c) k

  pub enter-Keyed :
      (id : ℕ) (phase : String) (now : ℕ) (st : RegistryState V)
      → Keyed st.entries
      → Keyed (enter_non_cancellable id phase now st).0.entries
  unfolding enter_non_cancellable
  enter-Keyed id phase now st k = ground (
    arith,
    adjust-Keyed id (stop now) st.entries (λ s. refl) k,
    adjust-Keyed id (commit_to phase now) st.entries (λ s. refl) k,
  )

  pub worker_finished-Keyed :
      (id : ℕ) (class : WorkClass) (now : ℕ) (st st' : RegistryState V)
      (snapshot : Option (JobSnapshot V))
      → worker_finished id class now st ≡ value (st', snapshot)
      → Keyed st.entries
      → Keyed st'.entries
  unfolding worker_finished
  worker_finished-Keyed id class now st st' snapshot h k = ground (
    arith,
    adjust-Keyed id (conclude true now) st.entries (λ s. refl) k,
    adjust-Keyed id (conclude false now) st.entries (λ s. refl) k,
  )

  pub prune-Keyed :
      (retained : ℕ) (deleted : Bool) (st : RegistryState V)
      → Keyed st.entries
      → Keyed (prune retained deleted st).entries
  unfolding prune
  prune-Keyed retained deleted st k =
      ground (arith, remove_all-Keyed (expired retained st.entries) st.entries k)

  settle-Keyed :
      (allowed : Bool) (pending : PendingJob) (entry : JobSnapshot V) (now : ℕ)
      (picked : RegistryState V)
      → Keyed picked.entries
      → Keyed (settle allowed pending entry now picked).0.entries
  settle-Keyed allowed pending entry now picked k = ground (
    arith,
    adjust-Keyed pending.id (begin now) picked.entries (λ s. refl) k,
    adjust-Keyed pending.id (revoke now) picked.entries (λ s. refl) k,
  )

  pub Round-Keyed :
      {limits : JobQueueLimits} {authorizer : Option (String → Permission → Bool)} {now : ℕ}
      {st st' : RegistryState V} {d : Dispatch V}
      → Round authorizer now limits st st' d
      → Keyed st.entries
      → Keyed st'.entries
  Round-Keyed {authorizer} {now} (round pending picked entry p g e) k =
      rw (ap (λ (x : RegistryState V × Dispatch V). x.0) e) (
        settle-Keyed (authorized authorizer pending entry) pending entry now picked
          (rw (Picked-entries p) k))
