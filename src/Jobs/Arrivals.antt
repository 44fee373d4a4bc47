-- ===== src/Jobs/Arrivals.antt =====
-- A job that comes in (src/server/jobs.rs): a reservation is granted under the limits, and the job
-- that is put into a queue takes its place in every count.
use base_search.Prelude.{
  ℕ, ◌+◌, ◌≤◌, ◌≡◌, refl, ◌||◌, inl, inr, Bool-cases, Option-cases, String, true, not, Option, some,
  List, [], ◌∷◌, ◌++◌, if◌then◌else◌, arith, nat_eq, string_eq, ◌==◌, length-append,
  count_if-append, ok,
}
use base_search.Prelude.Dict.{
  get, insert, tally, tally-insert-le, tally-remove-le, tally-remove-lt, length-insert-le,
  length-remove-lt, any_value-tally, remove,
}
use base_search.Auth.Roles.{Identity}
use base_search.Jobs.Types.{
  JobKind, kind_eq, is_single_flight, JobVisibility, JobSnapshot, JobQueueLimits,
}
use base_search.Jobs.State.{
  PendingJob, ReservedJob, JobAdmission, RegistryState, work_class, active_kind, reserved_kind,
  reserved_by, queued_by, pending_for_user, workspace_pending,
}
use base_search.Jobs.Admission.{reserve, enqueue, new_snapshot, push_back}
use text.Mathlib.TextEquality.{eq_iff}
use base_search.Jobs.Load.{NotMore, flights, spent-NotMore}

-- The reservation that a job spends counted for its user and for its kind.
spent-user :
    (user : String) (id : ℕ) (owner : String) (m : List (ℕ × ReservedJob)) (r : ReservedJob)
    → get id m ≡ some r
    → (r.owner_user_id == owner) ≡ true
    → tally (reserved_by user) (remove id m) + (if owner == user then 1 else 0)
      ≤ tally (reserved_by user) m
spent-user user id owner m r g h = ground (
  arith,
  eq_iff r.owner_user_id owner,
  eq_iff r.owner_user_id user,
  eq_iff owner user,
  tally-remove-le (reserved_by user) id m,
  tally-remove-lt (reserved_by user) id r m g,
)

spent-kind :
    (kind : JobKind) (id : ℕ) (k : JobKind) (m : List (ℕ × ReservedJob)) (r : ReservedJob)
    → get id m ≡ some r
    → kind_eq r.kind k ≡ true
    → tally (reserved_kind kind) (remove id m) + (if kind_eq k kind then 1 else 0)
      ≤ tally (reserved_kind kind) m
spent-kind kind id k m r g h = ground (
  arith,
  tally-remove-le (reserved_kind kind) id m,
  tally-remove-lt (reserved_kind kind) id r m g,
)

module _ {V : Type 0} (user : String) (kind : JobKind) where
  push_back-NotMore :
      (id : ℕ) (admission : JobAdmission) (snapshot : JobSnapshot V) (st : RegistryState V)
      (r : ReservedJob)
      → snapshot.kind ≡ admission.kind
      → get admission.id st.reservations ≡ some r
      → kind_eq r.kind admission.kind ≡ true
      → (r.owner_user_id == admission.owner_user_id) ≡ true
      → NotMore user kind st (
          push_back
            (record {
              id = id;
              owner_user_id = admission.owner_user_id;
              class = work_class admission.kind;
            })
            (work_class admission.kind)
            (record st {
              reservations = remove admission.id st.reservations;
              entries = insert id snapshot st.entries;
            }))
  push_back-NotMore id admission snapshot st r e g k u =
      let pending : PendingJob = record {
        id = id;
        owner_user_id = admission.owner_user_id;
        class = work_class admission.kind;
      } in
      ground (
        arith,
        length-remove-lt admission.id st.reservations,
        spent-user user admission.id admission.owner_user_id st.reservations r g u,
        spent-kind kind admission.id admission.kind st.reservations r g k,
        tally-insert-le (active_kind kind) id snapshot st.entries,
        length-append st.write_queue (pending ∷ []),
        length-append st.read_queue (pending ∷ []),
        count_if-append (queued_by user) st.write_queue (pending ∷ []),
        count_if-append (queued_by user) st.read_queue (pending ∷ []),
        count_if-append (queued_by user) st.write_queue st.read_queue,
        count_if-append (queued_by user) (st.write_queue ++ pending ∷ []) st.read_queue,
        count_if-append (queued_by user) st.write_queue (st.read_queue ++ pending ∷ []),
      )

  -- The job takes the place of its reservation.
  pub enqueue-NotMore :
      (id : ℕ) (admission : JobAdmission) (title : String) (visibility : JobVisibility)
      (input : Option V) (now : ℕ) (st : RegistryState V)
      → NotMore user kind st (enqueue id admission title visibility input now st).0
  unfolding enqueue
  enqueue-NotMore id admission title visibility input now st =
      elim (Option-cases (get admission.id st.reservations)) [
        | inl e ↦ rw (e, enqueue) (spent-NotMore user kind admission st)
        | inr (r, e) ↦
            elim (Bool-cases (
              not (kind_eq r.kind admission.kind)
              || not (r.owner_user_id == admission.owner_user_id))) [
                | inl other ↦ rw (e, enqueue, other) (spent-NotMore user kind admission st)
                | inr own ↦
                    rw (e, enqueue, own)
                      (push_back-NotMore id admission
                        (new_snapshot id admission title visibility input now) st r refl e
                        (ground arith) (ground arith))
              ]
      ]

  -- A reservation is granted under the limits only.
  pub reserve-bounded :
      (limits : JobQueueLimits) (identity : Identity) (rid : ℕ) (k : JobKind)
      (st st' : RegistryState V) (admission : JobAdmission)
      → reserve limits identity k rid st ≡ ok (st', admission)
      → (workspace_pending st' ≤ limits.workspace_pending)
        × ((pending_for_user st user ≤ limits.per_user_pending)
            → pending_for_user st' user ≤ limits.per_user_pending)
        × (is_single_flight kind ≡ true → flights kind st ≤ 1 → flights kind st' ≤ 1)
  unfolding reserve
  reserve-bounded limits identity rid k st st' admission h =
      let r : ReservedJob = record { owner_user_id = identity.user_id; kind = k } in
      ground (
        arith,
        length-insert-le rid r st.reservations,
        eq_iff identity.user_id user,
        any_value-tally (active_kind k) st.entries,
        any_value-tally (reserved_kind k) st.reservations,
        tally-insert-le (reserved_by user) rid r st.reservations,
        tally-insert-le (reserved_kind kind) rid r st.reservations,
      )
