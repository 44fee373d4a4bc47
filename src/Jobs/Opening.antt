-- ===== src/Jobs/Opening.antt =====
-- src/server/jobs.rs: `open_with_limits`, by which a registry starts from the jobs that its store
-- has kept. `load`'s rows and whether `upsert` fails are arguments, and so is the clock, which
-- shows one time throughout; the limits are the ones that the store has.
use base_search.Prelude.{
  ℕ, ◌+◌, ◌-◌, ◌^◌, ◌<◌, ◌≤◌, ◌≡◌, ◌≢◌, refl, max, String, Bool, true, false, Option, none, some,
  List, [], ◌∷◌, if◌then◌else◌, leb, arith, nat_eq, ◌==◌, Result, ok, err, Option-cases, Bool-cases,
  inl, inr, panic, ◌↔◌, subst,
}
use base_search.Prelude.Dict.{get, insert, get-insert}
use base_search.Auth.Roles.{Permission}
use base_search.Jobs.Types.{failed, queued, running, is_terminal, JobSnapshot, JobQueueLimits}
use base_search.Jobs.State.{interrupted_error}
use base_search.Jobs.Retention.{job_history_limit, prune}
use base_search.Jobs.Queue.{dispatch_next}
use base_search.Jobs.World.{World, Reach, pruned, new_world, status_of, waiting, working}
use base_search.Jobs.Keys.{Keyed, insert-Keyed}
use base_search.Jobs.Schedules.{Settled, Step-Settled, Reach-Settled, Settled-no_panic}

-- `highest_id.saturating_add(1).max(1)`.
abbrev pub first_id : ℕ → ℕ
first_id highest = max (if leb (2 ^ 64 - 1) highest then 2 ^ 64 - 1 else highest + 1) 1

module _ {V : Type 0} where
  -- What becomes of a job that was not finished when the process stopped.
  abbrev pub interrupt : ℕ → JobSnapshot V → JobSnapshot V
  interrupt now s = record s {
    status = failed;
    cancellable = false;
    error = some interrupted_error;
    updated_ms = max now s.updated_ms;
  }

  abbrev pub reconcile : ℕ → JobSnapshot V → JobSnapshot V
  reconcile now s = if is_terminal s.status then s else interrupt now s

  -- The loop over the store's rows, with the highest id and the entries so far.
  unfoldable pub load_all :
      (JobSnapshot V → Option String)
      → ℕ
      → List (JobSnapshot V)
      → ℕ
      → List (ℕ × JobSnapshot V)
      → Result (ℕ × List (ℕ × JobSnapshot V)) String
  load_all upsert now [] highest entries = ok (highest, entries)
  load_all upsert now (s ∷ rows) highest entries =
      let rest =
        load_all upsert now rows (max highest s.id) (insert s.id (reconcile now s) entries) in
      if is_terminal s.status
      then rest
      else elim (upsert (interrupt now s)) [ none ↦ rest | some e ↦ err e ]

  abbrev loaded_world : JobQueueLimits → ℕ → List (ℕ × JobSnapshot V) → World V
  loaded_world limits highest entries =
      let w = new_world limits in
      let st = w.state in
      record w { state = record st { entries = entries }; next_id = first_id highest }

  -- The registry when it is handed out: the oldest finished jobs are pruned.
  abbrev pub opened : JobQueueLimits → Bool → ℕ → List (ℕ × JobSnapshot V) → World V
  opened limits deleted highest entries =
      let w = loaded_world limits highest entries in
      record w { state = prune job_history_limit deleted w.state }

  -- Every entry is finished, stands under its id, and has an id up to the highest.
  record IsLoaded (highest : ℕ) (entries : List (ℕ × JobSnapshot V)) : Type 0 where
    pub keyed : Keyed entries
    pub finished :
        (i : ℕ) (s : JobSnapshot V) → get i entries ≡ some s → is_terminal s.status ≡ true
    pub below : (i : ℕ) → highest < i → get i entries ≡ none

  insert-IsLoaded :
      (now highest : ℕ) (s : JobSnapshot V) (entries : List (ℕ × JobSnapshot V))
      → IsLoaded highest entries
      → IsLoaded (max highest s.id) (insert s.id (reconcile now s) entries)
  insert-IsLoaded now highest s entries v =
      let r = reconcile now s in
      record {
        keyed = insert-Keyed s.id r entries (ground arith) v.keyed;
        finished = λ i x g. elim (Bool-cases (s.id == i)) [
          | inl b ↦ ground (arith, get-insert s.id i r entries)
          | inr b ↦ v.finished i x (ground (arith, get-insert s.id i r entries))
        ];
        below = λ i h. ground (arith, get-insert s.id i r entries, v.below i);
      }

  load_all-IsLoaded :
      (upsert : JobSnapshot V → Option String) (now : ℕ) (rows : List (JobSnapshot V)) (highest : ℕ)
      (entries : List (ℕ × JobSnapshot V)) (h : ℕ) (m : List (ℕ × JobSnapshot V))
      → IsLoaded highest entries
      → load_all upsert now rows highest entries ≡ ok (h, m)
      → IsLoaded h m
  unfolding load_all
  load_all-IsLoaded upsert now [] highest entries h m v e =
      let a : highest ≡ h = ground arith in
      let b : entries ≡ m = ground arith in
      subst (λ x. IsLoaded x m) a (subst (λ x. IsLoaded highest x) b v)
  load_all-IsLoaded upsert now (s ∷ rows) highest entries h m v e =
      load_all-IsLoaded upsert now rows (max highest s.id) (insert s.id (reconcile now s) entries) h
        m (insert-IsLoaded now highest s entries v) (ground arith)

  loaded_world-Settled :
      (limits : JobQueueLimits) (highest : ℕ) (entries : List (ℕ × JobSnapshot V))
      → highest + 1 < 2 ^ 64
      → IsLoaded highest entries
      → Settled (loaded_world limits highest entries)
  loaded_world-Settled limits highest entries b v = record {
    keyed = v.keyed;
    places = λ i. elim (Option-cases (get i entries)) [
      | inl g ↦ ground arith
      | inr (s, g) ↦ ground (arith, v.finished i s g, v.below i)
    ];
  }

  -- A registry that is opened on any jobs that a store has kept, as long as ids are left: on every
  -- schedule from there, a job is shown as queued exactly when it waits, once; a job shown as
  -- running has exactly one thread, so none of the kept jobs is; no job both waits and has a
  -- thread; and the dispatcher does not panic.
  pub opened_job_in_place :
      (limits : JobQueueLimits) (upsert : JobSnapshot V → Option String) (start_ms : ℕ)
      (rows : List (JobSnapshot V)) (deleted : Bool) (highest : ℕ)
      (entries : List (ℕ × JobSnapshot V)) (w : World V) (i : ℕ)
      (authorizer : Option (String → Permission → Bool)) (now : ℕ)
      → load_all upsert start_ms rows 0 [] ≡ ok (highest, entries)
      → highest + 1 < 2 ^ 64
      → Reach (opened limits deleted highest entries) w
      → ((status_of i w.state ≡ some queued) ↔ (waiting i w.state ≡ 1))
        × (status_of i w.state ≡ some running → working i w.workers ≡ 1)
        × (waiting i w.state + working i w.workers ≤ 1)
        × (dispatch_next w.limits authorizer now w.state ≢ panic)
  opened_job_in_place limits upsert start_ms rows deleted highest entries w i authorizer now e b r =
      let start : IsLoaded 0 [] = record {
        keyed = tt;
        finished = λ j s g. ground arith;
        below = λ j h. refl;
      } in
      let loaded = load_all-IsLoaded upsert start_ms rows 0 [] highest entries start e in
      let v = loaded_world-Settled limits highest entries b loaded in
      let s = Reach-Settled r (Step-Settled (pruned job_history_limit deleted) v) in
      let p = s.places i in
      (
        (p.queued_waits, λ h. p.waits_queued (omega arith)),
        p.running_works,
        p.once,
        Settled-no_panic w authorizer now s,
      )
