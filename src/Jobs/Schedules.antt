-- ===== src/Jobs/Schedules.antt =====
-- What holds of the registry on every schedule of its threads (src/server/jobs.rs).
use base_search.Prelude.{
  ℕ, ◌+◌, ◌≤◌, ◌≡◌, refl, String, Bool, Option, some, List, arith, subst, sym, ok, panic, ◌≢◌, ◌↔◌,
  ◌∙◌, ap, nat_eq, inl, inr, Option-cases,
}
use base_search.Prelude.Dict.{get}
use base_search.Auth.Roles.{Permission, Identity}
use base_search.Jobs.Types.{JobKind, queued, running, JobQueueLimits, WorkClass}
use base_search.Jobs.State.{JobAdmission, RegistryState, start, reject}
use base_search.Jobs.Admission.{reserve, drop_admission, acquire_preview, release_preview}
use base_search.Jobs.Queue.{dispatch_next, pick}
use base_search.Jobs.Rounds.{dispatch_next-Round, pick-Picked, Picked-entries}
use base_search.Jobs.Keys.{
  Keyed, enqueue-Keyed, cancel-Keyed, call-Keyed, enter-Keyed, worker_finished-Keyed, prune-Keyed,
  Round-Keyed,
}
use base_search.Jobs.Places.{
  Place, enqueue-Place, cancel-Place, call-Place, enter-Place, finished-Place, Round-Place,
  prune-Place, Picked-waiting,
}
use base_search.Jobs.World.{
  World, Worker, Step, Reach, reserved, dropped, enqueued, preview_acquired, preview_released,
  cancelled, pruned, started, refused, slot_freed, called, committed, finished, here, next,
  new_world, status_of, waiting, working,
}

module _ {V : Type 0} where
  -- A section that leaves the map and the queues as they are.
  record SamePlaces (st st' : RegistryState V) : Type 0 where
    same_entries : st'.entries ≡ st.entries
    same_writes : st'.write_queue ≡ st.write_queue
    same_reads : st'.read_queue ≡ st.read_queue

  SamePlaces-Place :
      (i n : ℕ) (ws : List Worker) (st st' : RegistryState V)
      → SamePlaces st st'
      → Place i n ws st
      → Place i n ws st'
  SamePlaces-Place i n ws st st' s p = ground arith

  reserve-SamePlaces :
      (limits : JobQueueLimits) (identity : Identity) (kind : JobKind) (rid : ℕ)
      (st st' : RegistryState V) (admission : JobAdmission)
      → reserve limits identity kind rid st ≡ ok (st', admission)
      → SamePlaces st st'
  unfolding reserve
  reserve-SamePlaces limits identity kind rid st st' admission h = ground arith

  acquire_preview-SamePlaces :
      (limits : JobQueueLimits) (st st' : RegistryState V)
      → acquire_preview limits st ≡ some st'
      → SamePlaces st st' × (st'.reservations ≡ st.reservations)
  unfolding acquire_preview
  acquire_preview-SamePlaces limits st st' h = ground arith

  -- Each job is in its place, once in the map.
  pub record Settled (w : World V) : Type 0 where
    pub keyed : Keyed w.state.entries
    pub places : (i : ℕ) → Place i w.next_id w.workers w.state

  SamePlaces-Settled :
      (w : World V) (st : RegistryState V)
      → SamePlaces w.state st
      → Settled w
      → Settled (record w { state = st })
  SamePlaces-Settled w st s v = record {
    keyed = subst Keyed (sym s.same_entries) v.keyed;
    places = λ i. SamePlaces-Place i w.next_id w.workers w.state st s (v.places i);
  }

  pub Step-Settled : {w u : World V} → Step w u → Settled w → Settled u
  Step-Settled {w} (reserved identity kind rid st admission h) v =
      SamePlaces-Settled w st (reserve-SamePlaces w.limits identity kind rid w.state st admission h)
        v
  Step-Settled {w} (dropped admission) v =
      SamePlaces-Settled w _
        (unfold drop_admission in
          record { same_entries = refl; same_writes = refl; same_reads = refl })
        v
  Step-Settled {w} (enqueued admission title visibility input now h) v = record {
    keyed = enqueue-Keyed w.next_id admission title visibility input now w.state v.keyed;
    places = λ i.
        enqueue-Place i w.next_id w.workers admission title visibility input now w.state
          (v.places i);
  }
  Step-Settled {w} (preview_acquired st h) v =
      SamePlaces-Settled w st (acquire_preview-SamePlaces w.limits w.state st h).0 v
  Step-Settled {w} preview_released v =
      SamePlaces-Settled w _
        (unfold release_preview in
          record { same_entries = refl; same_writes = refl; same_reads = refl })
        v
  Step-Settled {w} (cancelled id now) v = record {
    keyed = cancel-Keyed id now w.state v.keyed;
    places = λ i. cancel-Place i w.next_id w.workers id now w.state (v.places i);
  }
  Step-Settled {w} (pruned retained deleted) v = record {
    keyed = prune-Keyed retained deleted w.state v.keyed;
    places = λ i. prune-Place i w.next_id w.workers retained deleted w.state v.keyed (v.places i);
  }
  Step-Settled {w} (started authorizer now st pending snapshot h) v =
      let r = dispatch_next-Round w.limits authorizer now w.state st (start pending snapshot) h in
      record {
        keyed = Round-Keyed r v.keyed;
        places = λ i. Round-Place i w.next_id w.workers r (v.places i);
      }
  Step-Settled {w} (refused authorizer now st snapshot class h) v =
      let r = dispatch_next-Round w.limits authorizer now w.state st (reject snapshot class) h in
      record {
        keyed = Round-Keyed r v.keyed;
        places = λ i. Round-Place i w.next_id w.workers r (v.places i);
      }
  Step-Settled {w} (slot_freed before after WorkClass.read e) v = record {
    keyed = v.keyed;
    places = λ i.
        SamePlaces-Place i w.next_id w.workers w.state _
          (record { same_entries = refl; same_writes = refl; same_reads = refl }) (v.places i);
  }
  Step-Settled {w} (slot_freed before after WorkClass.write e) v = record {
    keyed = v.keyed;
    places = λ i.
        SamePlaces-Place i w.next_id w.workers w.state _
          (record { same_entries = refl; same_writes = refl; same_reads = refl }) (v.places i);
  }
  Step-Settled {w} (called id handle_call now h) v = record {
    keyed = call-Keyed id handle_call now w.state v.keyed;
    places = λ i. call-Place i w.next_id w.workers id handle_call now w.state h (v.places i);
  }
  Step-Settled {w} (committed id phase now h) v = record {
    keyed = enter-Keyed id phase now w.state v.keyed;
    places = λ i. enter-Place i w.next_id w.workers id phase now w.state h (v.places i);
  }
  Step-Settled {w} (finished before after worker now st snapshot e h) v = record {
    keyed = worker_finished-Keyed worker.id worker.class now w.state st snapshot h v.keyed;
    places = λ i.
        finished-Place i w.next_id before after worker now w.state st snapshot h
          (subst (λ ws. Place i w.next_id ws w.state) e (v.places i));
  }

  pub Reach-Settled : {w u : World V} → Reach w u → Settled w → Settled u
  Reach-Settled here v = v
  Reach-Settled (next r s) v = Step-Settled s (Reach-Settled r v)

  new_world-Settled : (limits : JobQueueLimits) → Settled (new_world {V = V} limits)
  new_world-Settled limits = record { keyed = tt; places = λ i. ground arith }

  pub reached-Settled :
      (limits : JobQueueLimits) (w : World V) → Reach (new_world limits) w → Settled w
  reached-Settled limits w r = Reach-Settled r (new_world-Settled limits)

  Step-limits : {w u : World V} → Step w u → u.limits ≡ w.limits
  Step-limits (reserved _ _ _ _ _ _) = refl
  Step-limits s = refl

  pub Reach-limits : {w u : World V} → Reach w u → u.limits ≡ w.limits
  Reach-limits here = refl
  Reach-limits (next r s) = Step-limits s ∙ Reach-limits r

  -- On every schedule of a new registry: a job is shown as queued exactly when it waits in one of
  -- the queues, once; a job shown as running has exactly one thread; and no job both waits and has
  -- a thread, or twice either.
  pub job_in_place :
      (limits : JobQueueLimits) (w : World V) (i : ℕ)
      → Reach (new_world limits) w
      → ((status_of i w.state ≡ some queued) ↔ (waiting i w.state ≡ 1))
        × (status_of i w.state ≡ some running → working i w.workers ≡ 1)
        × (waiting i w.state + working i w.workers ≤ 1)
  job_in_place limits w i r =
      let p = (reached-Settled limits w r).places i in
      ((p.queued_waits, λ h. p.waits_queued (omega arith)), p.running_works, p.once)

  pub Settled-no_panic :
      (w : World V) (authorizer : Option (String → Permission → Bool)) (now : ℕ)
      → Settled w
      → dispatch_next w.limits authorizer now w.state ≢ panic
  unfolding dispatch_next
  Settled-no_panic w authorizer now v h = elim (Option-cases (pick w.limits w.state)) [
    | inl e ↦ ground arith
    | inr ((p, picked), e) ↦
        let k = pick-Picked w.limits w.state p picked e in
        ground (
          arith,
          v.places p.id,
          Picked-waiting p.id w.limits w.state picked p k,
          ap (get p.id) (Picked-entries k),
        )
  ]

  -- On every schedule of a new registry, a round of the dispatcher does not panic: the job that it
  -- takes from a queue still has its entry.
  dispatch_next-no_panic :
      (limits : JobQueueLimits) (w : World V) (authorizer : Option (String → Permission → Bool))
      (now : ℕ)
      → Reach (new_world limits) w
      → dispatch_next w.limits authorizer now w.state ≢ panic
  dispatch_next-no_panic limits w authorizer now r =
      Settled-no_panic w authorizer now (reached-Settled limits w r)
