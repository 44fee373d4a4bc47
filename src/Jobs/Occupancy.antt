-- ===== src/Jobs/Occupancy.antt =====
-- The registry's counters of active jobs on every schedule of its threads (src/server/jobs.rs).
use base_search.Prelude.{◌≤◌, ◌≡◌, ◌↔◌, true, arith}
use base_search.Jobs.Types.{JobQueueLimits, WorkClass}
use base_search.Jobs.State.{start, reject}
use base_search.Jobs.World.{
  World, Step, Reach, reserved, dropped, enqueued, preview_acquired, preview_released, cancelled,
  pruned, started, refused, slot_freed, called, committed, finished, here, next, holders, new_world,
}
use base_search.Jobs.Schedules.{Reach-limits}
use base_search.Jobs.Slots.{
  Slots, SameSlots-Slots, acquire_preview-SameSlots, call-SameSlots, cancel-SameSlots,
  dispatch_next-TakesSlot, drop_admission-SameSlots, enqueue-SameSlots, enter-SameSlots,
  finished-Slots, prune-SameSlots, refused-Slots, release_preview-SameSlots, reserve-SameSlots,
  slot_freed-Slots, started-Slots, worker_finished-frees,
}

module _ {V : Type 0} where
  Step-Slots : {w u : World V} → Step w u → Slots w → Slots u
  Step-Slots {w} (reserved identity kind rid st admission h) v =
      SameSlots-Slots w st _ (reserve-SameSlots w.limits identity kind rid w.state st admission h) v
  Step-Slots {w} (dropped admission) v =
      SameSlots-Slots w _ _ (drop_admission-SameSlots admission w.state) v
  Step-Slots {w} (enqueued admission title visibility input now h) v =
      SameSlots-Slots w _ _
        (enqueue-SameSlots w.next_id admission title visibility input now w.state) v
  Step-Slots {w} (preview_acquired st h) v =
      SameSlots-Slots w st _ (acquire_preview-SameSlots w.limits w.state st h) v
  Step-Slots {w} preview_released v = SameSlots-Slots w _ _ (release_preview-SameSlots w.state) v
  Step-Slots {w} (cancelled id now) v = SameSlots-Slots w _ _ (cancel-SameSlots id now w.state) v
  Step-Slots {w} (pruned retained deleted) v =
      SameSlots-Slots w _ _ (prune-SameSlots retained deleted w.state) v
  Step-Slots {w} (started authorizer now st pending snapshot h) v =
      started-Slots w st pending
        (dispatch_next-TakesSlot w authorizer now st (start pending snapshot) h v) v
  Step-Slots {w} (refused authorizer now st snapshot class h) v =
      refused-Slots w st class
        (dispatch_next-TakesSlot w authorizer now st (reject snapshot class) h v) v
  Step-Slots {w} (slot_freed before after class e) v = slot_freed-Slots w before after class e v
  Step-Slots {w} (called id handle_call now h) v =
      SameSlots-Slots w _ _ (call-SameSlots id handle_call now w.state) v
  Step-Slots {w} (committed id phase now h) v =
      SameSlots-Slots w _ _ (enter-SameSlots id phase now w.state) v
  Step-Slots {w} (finished before after worker now st snapshot e h) v =
      finished-Slots w before after worker st e
        (worker_finished-frees worker.id worker.class now w.state st snapshot h) v

  Reach-Slots : {w u : World V} → Reach w u → Slots w → Slots u
  Reach-Slots here v = v
  Reach-Slots (next r s) v = Step-Slots s (Reach-Slots r v)

  new_world-Slots : (limits : JobQueueLimits) → Slots (new_world {V = V} limits)
  new_world-Slots limits = ground arith

  -- On every schedule of a new registry at most one thread holds a write slot, at most
  -- `concurrent_reads` hold a read slot, and the registry's counters are those numbers.
  pub holders_bounded :
      (limits : JobQueueLimits) (w : World V)
      → Reach (new_world limits) w
      → (holders WorkClass.write w ≤ 1)
        × (holders WorkClass.read w ≤ limits.concurrent_reads)
        × (w.state.active_reads ≡ holders WorkClass.read w)
        × ((w.state.active_write ≡ true) ↔ (holders WorkClass.write w ≡ 1))
  holders_bounded limits w r =
      let v = Reach-Slots r (new_world-Slots limits) in
      let a = v.write_slot in
      let b = v.read_slot in let c = v.reads_capped in let l = Reach-limits r in ground arith
