-- ===== src/Jobs/Dispatcher.antt =====
-- src/server/jobs.rs: the loop of `dispatch_available`, run by one thread with nothing between its
-- sections. The fuel bounds its rounds; `none` is a panic or fuel that ran out. The authorizer's
-- answers, the clock and whether the store deletes rows are arguments, the same in each round.
use base_search.Prelude.{ℕ, zero, suc, String, Bool, Option, none, some, ◌∷◌, panic, value}
use base_search.Auth.Roles.{Permission}
use base_search.Jobs.State.{RegistryState, Dispatch, start, reject}
use base_search.Jobs.Queue.{dispatch_next, free_slot}
use base_search.Jobs.Retention.{job_history_limit, prune}
use base_search.Jobs.World.{World, worker_of}

module _ {V : Type 0} where
  -- What the loop does with the outcome of a round.
  abbrev pub after_round : Bool → World V → RegistryState V → Dispatch V → World V
  after_round deleted w st (start pending snapshot) = record w {
    state = st;
    workers = worker_of pending ∷ w.workers;
  }
  after_round deleted w st (reject snapshot class) = record w {
    state = prune job_history_limit deleted (free_slot class st);
  }

  unfoldable pub dispatch_available :
      ℕ → Option (String → Permission → Bool) → ℕ → Bool → World V → Option (World V)
  dispatch_available zero authorizer now deleted w = none
  dispatch_available (suc fuel) authorizer now deleted w =
      elim (dispatch_next w.limits authorizer now w.state) [
        | panic ↦ none
        | value none ↦ some w
        | value (some (st, d)) ↦
            dispatch_available fuel authorizer now deleted (after_round deleted w st d)
      ]
