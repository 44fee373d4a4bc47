-- ===== src/Jobs/Handle.antt =====
-- src/server/jobs.rs: `mutate` and the methods of `JobHandle`, by which a worker reports.
use base_search.Prelude.{
  ℕ, String, Bool, true, false, ◌&&◌, ◌||◌, Option, none, some, if◌then◌else◌, ltb, nat_eq,
}
use base_search.Prelude.Dict.{get}
use base_search.Jobs.Types.{
  succeeded, failed, cancelled, is_terminal, zero_percent, full_percent, ratio, JobSnapshot,
}
use base_search.Jobs.State.{RegistryState, is_raised}
use base_search.Jobs.Queue.{write_entry}

-- `succeed` carries the flag that it has read before it takes the lock.
pub data HandleCall (V : Type 0) : Type 0 where
  set_phase : String → HandleCall V
  set_progress : String → ℕ → ℕ → HandleCall V
  set_result : V → HandleCall V
  set_message : String → HandleCall V
  succeed : Bool → Option V → HandleCall V
  fail : String → HandleCall V
  mark_cancelled : HandleCall V

module _ {V : Type 0} where
  abbrev pub success : JobSnapshot V → Option V → JobSnapshot V
  success s result =
      let p = s.progress in
      record s {
        status = succeeded;
        cancellable = false;
        result = result;
        progress = record p { percent = full_percent };
      }

  -- What each method does to the snapshot.
  unfoldable pub update : HandleCall V → JobSnapshot V → JobSnapshot V
  update (set_phase phase) s =
      let p = s.progress in record s { progress = record p { phase = phase } }
  update (set_progress phase done total) s = record s {
    progress = record {
      phase = phase;
      done = done;
      total = total;
      percent = if ltb 0 total then ratio done total else zero_percent;
    };
  }
  update (set_result result) s = record s { result = some result }
  update (set_message message) s = record s { message = some message }
  update (succeed cancel_requested result) s =
      if cancel_requested && s.cancel_requested
      then record s { status = cancelled; cancellable = false }
      else success s result
  update (fail error) s = record s { status = failed; cancellable = false; error = some error }
  update mark_cancelled s = record s {
    status = cancelled;
    cancellable = false;
    cancel_requested = true;
  }

  -- `mutate`: the new snapshot is the one to persist.
  unfoldable pub mutate :
      ℕ
      → (JobSnapshot V → JobSnapshot V)
      → ℕ
      → RegistryState V
      → RegistryState V × Option (JobSnapshot V)
  mutate id f now st =
      let written = write_entry id (λ s. record (f s) { updated_ms = now }) st in
      (written, get id written.entries)

  unfoldable pub call :
      ℕ → HandleCall V → ℕ → RegistryState V → RegistryState V × Option (JobSnapshot V)
  unfolding mutate
  call id handle_call now st = mutate id (update handle_call) now st

  abbrev pub stop : ℕ → JobSnapshot V → JobSnapshot V
  stop now s = record s {
    status = cancelled;
    cancellable = false;
    cancel_requested = true;
    updated_ms = now;
  }

  abbrev pub commit_to : String → ℕ → JobSnapshot V → JobSnapshot V
  commit_to phase now s =
      let p = s.progress in
      record s {
        cancellable = false;
        cancel_requested = false;
        non_cancellable_reason = some phase;
        progress = record p { phase = phase };
        updated_ms = now;
      }

  -- `enter_non_cancellable`: whether the worker may go on, and the snapshot to persist.
  unfoldable pub enter_non_cancellable :
      ℕ → String → ℕ → RegistryState V → RegistryState V × Bool × Option (JobSnapshot V)
  enter_non_cancellable id phase now st = elim (get id st.entries) [
    | none ↦ (st, false, none)
    | some entry ↦
        if is_terminal entry.status
        then (st, false, none)
        else if is_raised st id || entry.cancel_requested
        then (write_entry id (stop now) st, false, some (stop now entry))
        else (write_entry id (commit_to phase now) st, true, some (commit_to phase now entry))
  ]
