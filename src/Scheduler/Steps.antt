-- ===== src/Scheduler/Steps.antt =====
-- The scheduler over time: each call takes the lock, so a history is a sequence of whole calls.
-- A world answers for one call; the limits are those of the constructor and stay.
use notmy_fault.Prelude.{ℕ, String, ◌≡◌, Option, Bool}
use notmy_fault.Scheduler.Config.{Rule}
use notmy_fault.Scheduler.State.{Context, World, Sched, start}
use notmy_fault.Scheduler.Dispatch.{Run, done}
use notmy_fault.Scheduler.Submit
use notmy_fault.Scheduler.Operations.{on_run_event, drop_rule, shutdown, retire, finish}

pub data Op : Type 0 where
  submit : String → Rule → String → Context → Op
  run_event : String → Option String → Op
  drop : String → Op
  close : Op
  -- A worker's `execute_fn` has returned, or raised, and the run is retired.
  run_ended : Bool → ℕ → Op
  -- The `finally` block of a worker.
  worker_ended : ℕ → Op

unfoldable pub perform : World → Op → Sched → Run
perform w (submit key rule name context) s = (Submit.submit w key rule name context s).1
perform w (run_event kind run) s = on_run_event w kind run s
perform w (drop key) s = (done, (drop_rule key s).1)
perform w close s = (done, shutdown s)
perform w (run_ended returned i) s = retire w returned i s
perform w (worker_ended i) s = finish w i s

-- The states that calls lead to.
pub data Reach (max_workers : ℕ) (max_pending_runs : Option ℕ) : Sched → Type 0 where
  begin : Reach max_workers max_pending_runs start
  next :
      {s : Sched} (w : World) (op : Op)
      → w.max_workers ≡ max_workers
      → w.max_pending_runs ≡ max_pending_runs
      → Reach max_workers max_pending_runs s
      → Reach max_workers max_pending_runs (perform w op s).1
