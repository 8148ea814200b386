-- ===== src/Workflow/State.antt =====
-- The state of an executor during one run, and its updates.
use notmy_fault.Prelude.{
  ℕ, ◌+◌, ◌-◌, String, Option, none, some, Bool, true, false, List, [], ◌∷◌, ◌++◌, ◌==◌, ◌&&◌, ◌||◌,
  if◌then◌else◌,
}
use notmy_fault.Prelude.Dict.{Dict, put}
use notmy_fault.Prelude.Texts.{add, discard}
use notmy_fault.Workflow.Plan.{Step, Reason, shutdown, by_user, timeout, World}

-- How a run ends.
pub data End : Type 0 where
  run_succeeded run_failed run_cancelled : End

-- The run events of the executor, with the step or with what they report of the run.
pub data Event : Type 0 where
  action_executed action_skipped action_cancelled action_timed_out error : String → Event
  test_assertions_completed : ℕ → ℕ → Event
  workflow_failed : Event
  workflow_completed : End → Event

pub record Exec (V : Type 0) : Type 0 where
  pub steps : Dict (Step V)
  pub variables : Dict V
  pub cancel_set : Bool
  pub shutting_down : Bool
  pub finished : Bool
  pub cancel_events : List String
  pub active_actions : ℕ
  pub action_ok : ℕ
  pub action_fail : ℕ
  pub events : List Event
  pub calls : ℕ
  pub waits : List ℕ
  pub looks : ℕ

module _ {V : Type 0} where
  unfoldable pub emit : Event → Exec V → Exec V
  emit e s = record s { events = s.events ++ e ∷ [] }

  -- One look at the events that other threads set; what was set stays set.
  unfoldable pub look : World V → Exec V → Exec V
  look w s = record s {
    cancel_set = s.cancel_set || w.cancels s.looks;
    shutting_down = s.shutting_down || w.shuts s.looks;
    looks = s.looks + 1;
  }

  -- `ActionCancellation.reason` after that look.
  unfoldable pub reason : World V → Bool → Exec V → Option Reason
  reason w has_timeout s =
      if s.shutting_down
      then some shutdown
      else if s.cancel_set
      then some by_user
      else if has_timeout && w.overdue s.looks
      then some timeout
      else none

  unfoldable pub called : Exec V → Exec V
  called s = record s { calls = s.calls + 1 }

  unfoldable pub begin_action : Exec V → Exec V
  begin_action s = record s { active_actions = s.active_actions + 1 }

  unfoldable pub end_action : Exec V → Exec V
  end_action s = record s { active_actions = s.active_actions - 1 }

  unfoldable pub count_ok : Exec V → Exec V
  count_ok s = record s { action_ok = s.action_ok + 1 }

  unfoldable pub count_fail : Exec V → Exec V
  count_fail s = record s { action_fail = s.action_fail + 1 }

  unfoldable pub set_step : String → Step V → Exec V → Exec V
  set_step id step s = record s { steps = put s.steps id step }

  -- run_cancel_event.set()
  unfoldable pub cancel : Exec V → Exec V
  cancel s = record s { cancel_set = true }

  unfoldable pub finish_if : Bool → String → Exec V → Bool × Exec V
  finish_if true run s = (false, s)
  finish_if false run s =
      (true, record s { finished = true; cancel_events = discard s.cancel_events run })

  -- `_finish_run`: true for the first caller only.
  unfoldable pub finish_run : String → Exec V → Bool × Exec V
  finish_run run s = finish_if s.finished run s

  -- `_ensure_run_cancel_event`; a run without an id is not registered.
  unfoldable pub register : String → Exec V → Exec V
  register run s = if run == "" then s else record s { cancel_events = add s.cancel_events run }
