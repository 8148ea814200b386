-- ===== src/Workflow/Action.antt =====
-- `_prepare_action` and `run_action`.
use notmy_fault.Prelude.{
  ℕ, String, Option, none, some, Bool, true, false, not, ◌&&◌, leb, ◌==◌, if◌then◌else◌,
}
use notmy_fault.Prelude.Int.{pos, negsuc}
use notmy_fault.Workflow.Plan.{Number, unreadable, number, Call, Host, World}
use notmy_fault.Workflow.State.{Exec, error, emit, look, begin_action, end_action, count_fail}
use notmy_fault.Workflow.Attempts.{
  Result, failure, setting, max_retries, max_wait, record_failure, attempts,
}

-- What the checks before an action come to: its parameters and whether it has a timeout, or a
-- refusal, which some checks count and report.
pub data Prepared (V : Type 0) : Type 0 where
  ready : V → Bool → Prepared V
  reported silent : Prepared V

abbrev pub or_text : Option String → String → String
or_text none d = d
or_text (some id) d = if id == "" then d else id

-- Whether an action with this setting has a timeout; `none` where the setting is refused.
unfoldable pub timeout_of : Bool → Option Number → Option Bool
timeout_of cancellable none = some false
timeout_of cancellable (some unreadable) = none
timeout_of cancellable (some (number (negsuc n))) = none
timeout_of cancellable (some (number (pos n))) =
    if cancellable && leb 1 n && leb n 86_400 then some true else none

module _ {V : Type 0} where
  -- The event's step: `action.get("binding_id") or action_type`.
  unfoldable pub event_step : Call V → String
  event_step c = or_text c.binding_id c.kind

  unfoldable pub check_timeout : Host V → Call V → V → Option Bool → Prepared V
  check_timeout h c params none = silent
  check_timeout h c params (some has_timeout) =
      if h.is_valid c.kind params then ready params has_timeout else reported

  unfoldable pub check_params : Host V → Call V → Option V → Prepared V
  check_params h c none = reported
  check_params h c (some params) =
      if not (h.is_object params)
      then silent
      else if not (h.is_known c.kind)
      then silent
      else check_timeout h c params (timeout_of (h.is_cancellable c.kind) c.timeout_seconds)

  -- `_prepare_action`, with `_authorize_action_parameters` first
  unfoldable pub prepare : Host V → Call V → Exec V → Prepared V
  prepare h c s =
      if h.is_unsafe c.kind c.params
      then reported
      else check_params h c (h.resolve c.params s.steps s.variables)

  -- The attempts, where both settings can be read.
  unfoldable pub run_settings :
      World V → Call V → Bool → Option ℕ → Option ℕ → Exec V → Result V × Exec V
  run_settings w c has_timeout (some retries) (some delay) s =
      attempts w (event_step c) has_timeout c.is_exponential delay retries 0 s
  run_settings w c has_timeout _ _ s = record_failure (event_step c) s

  -- With the count of active actions raised for as long as the attempts take.
  unfoldable pub run_counted : World V → Call V → Bool → Exec V → Result V × Exec V
  run_counted w c has_timeout s =
      let r =
        run_settings w c has_timeout (setting max_retries c.retry)
          (setting max_wait c.retry_delay_seconds) (begin_action s) in
      (r.0, end_action r.1)

  -- While the engine shuts down no action is run.
  unfoldable pub unless_shut : Bool → Exec V → Result V × Exec V → Result V × Exec V
  unless_shut true t r = (failure, t)
  unless_shut false t r = r

  -- The second test of the shutdown, under the lock.
  unfoldable pub run_prepared : World V → Call V → Prepared V → Exec V → Result V × Exec V
  run_prepared w c silent s = (failure, s)
  run_prepared w c reported s = (failure, emit (error (event_step c)) (count_fail s))
  run_prepared w c (ready params has_timeout) s =
      let t = look w s in unless_shut t.shutting_down t (run_counted w c has_timeout t)

  -- `run_action`
  unfoldable pub run_action : Host V → World V → Call V → Exec V → Result V × Exec V
  run_action h w c s =
      let t = look w s in unless_shut t.shutting_down t (run_prepared w c (prepare h c t) t)
