-- ===== src/Workflow/Sequence.antt =====
-- `_execute_action_sequence`, `_execute_assignment` and `_execute_if`.
use Prim.Native.String.{◌++◌ as ◌<>◌}
use notmy_fault.Prelude.{
  ℕ, ◌+◌, String, Option, none, some, Bool, true, false, not, ◌&&◌, ◌||◌, if◌then◌else◌,
}
use notmy_fault.Prelude.Dict.{put}
use notmy_fault.Workflow.Plan.{
  Status, ok, failed, cancelled, timed_out, skipped, timeout, Call, Assignment, Action, call,
  set_variable, branch, Actions, no_more, more, Host, World,
}
use notmy_fault.Workflow.State.{
  Exec, action_executed, action_skipped, error, emit, look, set_step, cancel,
}
use notmy_fault.Workflow.Attempts.{Result, done, failure, stopped}
use notmy_fault.Workflow.Action.{or_text, run_action}

module _ {V : Type 0} where
  unfoldable pub status_of : Result V → Status
  status_of (done v) = ok
  status_of failure = failed
  status_of (stopped timeout) = timed_out
  status_of (stopped r) = cancelled

  unfoldable pub result_of : Result V → Option V
  result_of (done v) = some v
  result_of _ = none

  abbrev pub is_done : Result V → Bool
  is_done (done v) = true
  is_done _ = false

  abbrev pub is_stopped : Result V → Bool
  is_stopped (stopped r) = true
  is_stopped _ = false

  -- A cancellation that is no timeout ends the whole run.
  unfoldable pub spread : Result V → Exec V → Exec V
  spread (stopped timeout) s = s
  spread (stopped r) s = cancel s
  spread _ s = s

  -- The record of a plugin call that was made.
  unfoldable pub keep_result : String → String → Result V × Exec V → Result V × Exec V
  keep_result id kind (r, s) = (
    r,
    set_step id (record { kind = kind; status = status_of r; result = result_of r }) (spread r s),
  )

  unfoldable pub call_if :
      Bool → Host V → World V → String → Call V → Exec V → Option (Result V) × Exec V
  call_if true h w id c s = let r = keep_result id c.kind (run_action h w c s) in (some r.0, r.1)
  call_if false h w id c s = (
    none,
    set_step id (record { kind = c.kind; status = skipped; result = none })
        (emit (action_skipped id) s),
  )

  -- A call whose data are missing is skipped, which counts as no failure; `none` stands for it.
  unfoldable pub run_call : Host V → World V → String → Call V → Exec V → Option (Result V) × Exec V
  run_call h w id c s = call_if (h.is_available c.params s.steps s.variables) h w id c s

  -- What the loop does with a step: it succeeded, or the failure actions are to be run first.
  abbrev pub is_ok : Option (Result V) → Bool
  is_ok none = true
  is_ok (some r) = is_done r

  abbrev pub wants_failure_actions : Option (Result V) → Bool
  wants_failure_actions none = false
  wants_failure_actions (some r) = not (is_done r) && not (is_stopped r)

  unfoldable pub store : Host V → String → Assignment V → Option V → Exec V → Bool × Exec V
  store h id a none s = (
    false,
    emit (error id)
        (set_step id (record { kind = "set_variable"; status = failed; result = none }) s),
  )
  store h id a (some v) s = (
    true,
    emit (action_executed id) (
        set_step id
          (record { kind = "set_variable"; status = ok; result = some (h.value_result v) })
          (record s { variables = put s.variables a.variable v })),
  )

  unfoldable pub assign_if : Bool → Host V → String → Assignment V → Exec V → Bool × Exec V
  assign_if true h id a s = store h id a (h.assigned a.variable a.value s.steps s.variables) s
  assign_if false h id a s = (
    true,
    emit (action_skipped id)
        (set_step id (record { kind = "set_variable"; status = skipped; result = none }) s),
  )

  -- `_execute_assignment`
  unfoldable pub execute_assignment : Host V → String → Assignment V → Exec V → Bool × Exec V
  execute_assignment h id a s = assign_if (h.is_available a.value s.steps s.variables) h id a s

  -- The record of an `if` whose branch was run.
  unfoldable pub end_branch : String → V → Bool × Exec V → Bool × Exec V
  end_branch id v (true, s) = (
    true,
    emit (action_executed id)
        (set_step id (record { kind = "if"; status = ok; result = some v }) s),
  )
  end_branch id v (false, s) = (
    false,
    emit (error id) (set_step id (record { kind = "if"; status = failed; result = none }) s),
  )

  unfoldable pub bad_condition : String → Exec V → Bool × Exec V
  bad_condition id s = (
    false,
    emit (error id) (set_step id (record { kind = "if"; status = failed; result = none }) s),
  )

  -- `_execute_if`, given what its two branches would do
  unfoldable pub choose :
      Host V → String → Option Bool → Exec V → Bool × Exec V → Bool × Exec V → Bool × Exec V
  choose h id none s x y = bad_condition id s
  choose h id (some true) s x y = end_branch id (h.branch_result true) x
  choose h id (some false) s x y = end_branch id (h.branch_result false) y

  abbrev pub goes_on : Action V → Bool
  goes_on (call c fs) = c.goes_on
  goes_on (set_variable a) = a.goes_on
  goes_on (branch b xs ys) = b.goes_on

  abbrev pub kind_of : Action V → String
  kind_of (call c fs) = c.kind
  kind_of (set_variable a) = "set_variable"
  kind_of (branch b xs ys) = "if"

  abbrev pub binding_of : Action V → Option String
  binding_of (call c fs) = c.binding_id
  binding_of (set_variable a) = a.binding_id
  binding_of (branch b xs ys) = b.binding_id

  -- The step's id; `name` gives f"{prefix}{type}_{number}".
  unfoldable pub step_id : (String → String → ℕ → String) → String → ℕ → Action V → String
  step_id name prefix number a = or_text (binding_of a) (name prefix (kind_of a) number)

  -- How the loop goes on: not at all in a cancelled run, and after a failure only where the action
  -- says so. `next` is what the rest of the sequence does.
  unfoldable pub proceed : Bool → Bool → Exec V → Bool × Exec V → Bool × Exec V → Bool × Exec V
  proceed true keep_on t r next = (false, t)
  proceed false true t r next = (r.0 && next.0, next.1)
  proceed false false t r next = (false, r.1)

  module _ (h : Host V) (w : World V) (name : String → String → ℕ → String) where
    unfoldable mutual
      -- One step: whether it succeeded.
      pub run_step : String → Bool → Action V → Exec V → Bool × Exec V
      run_step id on_failure (call c fs) s =
          let r = run_call h w id c s in
          let t = run_sequence ("failure_" <> id <> "_") 1 false fs r.1 in
          (is_ok r.0, if on_failure && wants_failure_actions r.0 then t.1 else r.1)
      run_step id on_failure (set_variable a) s = execute_assignment h id a s
      run_step id on_failure (branch b xs ys) s =
          let yes_branch = run_sequence (id <> "_then_") 1 on_failure xs s in
          let no_branch = run_sequence (id <> "_else_") 1 on_failure ys s in
          choose h id (h.holds b.condition s.steps s.variables) s yes_branch no_branch

      -- The loop, with the number of the next step: whether all steps succeeded.
      pub run_sequence : String → ℕ → Bool → Actions V → Exec V → Bool × Exec V
      run_sequence prefix number on_failure no_more s = (true, s)
      run_sequence prefix number on_failure (more a rest) s =
          let t = look w s in
          let r = run_step (step_id name prefix number a) on_failure a t in
          let next = run_sequence prefix (number + 1) on_failure rest r.1 in
          proceed t.cancel_set (r.0 || goes_on a) t r next
