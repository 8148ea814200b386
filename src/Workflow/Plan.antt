-- ===== src/Workflow/Plan.antt =====
-- The actions of a rule, and what an executor is given.
use notmy_fault.Prelude.{ℕ, String, Option, Bool}
use notmy_fault.Prelude.Int.{ℤ}
use notmy_fault.Prelude.Dict.{Dict}

-- The status that `context["steps"]` holds of a step.
pub data Status : Type 0 where
  ok failed cancelled timed_out skipped : Status

pub record Step (V : Type 0) : Type 0 where
  pub kind : String
  pub status : Status
  pub result : Option V

-- Why an action is cancelled (`ActionCancellation.reason`).
pub data Reason : Type 0 where
  shutdown by_user timeout : Reason

-- What `int(...)` or `float(...)` makes of a setting, in whole seconds; `unreadable` is where it raises.
pub data Number : Type 0 where
  unreadable : Number
  number : ℤ → Number

-- How one call of a plugin ends: with a result that fits the declared outputs, with an
-- `ActionCancelled`, with an `AdminExecutionBlocked`, or with another `Exception`. One that is no
-- `Exception` ends the run: it is an argument of `execute_workflow`.
pub data Invocation (V : Type 0) : Type 0 where
  returns : V → Invocation V
  stops : Reason → Invocation V
  blocked raises : Invocation V

-- An action that calls a plugin. `timeout_seconds` and `retry` are `none` where the key is missing.
pub record Call (V : Type 0) : Type 0 where
  pub kind : String
  pub binding_id : Option String
  pub params : V
  pub timeout_seconds : Option Number
  pub retry : Option Number
  pub retry_delay_seconds : Option Number
  pub is_exponential : Bool
  pub goes_on : Bool

-- A `set_variable`, or the head of an `if`; `goes_on` is `on_error == "continue"`.
pub record Assignment (V : Type 0) : Type 0 where
  pub binding_id : Option String
  pub variable : String
  pub value : V
  pub goes_on : Bool

pub record Branch (V : Type 0) : Type 0 where
  pub binding_id : Option String
  pub condition : V
  pub goes_on : Bool

mutual
  pub data Action (V : Type 0) : Type 0 where
    call : Call V → Actions V → Action V
    set_variable : Assignment V → Action V
    branch : Branch V → Actions V → Actions V → Action V

  -- A list of actions; those of a `call` are its `failure_actions`.
  pub data Actions (V : Type 0) : Type 0 where
    no_more : Actions V
    more : Action V → Actions V → Actions V

-- What the data bindings, the variables and the plugins answer.
pub record Host (V : Type 0) : Type 0 where
  -- references_available(value, context) and resolve_value(value, context)
  pub is_available : V → Dict (Step V) → Dict V → Bool
  pub resolve : V → Dict (Step V) → Dict V → Option V
  -- evaluate_predicate; `none` is where it raises
  pub holds : V → Dict (Step V) → Dict V → Option Bool
  -- The value that assign_variable stores; `none` is where it raises.
  pub assigned : String → V → Dict (Step V) → Dict V → Option V
  -- The results {"value": v} of an assignment and {"matched": …, "branch": …} of an `if`
  pub value_result : V → V
  pub branch_result : Bool → V
  -- A parameter that the plugin wants fixed holds a dynamic value.
  pub is_unsafe : String → V → Bool
  pub is_object : V → Bool
  pub is_known : String → Bool
  -- cancellation_api == "runtime-v1"
  pub is_cancellable : String → Bool
  -- validate_params finds no error.
  pub is_valid : String → V → Bool

-- What happens meanwhile: the plugin calls by their number, and what other threads do before each
-- look at the events (the cancellation of the run, the shutdown, the deadline) by its number.
pub record World (V : Type 0) : Type 0 where
  pub invoke : ℕ → Invocation V
  pub cancels : ℕ → Bool
  pub shuts : ℕ → Bool
  pub overdue : ℕ → Bool
