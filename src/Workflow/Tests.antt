-- ===== src/Workflow/Tests.antt =====
-- A run of two actions, one of which is tried again, and the theorems at it.
use Prim.Native.String.{◌++◌ as ◌<>◌}
use notmy_fault.Prelude.{ℕ, String, none, some, true, false, [], eqb, if◌then◌else◌}
use notmy_fault.Prelude.Int.{pos}
use notmy_fault.Workflow.Plan.{
  number, returns, raises, Call, call, branch, no_more, more, Actions, Host, World,
}
use notmy_fault.Workflow.State.{Exec}
use notmy_fault.Workflow.Run.{Workflow}

abbrev host : Host String
host = record {
  is_available = λ v steps vars. true;
  resolve = λ v steps vars. some v;
  holds = λ v steps vars. some true;
  assigned = λ name v steps vars. some v;
  value_result = λ v. v;
  branch_result = λ b. "branch";
  is_unsafe = λ kind v. false;
  is_object = λ v. true;
  is_known = λ kind. true;
  is_cancellable = λ kind. false;
  is_valid = λ kind v. true;
}

-- The first call of a plugin raises; nothing is cancelled.
abbrev world : World String
world = record {
  invoke = λ n. if eqb n 0 then raises else returns "fine";
  cancels = λ n. false;
  shuts = λ n. false;
  overdue = λ n. false;
}

abbrev notify : Call String
notify = record {
  kind = "notify";
  binding_id = some "a";
  params = "text";
  timeout_seconds = none;
  retry = some (number (pos 9));
  retry_delay_seconds = some (number (pos 5));
  is_exponential = true;
  goes_on = false;
}

abbrev plan : Actions String
plan = more (call notify no_more) (
    more
      (branch (record { binding_id = some "b"; condition = "always"; goes_on = false })
        (more (call (record notify { binding_id = some "c" }) no_more) no_more) no_more)
      no_more)

abbrev fresh : Exec String
fresh = record {
  steps = [];
  variables = [];
  cancel_set = false;
  shutting_down = false;
  finished = false;
  cancel_events = [];
  active_actions = 0;
  action_ok = 0;
  action_fail = 0;
  events = [];
  calls = 0;
  waits = [];
  looks = 0;
}

abbrev workflow : Workflow String
workflow = record { run_id = "run"; actions = plan; manual = none; is_prepared = true }

abbrev name : String → String → ℕ → String
name prefix kind n = prefix <> kind
