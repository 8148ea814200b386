-- ===== src/History/Replay.antt =====
-- `_new_run`, `_find_step` and `_apply_event`. The values inside a packet are JSON values that the
-- replay only copies: their type, and Python's conversions of them, are parameters.
use notmy_fault.Prelude.{
  ℕ, String, Option, none, some, Bool, false, List, [], ◌∷◌, ◌==◌, ◌||◌, leb, if◌then◌else◌,
}
use notmy_fault.Prelude.Int.{ℤ, pos}
use notmy_fault.Prelude.Dict.{Dict, get}
use notmy_fault.Prelude.Texts.{has}
use notmy_fault.Scheduler.Config.{or_else}
use notmy_fault.Lifecycle.{Field, missing, other, text, is_terminal, status_after}

-- JSON values, as far as the replay looks into them.
pub record Json : Type 1 where
  pub Value : Type 0
  pub null : Value
  pub of_text : String → Value
  pub empty_list : Value
  -- isinstance(value, str)
  pub as_text : Value → Option String
  -- str(value or "")
  pub step_name : Value → String
  -- value or "动作已取消"
  pub or_cancelled : Value → Value
  -- float(value) where that is finite and whole, and the value is no bool
  pub as_whole : Value → Option ℤ
  -- `_duration_ms`
  pub duration_ms : Value → Value → Value

module _ (J : Json) where
  open J use {
    Value, null, empty_list, of_text, as_text, step_name, or_cancelled, as_whole, duration_ms,
  }

  pub record Step : Type 0 where
    pub step_id : String
    pub action_type : Value
    pub status : String
    pub finished_at : Value
    pub duration : Value
    pub attempt : Value
    pub reason : Value
    pub error : Value
    pub input_summary : Option Value
    pub output_summary : Option Value

  pub record Run : Type 0 where
    pub run_id : Value
    pub rule_id : Value
    pub rule_name : Value
    pub event_type : Value
    pub status : String
    pub started_at : Value
    pub finished_at : Value
    pub duration : Value
    pub action_count : ℕ
    pub precondition_count : ℕ
    pub start_step_id : Value
    pub end_step_id : Value
    pub assertions_passed : ℕ
    pub assertions_total : ℕ
    pub assertion_results : Value
    pub failure_kind : Value
    pub steps : List Step
    pub error : Value
    pub deferred_reason : Value
    pub retry_after_seconds : Value
    pub queued_reason : Option Value
    pub drop_reason : Option Value
    pub replayable : Bool

  -- A packet whose `data` is no dict has an empty `content` here: without a run id both are skipped.
  pub record Packet : Type 0 where
    pub kind : String
    pub content : Dict Value
    pub ts : Value

  -- data.get(key, default) and data.get(key)
  abbrev pub field_or : Dict Value → String → Value → Value
  field_or d key default = or_else (get d key) default

  abbrev pub field : Dict Value → String → Value
  field d key = field_or d key null

  abbrev pub status_field : Option Value → Field
  status_field none = missing
  status_field (some v) = elim (as_text v) [ none ↦ other | some s ↦ text s ]

  in_range : ℕ → Option ℤ → ℕ
  in_range default (some (pos n)) = if leb n 1_000_000 then n else default
  in_range default _ = default

  -- `_safe_count(data.get(key), default)`
  unfoldable pub safe_count : Value → ℕ → ℕ
  unfolding in_range
  safe_count v default = in_range default (as_whole v)

  unfoldable pub new_run : Dict Value → Value → Run
  new_run d timestamp = record {
    run_id = field_or d "run_id" (of_text "");
    rule_id = field_or d "rule_id" (of_text "");
    rule_name = field_or d "rule_name" (of_text "未命名规则");
    event_type = field_or d "event_type" (of_text "");
    status = "running";
    started_at = timestamp;
    finished_at = null;
    duration = null;
    action_count = safe_count (field d "action_count") 0;
    precondition_count = safe_count (field d "precondition_count") 0;
    start_step_id = field_or d "start_step_id" (of_text "");
    end_step_id = field_or d "end_step_id" (of_text "");
    assertions_passed = 0;
    assertions_total = safe_count (field d "assertion_count") 0;
    assertion_results = empty_list;
    failure_kind = of_text "";
    steps = [];
    error = null;
    deferred_reason = null;
    retry_after_seconds = null;
    queued_reason = none;
    drop_reason = none;
    replayable = false;
  }

  -- The branch of "rule_triggered".
  unfoldable pub refresh : Dict Value → Run → Run
  refresh d r = record r {
    rule_id = field_or d "rule_id" r.rule_id;
    rule_name = field_or d "rule_name" r.rule_name;
    event_type = field_or d "event_type" r.event_type;
    action_count = safe_count (field d "action_count") r.action_count;
    precondition_count = safe_count (field d "precondition_count") r.precondition_count;
    start_step_id = field_or d "start_step_id" r.start_step_id;
    end_step_id = field_or d "end_step_id" r.end_step_id;
    assertions_total = safe_count (field d "assertion_count") r.assertions_total;
  }

  new_step : String → Packet → Step
  new_step name p = record {
    step_id = name;
    action_type = field_or p.content "action_type" (of_text "");
    status = "running";
    finished_at = p.ts;
    duration = field p.content "duration_ms";
    attempt = field p.content "attempt";
    reason = null;
    error = null;
    input_summary = none;
    output_summary = none;
  }

  -- The status that an event gives to its step, with the reason or the error.
  mark_step : Packet → Step → Step
  mark_step p t =
      if p.kind == "action_executed"
      then record t { status = "succeeded" }
      else if p.kind == "action_skipped"
      then record t { status = "skipped"; reason = field p.content "reason" }
      else if p.kind == "action_cancelled"
      then record t { status = "cancelled"; reason = or_cancelled (field p.content "error") }
      else if p.kind == "action_timed_out"
      then record t { status = "timed_out"; error = field p.content "error" }
      else record t { status = "failed"; error = field p.content "error" }

  abbrev keep_or : Option Value → Option Value → Option Value
  keep_or (some v) old = some v
  keep_or none old = old

  update_step : Packet → Step → Step
  unfolding mark_step
  update_step p t =
      let t' = mark_step p t in
      record t' {
        finished_at = p.ts;
        duration = field_or p.content "duration_ms" t.duration;
        attempt = field_or p.content "attempt" t.attempt;
        input_summary = keep_or (get p.content "input_summary") t.input_summary;
        output_summary = keep_or (get p.content "output_summary") t.output_summary;
      }

  -- The first step of the name is updated; without one a new step is appended.
  unfoldable pub record_step : Packet → String → List Step → List Step
  unfolding update_step new_step
  record_step p name [] = update_step p (new_step name p) ∷ []
  record_step p name (t ∷ ts) =
      if t.step_id == name then update_step p t ∷ ts else t ∷ record_step p name ts

  abbrev pub step_events : List String
  step_events =
      "action_executed" ∷ "action_skipped" ∷ "action_cancelled" ∷ "action_timed_out" ∷ "error"
      ∷ "workflow_failed" ∷ []

  unfoldable pub apply_steps : Packet → Run → Run
  apply_steps p r =
      let name = step_name (field p.content "step_id") in
      if has step_events p.kind
      then (if name == "" then r else record r { steps = record_step p name r.steps })
      else r

  abbrev pub new_status : Packet → Run → Option String
  new_status p r =
      status_after p.kind (status_field (get p.content "status"))
        (if r.status == "deferred" then "queued" else r.status)

  -- The last part of `_apply_event`.
  unfoldable pub apply_status : Packet → Option String → Run → Run
  apply_status p next r =
      let d = p.content in
      if p.kind == "workflow_deferred"
      then record r {
        status = "deferred";
        deferred_reason = field d "reason";
        retry_after_seconds = field d "retry_after_seconds";
      }
      else if p.kind == "run_queued"
      then record r { status = or_else next r.status; queued_reason = some (field d "reason") }
      else if (p.kind == "run_dropped") || (p.kind == "run_replaced")
      then record r {
        status = or_else next r.status;
        drop_reason = some (field d "reason");
        finished_at = p.ts;
        duration = duration_ms r.started_at p.ts;
      }
      else if p.kind == "workflow_failed"
      then record r {
        status = or_else next r.status;
        error = field d "error";
        finished_at = p.ts;
        duration = duration_ms r.started_at p.ts;
      }
      else if p.kind == "workflow_completed"
      then record r {
        status = or_else next r.status;
        assertions_passed = safe_count (field d "assertions_passed") r.assertions_passed;
        assertions_total = safe_count (field d "assertions_total") r.assertions_total;
        failure_kind = field_or d "failure_kind" (of_text "");
        finished_at = p.ts;
        duration = field_or d "duration_ms" (duration_ms r.started_at p.ts);
      }
      else (if or_else next "" == "running" then record r { status = "running" } else r)

  unfoldable pub apply_event : Run → Packet → Run
  apply_event r p =
      if is_terminal r.status
      then r
      else if p.kind == "rule_triggered"
      then refresh p.content r
      else if p.kind == "test_assertions_completed"
      then record r {
        assertions_passed = safe_count (field p.content "passed") 0;
        assertions_total = safe_count (field p.content "total") 0;
        assertion_results = field_or p.content "results" empty_list;
      }
      else (let r' = apply_steps p r in apply_status p (new_status p r') r')
