-- ===== src/Lifecycle.antt =====
-- notmyfault/core/run_lifecycle.py: the states of a run and the events that move it.
use notmy_fault.Prelude.{String, Option, none, some, Bool, List, [], ◌∷◌, ◌==◌, ◌&&◌, if◌then◌else◌}
use notmy_fault.Prelude.Texts.{has}

abbrev pub terminal_statuses : List String
terminal_statuses = "succeeded" ∷ "failed" ∷ "cancelled" ∷ "dropped" ∷ "replaced" ∷ []

abbrev pub resume_signals : List String
resume_signals =
    "action_executed" ∷ "action_skipped" ∷ "action_cancelled" ∷ "action_timed_out" ∷ "error"
    ∷ "test_assertions_completed" ∷ []

unfoldable pub is_terminal : String → Bool
unfolding has
is_terminal status = has terminal_statuses status

-- What `data.get("status", …)` finds: no key, a text, or another value that can be hashed (a number, a
-- truth value or null), which equals none of the statuses. A list or a dict, for which the membership
-- test raises a TypeError, is not modelled: no writer of events puts one there.
pub data Field : Type 0 where
  missing other : Field
  text : String → Field

unfoldable pub final_status : Field → String
final_status missing = "succeeded"
final_status other = "succeeded"
final_status (text s) = if is_terminal s then s else "succeeded"

-- `none` says that the status stays, or that the event is to be ignored.
unfoldable pub status_after : String → Field → String → Option String
status_after event_type status current =
    if is_terminal current
    then none
    else if event_type == "rule_triggered"
    then some "running"
    else if event_type == "run_queued"
    then some "queued"
    else if event_type == "run_dropped"
    then some "dropped"
    else if event_type == "run_replaced"
    then some "replaced"
    else if event_type == "workflow_failed"
    then some "failed"
    else if event_type == "workflow_completed"
    then some (final_status status)
    else if has resume_signals event_type && (current == "queued")
    then some "running"
    else none
