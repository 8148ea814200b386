-- ===== src/Diagnostics/Tests.antt =====
-- Tests of the diagnostics, and an example of each theorem about them.
use notmy_fault.Prelude.{◌≡◌, ◌≤◌, List, [], ◌∷◌, length}
use notmy_fault.Diagnostics.State.{
  start, max_errors, max_plugin_errors, max_rule_issues, max_crash_details, Call, rule_issue, reset,
  action_done, report, crash, perform_all,
}
use notmy_fault.Diagnostics.Log.{
  log_all, empty_log, newest, perform_all-newest, perform_all_bounded,
}

abbrev calls : List Call
calls =
    rule_issue "a" "no action"
    ∷ crash "clock" "stopped"
    ∷ reset
    ∷ report "load" "b"
    ∷ action_done
    ∷ []

perform_all-newest_example : perform_all calls start ≡ newest (log_all calls empty_log)
perform_all-newest_example = perform_all-newest calls

perform_all_bounded_example :
    (length ((perform_all calls start).errors) ≤ max_errors)
    × ((length ((perform_all calls start).plugin_errors) ≤ max_plugin_errors)
        × ((length ((perform_all calls start).rule_issues) ≤ max_rule_issues)
            × (length ((perform_all calls start).trigger_crash_details) ≤ max_crash_details)))
perform_all_bounded_example = perform_all_bounded calls
