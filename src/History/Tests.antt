-- ===== src/History/Tests.antt =====
-- Small histories, and the theorems at them.
use notmy_fault.Prelude.{String, ◌≡◌, ◌≢◌, refl, Option, none, some, List, [], ◌∷◌, arith, eq_iff}
use notmy_fault.Prelude.Int.{pos}
use notmy_fault.Prelude.Dict.{get, put}
use notmy_fault.Prelude.Texts.{has}
use notmy_fault.Scheduler.Config.{or_else}
use notmy_fault.Lifecycle.{status_after, is_terminal}
use notmy_fault.History.Replay.{
  Json, Run, Packet, new_run, apply_event, status_field, safe_count, apply_steps, apply_status,
  refresh,
}
use notmy_fault.History.Build.{
  text_of, is_of, build, empty, get_run, build_runs, run_id_of, add_packet, add_to, collect,
  packets_of,
}
use notmy_fault.History.Absorb.{apply_event-status, current_of}
use notmy_fault.History.Separate.{get_run-eq-build}

-- Values that are all texts.
abbrev texts : Json
texts = record {
  Value = String;
  null = "";
  of_text = λ s. s;
  empty_list = "[]";
  as_text = some;
  step_name = λ s. s;
  or_cancelled = λ s. s;
  as_whole = λ s. some (pos 1);
  duration_ms = λ a b. b;
}

abbrev packet : String → String → String → Packet texts
packet kind run now = record { kind = kind; content = ("run_id", run) ∷ []; ts = now }

abbrev two_runs : List (Packet texts)
two_runs =
    packet "rule_triggered" "a" "1"
    ∷ packet "rule_triggered" "b" "2"
    ∷ packet "workflow_failed" "a" "3"
    ∷ packet "workflow_completed" "a" "4"
    ∷ packet "workflow_completed" "b" "5"
    ∷ []

abbrev failed_run : Run texts
failed_run = record (new_run texts [] "1") { status = "failed" }

program : Unit {0}
unfolding build add_packet add_to get_run build_runs run_id_of text_of is_of collect packets_of
    new_run apply_event apply_steps apply_status get put is_terminal status_after safe_count has
    refresh
program = tt

status_of : Option (Run texts) → String
status_of none = ""
status_of (some r) = r.status

first_end_counts : status_of (get_run texts "a" two_runs) ≡ "failed"
unfolding program status_of
first_end_counts = refl

apply_event-status_example :
    (apply_event texts (new_run texts [] "1") (packet "workflow_failed" "a" "3")).status
    ≡ or_else
        (status_after "workflow_failed"
          (status_field texts none)
          (current_of (new_run texts [] "1").status))
        (new_run texts [] "1").status
unfolding get
apply_event-status_example =
    apply_event-status texts (packet "workflow_failed" "a" "3") (new_run texts [] "1") refl refl
      refl

a_named : ◌≢◌ {A = String} "a" ""
a_named = ground (arith, eq_iff "a" "")

get_run-eq-build_example :
    get_run texts "a" two_runs ≡ get (build texts (empty texts) two_runs).runs "a"
get_run-eq-build_example = get_run-eq-build texts "a" two_runs a_named
