-- ===== src/Bus/Tests.antt =====
-- A door opens: one rule is started, and the preparation of another fails.
use notmy_fault.Prelude.{
  String, ◌≡◌, ◌⊎◌, refl, none, some, true, false, List, [], ◌∷◌, ◌==◌, eqb, if◌then◌else◌, All,
}
use notmy_fault.Prelude.Dict.{get, put, remove}
use notmy_fault.Prelude.Texts.{has}
use notmy_fault.Scheduler.State.{accepted, reserve}
use notmy_fault.Scheduler.Traces.{IsKnown}
use notmy_fault.Conditions.Tree.{Python, Node, leaf, absence_nodes}
use notmy_fault.Conditions.Tree.{
  check_event_params, condition_op, event_key, iter_condition_events, not_key, positive_events,
}
use notmy_fault.Conditions.Evaluate.{
  all_of, all_ok, any_of, combine, earliest_time, evaluate, in_window, is_later, latest,
  latest_time, matches, of_entry, signatures, spread_exceeds,
}
use notmy_fault.Conditions.Runtime.{
  all_seen, drop_stale, due, entries_of, eq_signature, fits, forget, is_fired, keep_seen, keys_of,
  last_match, match, match_and_take, match_leaves, match_node, matching, note, note_match,
  only_child, record_found, record_match, restart, restart_all, restart_one, seen_now, take_if,
  take_last_match, with_clocks, with_keys,
}
use notmy_fault.Scheduler.Submit.{
  is_busy, make_way, may_start, place, register, request, submit, submit_open,
}
use notmy_fault.Scheduler.Dispatch.{dispatch_entry, enough}
use notmy_fault.Scheduler.Config.{concurrency_config, max_running, queue_cap}
use notmy_fault.Scheduler.State.{emit, pending, pending_limit, prune, spawned}
use notmy_fault.Prelude.Texts.{add}
use notmy_fault.Bus.Masks.{mask_fields}
use notmy_fault.Bus.Emit.{
  BusRule, Wiring, fresh_bus, masked, hand_over, submit_if, dispatch, dispatch_found, unless_raised,
  emit_rules, emit_event,
}
use notmy_fault.Bus.Rule.{Op, event, perform_on, perform_ops}
use notmy_fault.Bus.Fates.{failures, triggered, triggered-IsKnown}
use notmy_fault.Bus.Secrets.{Covered, told-Covered}

abbrev words : Python
words = record {
  Value = String;
  same = λ a b. a == b;
  dumps = λ kind params. kind;
  number = λ n. "number";
  sort = λ s. s;
}

abbrev door : Node words
door = leaf (record { type = some "door"; binding_id = none; params = [] })

abbrev light : BusRule words
light = record {
  key = "light";
  name = "light";
  rule = record { rule_id = "light"; concurrency = none };
  node = some door;
  is_prepared = true;
}

abbrev alarm : BusRule words
alarm = record light { key = "alarm"; is_prepared = false }

abbrev wiring : Wiring words
wiring = record {
  config_fingerprint = λ params. "";
  run_id = λ n. if eqb n 0 then "a" else "b";
  sensitive_names = λ kind. "code" ∷ [];
  stars = "***";
  worlds = λ n. record {
    max_workers = 2;
    max_pending_runs = none;
    spawn = λ k. true;
    cancel = λ run k. accepted;
  };
}

abbrev opened : List (Op words wiring)
opened =
    event false (light ∷ alarm ∷ []) "door" (("code", "1234") ∷ ("side", "left") ∷ []) 7 none ∷ []

triggered-IsKnown_example :
    (has (failures words (perform_ops words wiring opened (fresh_bus words)).told) "a" ≡ true)
    ⊎ IsKnown "a" (perform_ops words wiring opened (fresh_bus words)).sched
unfolding absence_nodes add all_of all_ok all_seen any_of check_event_params combine
    concurrency_config condition_op dispatch dispatch_entry dispatch_found drop_stale due
    earliest_time emit emit_event emit_rules enough entries_of eq_signature evaluate event_key
    failures fits forget get hand_over has in_window is_busy is_fired is_later iter_condition_events
    keep_seen keys_of last_match latest latest_time make_way mask_fields masked match match_and_take
    match_leaves match_node matches matching max_running may_start not_key note note_match of_entry
    only_child pending pending_limit perform_on perform_ops place positive_events prune put
    queue_cap record_found record_match register remove request reserve restart restart_all
    restart_one seen_now signatures spawned spread_exceeds submit submit_if submit_open take_if
    take_last_match triggered unless_raised with_clocks with_keys
triggered-IsKnown_example = triggered-IsKnown words wiring opened "a" refl

told-Covered_example :
    All (Covered words wiring) (perform_ops words wiring opened (fresh_bus words)).told
told-Covered_example = told-Covered words wiring opened
