-- ===== src/Supervisor/Tests.antt =====
-- A supervisor whose trigger is started, does not stop in time, and is not started twice.
use notmy_fault.Prelude.{ℕ, String, ◌≡◌, refl, true, false, List, [], ◌∷◌, ◌==◌, eqb, if◌then◌else◌}
use notmy_fault.Prelude.Dict.{Dict, get, put, remove}
use notmy_fault.Prelude.Texts.{has}
use notmy_fault.Supervisor.State.{
  no_threads, lives, is_alive, survivors, end_threads, request_stop_all, crash_if, mark_crashed,
  values_of,
}
use notmy_fault.Supervisor.Start.{
  Plugins, missing_triggers, unique_configs, instances, instance_id, mount, launch, unless_running,
  start_instance, start_instances, start_type, start_types, tell_missing, start,
}
use notmy_fault.Supervisor.Stop.{
  joined, join_all, alive_ids, is_same, drop_if, drop_stopped, sweep, stop_threads, stop,
}
use notmy_fault.Supervisor.Live.{IsSound}
use notmy_fault.Supervisor.Stopped.{IsStopped}
use notmy_fault.Supervisor.Calls.{
  Op, starts, stops, requests, crashes, perform, perform_all, works, perform_all-IsSound,
  one_thread_each, stop-IsStopped,
}

abbrev plugins : Plugins String
plugins = record {
  has_function = λ t. t == "clock";
  is_event_v2 = λ t. true;
  config_fingerprint = λ c. c;
  numbered = λ t n. if eqb n 1 then "clock:1" else "clock:2";
  can_start = λ n. true;
}

-- Three configurations, of which two are the same, and a trigger that is not there.
abbrev wanted : Dict (List String)
wanted = ("clock", "8" ∷ "9" ∷ "8" ∷ []) ∷ ("mail", "x" ∷ []) ∷ []

started : (start plugins wanted no_threads).0 ≡ 2
unfolding start start_types start_type start_instances start_instance unless_running is_alive launch
    mount tell_missing missing_triggers instances unique_configs instance_id get put remove has
started = refl

abbrev history : List (Op String)
history =
    starts plugins wanted
    ∷ requests
    ∷ crashes "clock:2" "late"
    ∷ stops (λ n. eqb n 0) (λ n. false)
    ∷ starts plugins wanted
    ∷ []

perform_all-IsSound_example : IsSound (perform_all history no_threads)
perform_all-IsSound_example = perform_all-IsSound history

-- The second thread is still alive, so that only the first is started again, as the thread 2.
one_thread_each_example : ◌≡◌ {A = ℕ} 1 1
unfolding perform_all perform works start start_types start_type start_instances instances
    unique_configs has start_instance unless_running is_alive get tell_missing missing_triggers stop
    stop_threads mark_crashed crash_if put remove instance_id launch mount end_threads lives
    request_stop_all survivors values_of alive_ids drop_if drop_stopped is_same join_all joined
    sweep
one_thread_each_example = one_thread_each history 1 1 "clock:2" refl refl

stop-IsStopped_example : IsStopped (stop (λ n. false) (λ n. true) (perform_all history no_threads))
stop-IsStopped_example = stop-IsStopped history (λ n. false) (λ n. true)
