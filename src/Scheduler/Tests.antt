-- ===== src/Scheduler/Tests.antt =====
-- Small schedules, and the theorems at them.
use notmy_fault.Prelude.{
  ◌≤◌, String, ◌≡◌, ◌≢◌, refl, none, some, true, false, List, [], ◌∷◌, arith, length,
}
use notmy_fault.Prelude.Int.{pos}
use notmy_fault.Prelude.Dict.{get, put, remove}
use notmy_fault.Prelude.Texts.{has, add, discard}
use notmy_fault.Scheduler.Config.{queue_cap, Rule, absent, int, concurrency_config, max_running}
use notmy_fault.Scheduler.State.{
  Context, World, accepted, start, members, reserve, pending_limit, pending, spawned, prune,
  discard_in, emit,
}
use notmy_fault.Scheduler.Dispatch.{
  out_of_fuel, dispatch_entry, dispatch_queued, next_run, dequeue, enough,
}
use notmy_fault.Scheduler.Submit.{
  request, submit, submit_open, place, register, is_busy, make_way, may_start, enqueue,
}
use notmy_fault.Scheduler.Steps.{Op, perform, begin, next}
use notmy_fault.Scheduler.Total.{perform-ends}
use notmy_fault.Scheduler.Bounds.{IsBounded}
use notmy_fault.Scheduler.Balance.{Reach-IsBounded}
use notmy_fault.Scheduler.Limit.{active_limit}
use notmy_fault.Scheduler.Closed.{run_calls, shutdown_starts_nothing}
use notmy_fault.Scheduler.Traces.{IsKnown}
use notmy_fault.Scheduler.Submitted.{submitted-IsKnown}
use notmy_fault.Scheduler.Operations.{shutdown, retire, retire_at, retire_run, release}

-- Two workers; every thread starts and every cancellation is accepted.
abbrev world : World
world = record {
  max_workers = 2;
  max_pending_runs = none;
  spawn = λ k. true;
  cancel = λ run k. accepted;
}

-- No thread can be started.
abbrev broken : World
broken = record world { spawn = λ k. false }

abbrev queue_rule : Rule
queue_rule = record {
  rule_id = "r";
  concurrency =
      some (record { mode = some "queue"; max_concurrency = int (pos 1); queue_limit = absent });
}

abbrev run : String → Context
run id = record { id = some id }

abbrev ask : String → Op
ask id = Op.submit "r" queue_rule "night" (run id)

abbrev three_calls : List (World × Op)
three_calls = (world, ask "a") ∷ (world, ask "b") ∷ (world, Op.run_ended true 0) ∷ []

queue_rule_limit : max_running 2 (concurrency_config queue_rule) ≤ 1
unfolding max_running concurrency_config
queue_rule_limit = omega arith

-- The second run waits, and starts when the first one ends.
queued_run_follows : members (run_calls three_calls start).active "r" ≡ "b" ∷ []
unfolding perform submit submit_open place request register is_busy make_way may_start reserve
    dispatch_entry dispatch_queued next_run dequeue enqueue retire retire_at retire_run release
    concurrency_config max_running queue_cap pending_limit pending enough spawned prune get put
    remove has add discard discard_in emit
queued_run_follows = refl

perform-ends_example : (perform broken (ask "a") start).0 ≢ out_of_fuel
perform-ends_example = perform-ends broken (ask "a") start

Reach-IsBounded_example : IsBounded world (perform world (ask "a") start).1
Reach-IsBounded_example =
    Reach-IsBounded world (perform world (ask "a") start).1 (next world (ask "a") refl refl begin)

active_limit_example : length (members (run_calls three_calls start).active "r") ≤ 1
unfolding request
active_limit_example =
    active_limit 2 "r" 1 three_calls
      ((refl, λ _. queue_rule_limit), ((refl, λ _. queue_rule_limit), ((refl, tt), tt)))

shutdown_starts_nothing_example :
    ((run_calls three_calls (shutdown start)).shutting_down ≡ true)
    × (length (run_calls three_calls (shutdown start)).workers ≤ length start.workers)
shutdown_starts_nothing_example = shutdown_starts_nothing start three_calls

submitted-IsKnown_example : IsKnown (request queue_rule "night" (run "c")).run_id (
    run_calls three_calls
      (perform broken (Op.submit "r" queue_rule "night" (run "c")) (run_calls three_calls start)).1)
submitted-IsKnown_example =
    submitted-IsKnown three_calls broken "r" queue_rule "night" (run "c") three_calls
