-- ===== src/Scheduler/Submit.antt =====
-- `submit`: whether a run starts, waits, is dropped, or takes the place of the rule's other runs.
use notmy_fault.Prelude.{
  ℕ, zero, suc, ◌+◌, String, none, some, Bool, true, false, not, List, [], ◌∷◌, ◌++◌, ◌&&◌, ◌||◌,
  length, ltb, leb, if◌then◌else◌,
}
use notmy_fault.Prelude.Dict.{Dict, get, put}
use notmy_fault.Prelude.Texts.{discard}
use notmy_fault.Scheduler.Config.{
  Rule, Mode, Config, single, replace, or_else, concurrency_config, max_running, queue_cap,
}
use notmy_fault.Scheduler.State.{
  Context, Entry, run_dropped, run_replaced, run_queued, engine_closing, already_running,
  replaced_by_new, queue_full, scheduler_full, waiting_at, accepted, refused, raises, World, Sched,
  pending_limit, members, emit, emit_all, is_empty, reserve, discard_in, pending,
}
use notmy_fault.Scheduler.Dispatch.{Run, done, dispatch_entry, enough}

-- `_cancel_with_retry`: up to 20 calls, and an exception ends the loop.
attempts : World → String → ℕ → ℕ → Bool
attempts w run zero k = false
attempts w run (suc left) k = elim (w.cancel run k) [
  | accepted ↦ true
  | raises ↦ false
  | refused ↦ attempts w run left (k + 1)
]

abbrev pub cancel_tries : ℕ
cancel_tries = 20

unfoldable pub cancel_with_retry : World → String → Bool
unfolding attempts
cancel_with_retry w run = attempts w run cancel_tries 0

-- What `submit` records of a run that is not queued yet.
unfoldable pub request : Rule → String → Context → Entry
request rule name context = record {
  rule = rule;
  rule_name = name;
  context = context;
  run_id = or_else context.id "";
}

abbrev pub with_run : Entry → String → Entry
with_run e run = record e { run_id = run }

-- The `for` over a copy of the active runs: a run that could be cancelled is no longer active.
unfoldable pub replace_active : World → String → Entry → List String → Sched → Sched
unfolding emit discard_in
replace_active w key e [] s = s
replace_active w key e (run ∷ rest) s = replace_active w key e rest (
    if cancel_with_retry w run
    then emit run_replaced (with_run e run) replaced_by_new
        (record s { active = discard_in s.active key run })
    else s)

unfoldable pub make_way : World → String → Entry → Mode → Sched → Sched
unfolding replace_active emit_all cancel_with_retry
make_way w key e replace s =
    let t = replace_active w key e (members s.active key) s in
    let u = emit_all run_replaced replaced_by_new (members t.queues key) t in
    record u { queues = put u.queues key [] }
make_way w key e _ s = s

pub data Decision : Type 0 where
  started queued dropped replaced : Decision

-- The decision counts only where the call returns.
abbrev pub Submitted : Type 0
Submitted = Decision × Run

abbrev pub decision_of : Mode → Decision
decision_of replace = replaced
decision_of _ = started

-- self._active_runs.setdefault(rule_key, set()), and the same for the queue
abbrev pub set_default {ℓ} : {A : Type ℓ} → Dict (List A) → String → Dict (List A)
set_default d key = elim (get d key) [ none ↦ put d key [] | some _ ↦ d ]

unfoldable pub register : String → Sched → Sched
register key s = record s {
  removed = discard s.removed key;
  active = set_default s.active key;
  queues = set_default s.queues key;
}

unfoldable pub enqueue : String → Entry → Sched → Sched
unfolding emit
enqueue key e s =
    let q = members s.queues key ++ e ∷ [] in
    emit run_queued e (waiting_at (length q)) (record s { queues = put s.queues key q })

unfoldable pub may_start : World → String → Config → Sched → Bool
may_start w key c s =
    ltb (length (members s.active key)) (max_running w.max_workers c)
    && ltb s.worker_count w.max_workers

-- From the test for a free place on.
unfoldable pub place : World → String → Entry → Config → Sched → Submitted
place w key e c s =
    if may_start w key c s
    then (decision_of c.mode, dispatch_entry w (enough s) key e (reserve key e s))
    else if leb (queue_cap c) (length (members s.queues key))
    then (dropped, (done, emit run_dropped e queue_full s))
    else if leb (pending_limit w) (pending s.queues)
    then (dropped, (done, emit run_dropped e scheduler_full s))
    else (queued, (done, enqueue key e s))

abbrev pub is_single : Mode → Bool
is_single single = true
is_single _ = false

unfoldable pub is_busy : String → Sched → Bool
is_busy key s = not (is_empty (members s.active key)) || not (is_empty (members s.queues key))

unfoldable pub submit_open : World → String → Entry → Config → Sched → Submitted
submit_open w key e c s =
    if is_single c.mode && is_busy key s
    then (dropped, (done, emit run_dropped e already_running s))
    else place w key e c (make_way w key e c.mode s)

unfoldable pub submit : World → String → Rule → String → Context → Sched → Submitted
submit w key rule name context s =
    let e = request rule name context in
    if s.shutting_down
    then (dropped, (done, emit run_dropped e engine_closing s))
    else submit_open w key e (concurrency_config rule) (register key s)
