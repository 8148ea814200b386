-- ===== src/Scheduler/State.antt =====
-- The fields of `RuleScheduler`, its environment, and the updates that its methods share.
use notmy_fault.Prelude.{
  ℕ, ◌+◌, ◌-◌, ◌*◌, max, String, Option, none, some, Bool, true, false, List, [], ◌∷◌, ◌++◌, ◌&&◌,
  length, eqb, if◌then◌else◌,
}
use notmy_fault.Prelude.Dict.{Dict, get, put, remove}
use notmy_fault.Prelude.Texts.{has, add, discard}
use notmy_fault.Scheduler.Config.{Rule, or_else, default_queue_limit}

-- The run context: the scheduler reads only `context["run"]["id"]`.
pub record Context : Type 0 where
  pub id : Option String

-- A queued run, with the rule's snapshot.
pub record Entry : Type 0 where
  pub rule : Rule
  pub rule_name : String
  pub context : Context
  pub run_id : String

pub data Phase : Type 0 where
  running retired : Phase

-- A worker that was started for a run, until its `entry` function returns.
pub record Worker : Type 0 where
  pub rule_key : String
  pub entry : Entry
  pub phase : Phase

pub data Kind : Type 0 where
  run_dropped run_replaced run_queued workflow_failed : Kind

pub data Reason : Type 0 where
  engine_closing already_running replaced_by_new queue_full scheduler_full rule_deleted : Reason
  engine_closed no_worker execution_failed : Reason
  waiting_at : ℕ → Reason

pub record HistoryEvent : Type 0 where
  pub kind : Kind
  pub run_id : String
  pub rule_id : String
  pub rule_name : String
  pub reason : Reason

-- What one call of `cancel_run_fn` does.
pub data Answer : Type 0 where
  accepted refused raises : Answer

-- What the scheduler is given: the two callables whose outcome it does not decide, by the number
-- of the call, and the two limits.
pub record World : Type 0 where
  pub max_workers : ℕ
  pub max_pending_runs : Option ℕ
  pub spawn : ℕ → Bool
  pub cancel : String → ℕ → Answer

pub record Sched : Type 0 where
  pub active : Dict (List String)
  pub executing : Dict (List String)
  pub queues : Dict (List Entry)
  pub removed : List String
  pub worker_count : ℕ
  pub shutting_down : Bool
  pub workers : List Worker
  pub prepared : List String
  pub history : List HistoryEvent
  pub spawns : ℕ

abbrev pub start : Sched
start = record {
  active = [];
  executing = [];
  queues = [];
  removed = [];
  worker_count = 0;
  shutting_down = false;
  workers = [];
  prepared = [];
  history = [];
  spawns = 0;
}

-- max_pending_runs or max(DEFAULT_QUEUE_LIMIT, max_workers * 4)
unfoldable pub pending_limit : World → ℕ
pending_limit w =
    let given = or_else w.max_pending_runs 0 in
    if eqb given 0 then max default_queue_limit (w.max_workers * 4) else given

-- self._active_runs.get(rule_key, ()) and the like, where a missing key counts as empty
abbrev pub members {ℓ} : {A : Type ℓ} → Dict (List A) → String → List A
members d key = or_else (get d key) []

unfoldable pub event : Kind → Entry → Reason → HistoryEvent
event kind e reason = record {
  kind = kind;
  run_id = e.run_id;
  rule_id = e.rule.rule_id;
  rule_name = e.rule_name;
  reason = reason;
}

unfoldable pub emit : Kind → Entry → Reason → Sched → Sched
unfolding event
emit kind e reason s = record s { history = s.history ++ event kind e reason ∷ [] }

-- A history event of one kind for each entry of a queue.
unfoldable pub emit_all : Kind → Reason → List Entry → Sched → Sched
unfolding emit
emit_all kind reason [] s = s
emit_all kind reason (e ∷ q) s = emit_all kind reason q (emit kind e reason s)

abbrev pub is_empty {ℓ} : {A : Type ℓ} → List A → Bool
is_empty [] = true
is_empty (x ∷ xs) = false

-- `_prune_removed_rule`
unfoldable pub prune : String → Sched → Sched
prune key s =
    if has s.removed key && is_empty (members s.active key) && is_empty (members s.executing key)
    then record s {
      active = remove s.active key;
      executing = remove s.executing key;
      queues = remove s.queues key;
      removed = discard s.removed key;
    }
    else s

-- The block that `submit` and the dispatch loop run under the lock before they start a worker.
unfoldable pub reserve : String → Entry → Sched → Sched
reserve key e s = record s {
  prepared = s.prepared ++ e.run_id ∷ [];
  active = put s.active key (add (members s.active key) e.run_id);
  executing = put s.executing key (add (members s.executing key) e.run_id);
  worker_count = s.worker_count + 1;
}

-- `self._spawn_thread(entry)` succeeded: the worker runs later, on its own thread.
unfoldable pub spawned : String → Entry → Sched → Sched
spawned key e s = record s {
  workers = s.workers ++ record { rule_key = key; entry = e; phase = running } ∷ [];
  spawns = s.spawns + 1;
}

-- d[key].discard(x) for a key that is there; nothing is changed where it is not.
unfoldable pub discard_in : Dict (List String) → String → String → Dict (List String)
discard_in d key x = elim (get d key) [ none ↦ d | some xs ↦ put d key (discard xs x) ]

-- The handler of a `_spawn_thread` that raised, up to its call of the dispatch loop.
unfoldable pub abandon : String → Entry → Sched → Sched
unfolding discard_in emit
abandon key e s = emit run_dropped e no_worker (record s {
  worker_count = s.worker_count - 1;
  executing = discard_in s.executing key e.run_id;
  active = discard_in s.active key e.run_id;
  spawns = s.spawns + 1;
})

-- sum(len(items) for items in self._queues.values())
unfoldable pub pending : Dict (List Entry) → ℕ
pending [] = 0
pending ((key, q) ∷ d) = length q + pending d
