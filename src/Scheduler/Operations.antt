-- ===== src/Scheduler/Operations.antt =====
-- The other public methods of `RuleScheduler`, and the two parts of a worker's `entry` function, each
-- of which runs under the lock.
use notmy_fault.Prelude.{
  ℕ, ◌-◌, String, Option, none, some, Bool, true, not, List, [], ◌∷◌, ◌||◌, length, get_elem?, set,
  remove_at, if◌then◌else◌, ◌==◌,
}
use notmy_fault.Prelude.Dict.{Dict, get, remove}
use notmy_fault.Prelude.Texts.{has, add}
use notmy_fault.Scheduler.State.{
  Entry, Phase, Phase, running, retired, Worker, run_dropped, workflow_failed, rule_deleted,
  engine_closed, execution_failed, World, Sched, members, emit, emit_all, prune, discard_in,
}
use notmy_fault.Scheduler.Dispatch.{
  Run, done, raised, and_then, dispatch_queued, dispatch_available, enough,
}

-- `_rule_key_of`
unfoldable pub rule_key_of : Dict (List String) → String → Option String
rule_key_of [] run = none
rule_key_of ((key, runs) ∷ d) run = if has runs run then some key else rule_key_of d run

abbrev pub prune_after : String → Run → Run
prune_after key r = and_then r (λ t. (done, prune key t))

-- The tail that `on_run_event` and `_retire_run` share.
unfoldable pub release : World → String → String → Sched → Run
unfolding discard_in
release w key run s =
    prune_after key
      (dispatch_queued w (enough s) key (record s { active = discard_in s.active key run }))

unfoldable pub release_found : World → String → Option String → Sched → Run
release_found w run none s = (done, s)
release_found w run (some key) s =
    if has (members s.active key) run then release w key run s else (done, s)

-- The two kinds of event that end a run.
unfoldable pub ends_run : String → Bool
ends_run kind = kind == "workflow_completed" || kind == "workflow_failed"

-- `run` is `none` where the event carries no text as its run id.
unfoldable pub on_run_event : World → String → Option String → Sched → Run
on_run_event w kind none s = (done, s)
on_run_event w kind (some run) s =
    if not (ends_run kind)
    then (done, s)
    else if run == ""
    then (done, s)
    else release_found w run (rule_key_of s.active run) s

-- `drop_rule`, with the number of the runs that it dropped.
unfoldable pub drop_rule : String → Sched → ℕ × Sched
unfolding emit_all
drop_rule key s =
    let q = members s.queues key in
    let t = prune key (record s { queues = remove s.queues key; removed = add s.removed key }) in
    (length q, emit_all run_dropped rule_deleted q t)

unfoldable pub drop_queues : Dict (List Entry) → Sched → Sched
unfolding emit_all
drop_queues [] s = s
drop_queues ((key, q) ∷ d) s = drop_queues d (emit_all run_dropped engine_closed q s)

unfoldable pub shutdown : Sched → Sched
unfolding drop_queues
shutdown s =
    let t = drop_queues s.queues (record s { shutting_down = true }) in record t { queues = [] }

-- The `_run_entry` of one worker, from the end of `execute_fn` on; `returned` is false where that
-- raised. A run without an id is not retired.
unfoldable pub retire_run : World → Bool → Worker → Sched → Run
retire_run w returned k s =
    let t = if returned then s else emit workflow_failed k.entry execution_failed s in
    if k.entry.run_id == "" then (done, t) else release w k.rule_key k.entry.run_id t

unfoldable pub retire_at : World → Bool → ℕ → Worker → Phase → Sched → Run
retire_at w returned i k retired s = (done, s)
retire_at w returned i k running s =
    retire_run w returned k (record s { workers = set s.workers i (record k { phase = retired }) })

unfoldable pub retire : World → Bool → ℕ → Sched → Run
retire w returned i s = elim (get_elem? s.workers i) [
  | none ↦ (done, s)
  | some k ↦ retire_at w returned i k k.phase s
]

-- The `finally` block of `entry`. `self._executing_runs[rule_key]` raises on a missing key.
unfoldable pub finish_worker : World → Worker → Sched → Run
unfolding discard_in
finish_worker w k s = elim (get s.executing k.rule_key) [
  | none ↦ (raised, s)
  | some _ ↦
      let t =
        prune k.rule_key
          (record s { executing = discard_in s.executing k.rule_key k.entry.run_id }) in
      dispatch_available w (enough t) t
]

unfoldable pub finish_at : World → ℕ → Worker → Phase → Sched → Run
finish_at w i k running s = (done, s)
finish_at w i k retired s =
    finish_worker w k
      (record s { workers = remove_at s.workers i; worker_count = s.worker_count - 1 })

unfoldable pub finish : World → ℕ → Sched → Run
finish w i s = elim (get_elem? s.workers i) [
  | none ↦ (done, s)
  | some k ↦ finish_at w i k k.phase s
]

-- `stats`, for one rule: how many runs are executing, and how many wait.
unfoldable pub stats : String → Sched → ℕ × ℕ
stats key s = (length (members s.executing key), length (members s.queues key))
