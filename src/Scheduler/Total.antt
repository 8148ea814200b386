-- ===== src/Scheduler/Total.antt =====
-- Every call of the scheduler ends: the model's fuel is never what stops it.
use notmy_fault.Prelude.{
  String, ◌≢◌, none, some, Bool, true, false, arith, get_elem?, set, remove_at, ◌-◌, inl, inr,
  Option-cases,
}
use notmy_fault.Scheduler.Config.{Rule, Config, concurrency_config}
use notmy_fault.Scheduler.State.{
  Context, Entry, Worker, World, Sched, retired, reserve, discard_in, prune, emit, workflow_failed,
  execution_failed,
}
use notmy_fault.Scheduler.Dispatch.{
  Run, done, raised, out_of_fuel, enough, dispatch_entry, dispatch_queued, dispatch_available,
}
use notmy_fault.Scheduler.Fuel.{Settles, entry-Settles, queued-Settles, available-Settles}
use notmy_fault.Scheduler.Submit.{submit, submit_open, place, register, request, make_way}
use notmy_fault.Scheduler.Operations.{
  release, prune_after, rule_key_of, on_run_event, release_found, retire_run, retire_at, finish_at,
  retire, finish_worker, finish,
}
use notmy_fault.Scheduler.Steps.{Op, perform}

abbrev EndsCall : Run → Type 0
EndsCall r = r.0 ≢ out_of_fuel

ends_of : (s : Sched) (r : Run) → Settles s r → EndsCall r
ends_of s (done, t) h = λ e. cc
ends_of s (raised, t) h = λ e. cc
ends_of s (out_of_fuel, t) h = λ e. h

place-ends :
    (w : World) (key : String) (e : Entry) (c : Config) (s : Sched) → EndsCall (place w key e c s).1
unfolding place reserve enough
place-ends w key e c s = ground (
  arith,
  ends_of (reserve key e s) (dispatch_entry w (enough s) key e (reserve key e s))
      (entry-Settles w (enough s) key e (reserve key e s) (omega arith)),
)

submit-ends :
    (w : World) (key : String) (rule : Rule) (name : String) (context : Context) (s : Sched)
    → EndsCall (submit w key rule name context s).1
unfolding submit submit_open
submit-ends w key rule name context s =
    let e = request rule name context in
    let c = concurrency_config rule in
    let t = register key s in ground (arith, place-ends w key e c (make_way w key e c.mode t))

prune_after-ends : (key : String) (r : Run) → EndsCall r → EndsCall (prune_after key r)
prune_after-ends key (done, t) h = λ e. cc
prune_after-ends key (raised, t) h = λ e. cc
prune_after-ends key (out_of_fuel, t) h = h

release-ends : (w : World) (key run : String) (s : Sched) → EndsCall (release w key run s)
unfolding release enough
release-ends w key run s =
    let t = record s { active = discard_in s.active key run } in
    prune_after-ends key (dispatch_queued w (enough s) key t) (
      ends_of t (dispatch_queued w (enough s) key t)
        (queued-Settles w (enough s) key t (omega arith)))

finish_worker-ends : (w : World) (k : Worker) (s : Sched) → EndsCall (finish_worker w k s)
unfolding finish_worker enough
finish_worker-ends w k s =
    let t =
      prune k.rule_key
        (record s { executing = discard_in s.executing k.rule_key k.entry.run_id }) in
    ground (
      arith,
      ends_of t (dispatch_available w (enough t) t)
          (available-Settles w (enough t) t (omega arith)),
    )

retire_run-ends :
    (w : World) (returned : Bool) (k : Worker) (s : Sched) → EndsCall (retire_run w returned k s)
unfolding retire_run
retire_run-ends w true k s = ground (arith, release-ends w k.rule_key k.entry.run_id s)
retire_run-ends w false k s = ground (
  arith,
  release-ends w k.rule_key k.entry.run_id (emit workflow_failed k.entry execution_failed s),
)

-- Whatever the state, the limits and the answers of the environment, each call of the scheduler
-- (`submit`, a run event, `drop_rule`, `shutdown`, the end of a run and of a worker) returns or
-- raises: the recursion of the dispatch loop ends.
pub perform-ends : (w : World) (op : Op) (s : Sched) → (perform w op s).0 ≢ out_of_fuel
unfolding perform on_run_event retire finish release_found retire_at finish_at
perform-ends w (Op.submit key rule name context) s = submit-ends w key rule name context s
perform-ends w (Op.run_event kind none) s = λ e. cc
perform-ends w (Op.run_event kind (some run)) s = elim (Option-cases (rule_key_of s.active run)) [
  | inl unknown ↦ ground arith
  | inr (key, found) ↦ ground (arith, release-ends w key run s)
]
perform-ends w (Op.drop key) s = λ e. cc
perform-ends w Op.close s = λ e. cc
perform-ends w (Op.run_ended returned i) s = elim (Option-cases (get_elem? s.workers i)) [
  | inl absent ↦ ground arith
  | inr (k, found) ↦ ground (
    arith,
    retire_run-ends w returned k
        (record s { workers = set s.workers i (record k { phase = retired }) }),
  )
]
perform-ends w (Op.worker_ended i) s = elim (Option-cases (get_elem? s.workers i)) [
  | inl absent ↦ ground arith
  | inr (k, found) ↦ ground (
    arith,
    finish_worker-ends w k
        (record s { workers = remove_at s.workers i; worker_count = s.worker_count - 1 }),
  )
]
