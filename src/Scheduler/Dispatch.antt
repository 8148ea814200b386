-- ===== src/Scheduler/Dispatch.antt =====
-- `_dispatch_entry`, `_dispatch_queued_locked` and `_dispatch_available_locked`. They call one
-- another: a worker that cannot be started gives its place to the next queued run. The recursion
-- takes fuel; `enough` is what the callers give.
use notmy_fault.Prelude.{
  ℕ, zero, suc, ◌+◌, ◌*◌, String, Option, none, some, Bool, true, false, List, [], ◌∷◌, ◌&&◌,
  length, ltb, eqb, if◌then◌else◌,
}
use notmy_fault.Prelude.Dict.{get, put, keys}
use notmy_fault.Scheduler.Config.{concurrency_config, max_running}
use notmy_fault.Scheduler.State.{Entry, World, Sched, reserve, spawned, abandon, prune, pending}

-- How a call ends: it returns, an exception leaves it, or the model's fuel is used up.
pub data Outcome : Type 0 where
  done raised out_of_fuel : Outcome

abbrev pub Run : Type 0
Run = Outcome × Sched

-- The statement after a call is run only if the call returned.
abbrev pub and_then : Run → (Sched → Run) → Run
and_then (done, s) f = f s
and_then (raised, s) f = (raised, s)
and_then (out_of_fuel, s) f = (out_of_fuel, s)

-- The handler ends in `raise`.
abbrev pub re_raise : Run → Run
re_raise (done, s) = (raised, s)
re_raise (raised, s) = (raised, s)
re_raise (out_of_fuel, s) = (out_of_fuel, s)

-- The condition of the `while` and the `break` in it, on the head of the queue.
admit : World → Sched → Option (List String) → List Entry → Option (Entry × List Entry)
admit w s none q = none
admit w s (some runs) [] = none
admit w s (some runs) (e ∷ q) =
    if ltb s.worker_count w.max_workers
      && ltb (length runs) (max_running w.max_workers (concurrency_config e.rule))
    then some (e, q)
    else none

abbrev queue_of : Option (List Entry) → List Entry
queue_of none = []
queue_of (some q) = q

-- The next run to start for the rule, with the rest of its queue.
unfoldable pub next_run : World → String → Sched → Option (Entry × List Entry)
unfolding admit
next_run w key s =
    if s.shutting_down then none else admit w s (get s.active key) (queue_of (get s.queues key))

unfoldable pub dequeue : String → Entry → List Entry → Sched → Sched
dequeue key e q s = reserve key e (record s { queues = put s.queues key q })

-- self._worker_count < self._max_workers
unfoldable pub has_room : World → Sched → Bool
has_room w s = ltb s.worker_count w.max_workers

-- The `for` over the queues' keys, with its `break` once all workers are busy.
unfoldable pub for_keys : World → (String → Sched → Run) → List String → Sched → Run
for_keys w visit [] s = (done, s)
for_keys w visit (key ∷ rest) s = and_then (visit key s) (λ t.
    let t' = prune key t in
    elim (has_room w t') [ true ↦ for_keys w visit rest t' | false ↦ (done, t') ])

-- self._worker_count == before
unfoldable pub unchanged : Sched → Sched → Bool
unchanged before s = eqb s.worker_count before.worker_count

unfoldable mutual
  pub dispatch_entry : World → ℕ → String → Entry → Sched → Run
  dispatch_entry w zero key e s = (out_of_fuel, s)
  dispatch_entry w (suc fuel) key e s = elim (w.spawn s.spawns) [
    | true ↦ (done, spawned key e s)
    | false ↦ re_raise (dispatch_available w fuel (abandon key e s))
  ]

  pub dispatch_queued : World → ℕ → String → Sched → Run
  dispatch_queued w zero key s = (out_of_fuel, s)
  dispatch_queued w (suc fuel) key s = elim (next_run w key s) [
    | none ↦ (done, s)
    | some next ↦
        and_then (dispatch_entry w fuel key next.0 (dequeue key next.0 next.1 s))
          (dispatch_queued w fuel key)
  ]

  pub dispatch_available : World → ℕ → Sched → Run
  dispatch_available w zero s = (out_of_fuel, s)
  dispatch_available w (suc fuel) s = elim (has_room w s) [
    | false ↦ (done, s)
    | true ↦
        and_then (for_keys w (dispatch_queued w fuel) (keys s.queues) s)
          (λ t. elim (unchanged s t) [ true ↦ (done, t) | false ↦ dispatch_available w fuel t ])
  ]

-- Each queued run takes at most three nested calls.
unfoldable pub enough : Sched → ℕ
enough s = 3 * pending s.queues + 4
