-- ===== src/Scheduler/Bounds.antt =====
-- The scheduler's counters and limits, kept by the dispatch loop and by `submit`.
use notmy_fault.Prelude.{
  ◌+◌, ◌≤◌, ◌<◌, String, ◌≡◌, refl, ap, Option, some, true, false, List, [], ◌∷◌, ◌++◌, arith,
  length, inl, inr, Option-cases, leb, length-append,
}
use notmy_fault.Prelude.Dict.{Dict, get}
use notmy_fault.Scheduler.Config.{Mode, Config, or_else}
use notmy_fault.Scheduler.State.{
  Entry, World, Sched, members, pending, prune, pending_limit, spawned, abandon, reserve,
}
use notmy_fault.Scheduler.Dispatch.{next_run, dequeue}
use notmy_fault.Scheduler.Rule.{Keeps}
use notmy_fault.Scheduler.Pending.{pending-put, pending-remove-le}
use notmy_fault.Scheduler.Fuel.{dequeue_load}
use notmy_fault.Scheduler.Frame.{make_way_frame}
use notmy_fault.Scheduler.Submit.{register, make_way, set_default, enqueue, may_start}

-- `_worker_count` counts the workers, no more than `max_workers` of them, and no more runs wait
-- than the queues may hold.
pub record IsBounded (w : World) (s : Sched) : Type 0 where
  pub counted : s.worker_count ≡ length s.workers
  pub busy : s.worker_count ≤ w.max_workers
  pub waiting : pending s.queues ≤ pending_limit w

-- The same between a reservation and the start of its worker.
pub record IsReserved (w : World) (s : Sched) : Type 0 where
  pub counted : s.worker_count ≡ length s.workers + 1
  pub busy : s.worker_count ≤ w.max_workers
  pub waiting : pending s.queues ≤ pending_limit w

module _ (w : World) where
  next_run-room :
      (key : String) (e : Entry) (q : List Entry) (s : Sched)
      → next_run w key s ≡ some (e, q)
      → s.worker_count < w.max_workers
  unfolding next_run
  next_run-room key e q s h = ground arith

  workers-dequeue :
      (key : String) (e : Entry) (q : List Entry) (s : Sched)
      → length (dequeue key e q s).workers ≡ length s.workers
  unfolding dequeue reserve
  workers-dequeue key e q s = refl

  spawned-IsBounded :
      (key : String) (e : Entry) (s : Sched) → IsReserved w s → IsBounded w (spawned key e s)
  unfolding spawned
  spawned-IsBounded key e s r = record {
    counted = rw length-append (omega (arith, r.counted));
    busy = r.busy;
    waiting = r.waiting;
  }

  abandon-IsBounded :
      (key : String) (e : Entry) (s : Sched) → IsReserved w s → IsBounded w (abandon key e s)
  unfolding abandon
  abandon-IsBounded key e s r = record {
    counted = omega (arith, r.counted);
    busy = omega (arith, r.busy);
    waiting = r.waiting;
  }

  pub prune-IsBounded : (key : String) (s : Sched) → IsBounded w s → IsBounded w (prune key s)
  unfolding prune
  prune-IsBounded key s h = ground (arith, pending-remove-le s.queues key)

  pub IsBounded-rule : Keeps w (IsBounded w) (λ key e s. IsReserved w s)
  IsBounded-rule = record {
    reserve = λ key e q s h next.
        let (one, gone) = dequeue_load w key e q s next in
        let room = next_run-room key e q s next in
        let same = workers-dequeue key e q s in
        record {
          counted = omega (arith, h.counted);
          busy = omega arith;
          waiting = omega (arith, h.waiting);
        };
    start = spawned-IsBounded;
    fail = abandon-IsBounded;
    clean = prune-IsBounded;
  }

  pending-set_default :
      (d : Dict (List Entry)) (key : String) → pending (set_default d key) ≡ pending d
  pending-set_default d key = elim (Option-cases (get d key)) [
    | inl new ↦
        rw (new, set_default)
          (omega (
            arith,
            pending-put d key [],
            ap (λ (o : Option (List Entry)). length (or_else o [])) new,
          ))
    | inr (q, old) ↦ rw (old, set_default)
  ]

  pub register-IsBounded : (key : String) (s : Sched) → IsBounded w s → IsBounded w (register key s)
  unfolding register
  register-IsBounded key s h = record {
    counted = h.counted;
    busy = h.busy;
    waiting = rw pending-set_default h.waiting;
  }

  pub make_way-IsBounded :
      (key : String) (e : Entry) (mode : Mode) (s : Sched)
      → IsBounded w s
      → IsBounded w (make_way w key e mode s)
  make_way-IsBounded key e mode s h =
      let (count, same, fewer) = make_way_frame w key e mode s in
      record {
        counted = rw (count, same) h.counted;
        busy = rw count h.busy;
        waiting = omega (arith, h.waiting);
      }

  pub reserve-IsReserved :
      (key : String) (e : Entry) (c : Config) (s : Sched)
      → IsBounded w s
      → may_start w key c s ≡ true
      → IsReserved w (reserve key e s)
  unfolding reserve may_start
  reserve-IsReserved key e c s h room = ground (arith, h.counted, h.busy, h.waiting)

  pub enqueue-IsBounded :
      (key : String) (e : Entry) (s : Sched)
      → IsBounded w s
      → leb (pending_limit w) (pending s.queues) ≡ false
      → IsBounded w (enqueue key e s)
  unfolding enqueue
  enqueue-IsBounded key e s h room = record {
    counted = h.counted;
    busy = h.busy;
    waiting =
        let less : pending s.queues < pending_limit w = ground arith in
        omega (
          arith,
          pending-put s.queues key (members s.queues key ++ e ∷ []),
          length-append (members s.queues key) (e ∷ []),
        );
  }
