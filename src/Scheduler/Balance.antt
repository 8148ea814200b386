-- ===== src/Scheduler/Balance.antt =====
-- The scheduler's counters and limits hold in every state that its calls reach.
use notmy_fault.Prelude.{String, ◌≡◌, refl, sym, true, arith, length-set, length-remove_at}
use notmy_fault.Prelude.Texts.{add}
use notmy_fault.Prelude.Dict.{remove}
use notmy_fault.Scheduler.Config.{concurrency_config}
use notmy_fault.Scheduler.State.{Kind, Reason, Entry, World, Sched, emit, pending, pending_limit}
use notmy_fault.Scheduler.Pending.{pending-remove-le}
use notmy_fault.Scheduler.Frame.{emit_all-events}
use notmy_fault.Scheduler.Operations.{drop_rule, shutdown}
use notmy_fault.Scheduler.Steps.{Op, perform, Reach, begin, next}
use notmy_fault.Scheduler.Calls.{Upholds, perform_rule}
use notmy_fault.Scheduler.Frame.{drop_queues-Aside}
use notmy_fault.Scheduler.Bounds.{
  IsBounded, IsReserved, IsBounded-rule, reserve-IsReserved, enqueue-IsBounded, make_way-IsBounded,
  register-IsBounded, prune-IsBounded,
}

module _ (w : World) where
  emit-IsBounded :
      (kind : Kind) (e : Entry) (reason : Reason) (s : Sched)
      → IsBounded w s
      → IsBounded w (emit kind e reason s)
  unfolding emit
  emit-IsBounded kind e reason s h = record {
    counted = h.counted;
    busy = h.busy;
    waiting = h.waiting;
  }

  drop_rule-IsBounded : (key : String) (s : Sched) → IsBounded w s → IsBounded w (drop_rule key s).1
  unfolding drop_rule
  drop_rule-IsBounded key s h =
      let t = record s { queues = remove s.queues key; removed = add s.removed key } in
      let ht : IsBounded w t = record {
        counted = h.counted;
        busy = h.busy;
        waiting = omega (arith, pending-remove-le s.queues key, h.waiting);
      } in
      let hu = prune-IsBounded w key t ht in
      rw emit_all-events (record { counted = hu.counted; busy = hu.busy; waiting = hu.waiting })

  shutdown-IsBounded : (s : Sched) → IsBounded w s → IsBounded w (shutdown s)
  unfolding shutdown pending
  shutdown-IsBounded s h =
      let a = drop_queues-Aside s.queues (record s { shutting_down = true }) in
      record {
        counted = rw (a.worker_count, a.workers) h.counted;
        busy = rw a.worker_count h.busy;
        waiting = omega arith;
      }

  upholds_bounds : Upholds w (IsBounded w) (λ key e s. IsReserved w s) (λ key e. Unit {0})
  upholds_bounds = record {
    loop = IsBounded-rule w;
    record_event = emit-IsBounded;
    registering = register-IsBounded w;
    making_way = make_way-IsBounded w;
    starting =
        λ key e s h q up room. reserve-IsReserved w key e (concurrency_config e.rule) s h room;
    queueing = λ key e s h q here few. enqueue-IsBounded w key e s h few;
    leaving = λ key run s h. record { counted = h.counted; busy = h.busy; waiting = h.waiting };
    dropping = drop_rule-IsBounded;
    closing = shutdown-IsBounded;
    changing_phase = λ i k s h. record {
      counted = omega (arith, h.counted, length-set s.workers i k);
      busy = h.busy;
      waiting = h.waiting;
    };
    ending = λ i k s h found. record {
      counted = omega (arith, h.counted, length-remove_at s.workers i k found);
      busy = omega (arith, h.busy);
      waiting = h.waiting;
    };
    executed = λ key run s h. record { counted = h.counted; busy = h.busy; waiting = h.waiting };
  }

-- A call keeps the counters and the limits, whatever the environment answers.
pub perform-IsBounded :
    (w : World) (op : Op) (s : Sched) → IsBounded w s → IsBounded w (perform w op s).1
perform-IsBounded w (Op.submit key rule name context) s h =
    perform_rule (upholds_bounds w) (Op.submit key rule name context) s h tt
perform-IsBounded w op s h = perform_rule (upholds_bounds w) op s h tt

pending_limit-of :
    (w v : World)
    → v.max_workers ≡ w.max_workers
    → v.max_pending_runs ≡ w.max_pending_runs
    → pending_limit v ≡ pending_limit w
unfolding pending_limit
pending_limit-of w v h k = rw (h, k)

IsBounded-world :
    (w v : World) (s : Sched)
    → v.max_workers ≡ w.max_workers
    → v.max_pending_runs ≡ w.max_pending_runs
    → IsBounded w s
    → IsBounded v s
IsBounded-world w v s h k b = record {
  counted = b.counted;
  busy = rw h b.busy;
  waiting = rw (pending_limit-of w v h k) b.waiting;
}

-- In every state that calls of the scheduler reach, whatever their order and whatever the threads
-- and the cancel function answer: `_worker_count` is the number of workers that have not ended, it
-- is at most `max_workers`, and at most `max_pending_runs` runs wait in all queues together.
pub Reach-IsBounded :
    (w : World) (s : Sched) → Reach w.max_workers w.max_pending_runs s → IsBounded w s
unfolding pending
Reach-IsBounded w s begin = record { counted = refl; busy = omega arith; waiting = omega arith }
Reach-IsBounded w s (next v op h k r) =
    IsBounded-world v w _ (sym h) (sym k)
      (perform-IsBounded v op _ (IsBounded-world w v _ h k (Reach-IsBounded w _ r)))
