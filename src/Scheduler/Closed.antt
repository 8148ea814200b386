-- ===== src/Scheduler/Closed.antt =====
-- After `shutdown` nothing starts any more.
use notmy_fault.Prelude.{
  ℕ, ◌≤◌, String, ◌≡◌, ◌∙◌, some, true, false, List, [], ◌∷◌, arith, length, length-set,
  length-remove_at,
}
use notmy_fault.Prelude.Texts.{add}
use notmy_fault.Prelude.Dict.{remove}
use notmy_fault.Scheduler.State.{Entry, World, Sched, Kind, Reason, prune, emit}
use notmy_fault.Scheduler.Dispatch.{next_run}
use notmy_fault.Scheduler.Rule.{Keeps}
use notmy_fault.Scheduler.Frame.{
  make_way_frame, make_way-shutting_down, emit_all-events, drop_queues-Aside,
}
use notmy_fault.Scheduler.Submit.{register, enqueue}
use notmy_fault.Scheduler.Operations.{drop_rule, shutdown}
use notmy_fault.Scheduler.Steps.{Op, perform}
use notmy_fault.Scheduler.Calls.{Upholds, perform_rule}

-- The scheduler is shutting down and at most `n` workers are left.
pub record IsClosed (n : ℕ) (s : Sched) : Type 0 where
  pub closing : s.shutting_down ≡ true
  pub left : length s.workers ≤ n

no_next_run :
    (w : World) (key : String) (e : Entry) (q : List Entry) (s : Sched)
    → s.shutting_down ≡ true
    → next_run w key s ≡ some (e, q)
    → ⊥
unfolding next_run
no_next_run w key e q s h k = ground arith

prune-IsClosed : (n : ℕ) (key : String) (s : Sched) → IsClosed n s → IsClosed n (prune key s)
unfolding prune
prune-IsClosed n key s h = ground (arith, h.closing, h.left)

IsClosed-rule : (w : World) (n : ℕ) → Keeps w (IsClosed n) (λ key e s. ⊥)
IsClosed-rule w n = record {
  reserve = λ key e q s h next. no_next_run w key e q s h.closing next;
  start = λ key e s r. absurd r;
  fail = λ key e s r. absurd r;
  clean = prune-IsClosed n;
}

module _ (n : ℕ) where
  register-IsClosed : (key : String) (s : Sched) → IsClosed n s → IsClosed n (register key s)
  unfolding register
  register-IsClosed key s h = record { closing = h.closing; left = h.left }

  emit-IsClosed :
      (kind : Kind) (e : Entry) (reason : Reason) (s : Sched)
      → IsClosed n s
      → IsClosed n (emit kind e reason s)
  unfolding emit
  emit-IsClosed kind e reason s h = record { closing = h.closing; left = h.left }

  enqueue-IsClosed :
      (key : String) (e : Entry) (s : Sched) → IsClosed n s → IsClosed n (enqueue key e s)
  unfolding enqueue
  enqueue-IsClosed key e s h = record { closing = h.closing; left = h.left }

  drop_rule-IsClosed : (key : String) (s : Sched) → IsClosed n s → IsClosed n (drop_rule key s).1
  unfolding drop_rule
  drop_rule-IsClosed key s h =
      let t = record s { queues = remove s.queues key; removed = add s.removed key } in
      let ht = prune-IsClosed n key t (record { closing = h.closing; left = h.left }) in
      rw emit_all-events (record { closing = ht.closing; left = ht.left })

  shutdown-IsClosed : (s : Sched) → length s.workers ≤ n → IsClosed n (shutdown s)
  unfolding shutdown
  shutdown-IsClosed s h =
      let a = drop_queues-Aside s.queues (record s { shutting_down = true }) in
      record { closing = a.shutting_down; left = rw a.workers h }

  upholds-IsClosed : (w : World) → Upholds w (IsClosed n) (λ key e s. ⊥) (λ key e. Unit {0})
  upholds-IsClosed w = record {
    loop = IsClosed-rule w n;
    record_event = emit-IsClosed;
    registering = register-IsClosed;
    making_way = λ key e mode s h.
        let (count, same, fewer) = make_way_frame w key e mode s in
        record {
          closing = make_way-shutting_down w key e mode s ∙ h.closing;
          left = rw same h.left;
        };
    starting = λ key e s h q up room. contradiction s h up;
    queueing = λ key e s h q here few. enqueue-IsClosed key e s h;
    leaving = λ key run s h. record { closing = h.closing; left = h.left };
    dropping = drop_rule-IsClosed;
    closing = λ s h. shutdown-IsClosed s h.left;
    changing_phase = λ i k s h. record {
      closing = h.closing;
      left = omega (arith, h.left, length-set s.workers i k);
    };
    ending = λ i k s h found. record {
      closing = h.closing;
      left = omega (arith, h.left, length-remove_at s.workers i k found);
    };
    executed = λ key run s h. record { closing = h.closing; left = h.left };
  }
    where
      contradiction : (s : Sched) → IsClosed n s → s.shutting_down ≡ false → ⊥
      contradiction s h up = cc h.closing

-- Calls one after another, each with the answers of its own environment.
abbrev pub run_calls : List (World × Op) → Sched → Sched
run_calls [] s = s
run_calls ((w, op) ∷ calls) s = run_calls calls (perform w op s).1

IsClosed-calls :
    (n : ℕ) (calls : List (World × Op)) (s : Sched) → IsClosed n s → IsClosed n (run_calls calls s)
IsClosed-calls n [] s h = h
IsClosed-calls n ((w, op) ∷ calls) s h =
    IsClosed-calls n calls (perform w op s).1 (closed_call w op s h)
  where
    closed_call : (w : World) (op : Op) (s : Sched) → IsClosed n s → IsClosed n (perform w op s).1
    closed_call w (Op.submit key rule name context) s h =
        perform_rule (upholds-IsClosed n w) (Op.submit key rule name context) s h tt
    closed_call w op s h = perform_rule (upholds-IsClosed n w) op s h tt

-- After `shutdown`, whatever calls follow: the scheduler stays shut down and no worker is added to
-- those that are left.
pub shutdown_starts_nothing :
    (s : Sched) (calls : List (World × Op))
    → ((run_calls calls (shutdown s)).shutting_down ≡ true)
      × (length (run_calls calls (shutdown s)).workers ≤ length s.workers)
shutdown_starts_nothing s calls =
    let h =
      IsClosed-calls (length s.workers) calls (shutdown s)
        (shutdown-IsClosed (length s.workers) s (omega arith)) in
    (h.closing, h.left)
