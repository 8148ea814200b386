-- ===== src/Scheduler/Limit.antt =====
-- No rule has more active runs than its `max_concurrency` allows.
use notmy_fault.Prelude.{
  ℕ, ◌≤◌, ◌<◌, String, ◌≡◌, refl, ap, ◌∙◌, some, Bool, true, false, List, [], ◌∷◌, arith, length,
  inl, inr, subst, Bool-cases, All, All-append, if◌then◌else◌, ◌==◌, ◌&&◌, eq_iff,
}
use notmy_fault.Prelude.Texts.{has, add, length-add-le}
use notmy_fault.Prelude.Dict.{Dict, get, remove}
use notmy_fault.Scheduler.Config.{Mode, replace, concurrency_config, max_running}
use notmy_fault.Scheduler.State.{
  Entry, World, Sched, Kind, Reason, prune, members, emit, start, reserve, spawned, abandon,
  is_empty, run_replaced, replaced_by_new, run_dropped, engine_closed,
}
use notmy_fault.Scheduler.Dispatch.{next_run, dequeue}
use notmy_fault.Scheduler.Rule.{Keeps}
use notmy_fault.Scheduler.Members.{
  members-put, members-remove, members-set_default, length-discard_in-le,
}
use notmy_fault.Scheduler.Frame.{emit_all-events}
use notmy_fault.Scheduler.Submit.{
  register, make_way, replace_active, cancel_with_retry, with_run, may_start, enqueue,
}
use notmy_fault.Scheduler.Operations.{drop_queues, drop_rule, shutdown}
use notmy_fault.Scheduler.Steps.{Op}
use notmy_fault.Scheduler.Calls.{Upholds, Allowed, perform_rule}
use notmy_fault.Scheduler.Closed.{run_calls}

module _ (m : ℕ) (key : String) (n : ℕ) where
  -- The rule snapshot of a run allows at most `n` runs at once, with `m` workers in all.
  abbrev pub Within : Entry → Type 0
  Within e = max_running m (concurrency_config e.rule) ≤ n

  pub record IsLimited (s : Sched) : Type 0 where
    pub running : length (members s.active key) ≤ n
    pub waiting : All Within (members s.queues key)

  -- A run of the rule is submitted within the limit; runs of other rules are free.
  abbrev pub Asks : String → Entry → Type 0
  Asks j e = (j == key) ≡ true → Within e

  next_run_limit :
      (w : World) (j : String) (e : Entry) (q : List Entry) (s : Sched)
      → w.max_workers ≡ m
      → next_run w j s ≡ some (e, q)
      → (length (members s.active j) < max_running m (concurrency_config e.rule))
        × (members s.queues j ≡ e ∷ q)
  unfolding next_run
  next_run_limit w j e q s same next = ground arith

  limited :
      (active : Dict (List String)) (queues : Dict (List Entry)) (s : Sched)
      → length (members active key) ≤ n
      → All Within (members queues key)
      → IsLimited (record s { active = active; queues = queues })
  limited active queues s a b = record { running = a; waiting = b }

  dequeue-IsLimited :
      (w : World) (j : String) (e : Entry) (q : List Entry) (s : Sched)
      → w.max_workers ≡ m
      → IsLimited s
      → next_run w j s ≡ some (e, q)
      → IsLimited (dequeue j e q s)
  unfolding dequeue reserve
  dequeue-IsLimited w j e q s same h next =
      let (room, head) = next_run_limit w j e q s same next in
      elim (Bool-cases (j == key)) [
        | inl here ↦
            let jk = (eq_iff j key).0 here in
            let all_e : Within e × All Within q = subst (All Within) (head' jk head) h.waiting in
            record {
              running =
                  rw (members-put, here)
                    (omega (arith, length-add-le (members s.active j) e.run_id, all_e.0));
              waiting = rw (members-put, here) all_e.1;
            }
        | inr there ↦ record {
          running = rw (members-put, there) h.running;
          waiting = rw (members-put, there) h.waiting;
        }
      ]
    where
      head' : j ≡ key → members s.queues j ≡ e ∷ q → members s.queues key ≡ e ∷ q
      head' p k = rw (← p) k

  abandon-IsLimited : (j : String) (e : Entry) (s : Sched) → IsLimited s → IsLimited (abandon j e s)
  unfolding abandon
  abandon-IsLimited j e s h = record {
    running = omega (arith, h.running, length-discard_in-le s.active j e.run_id key);
    waiting = h.waiting;
  }

  if-nil : (b : Bool) (q : List Entry) → All Within q → All Within (if b then [] else q)
  if-nil true q h = tt
  if-nil false q h = h

  if-length : (b : Bool) (q : List String) → length (if b then [] else q) ≤ length q
  if-length true q = omega arith
  if-length false q = omega arith

  prune-IsLimited : (j : String) (s : Sched) → IsLimited s → IsLimited (prune j s)
  unfolding prune
  prune-IsLimited j s h =
      elim (Bool-cases
        (has s.removed j && is_empty (members s.active j) && is_empty (members s.executing j))) [
          | inl gone ↦ rw gone (record {
            running =
                rw members-remove
                  (omega (arith, h.running, if-length (j == key) (members s.active key)));
            waiting = rw members-remove (if-nil (j == key) (members s.queues key) h.waiting);
          })
          | inr kept ↦ rw kept h
        ]

  limit_rule : (w : World) → w.max_workers ≡ m → Keeps w IsLimited (λ j e s. IsLimited s)
  unfolding spawned
  limit_rule w same = record {
    reserve = λ j e q s h next. dequeue-IsLimited w j e q s same h next;
    start = λ j e s h. record { running = h.running; waiting = h.waiting };
    fail = abandon-IsLimited;
    clean = prune-IsLimited;
  }

  emit-IsLimited :
      (kind : Kind) (e : Entry) (reason : Reason) (s : Sched)
      → IsLimited s
      → IsLimited (emit kind e reason s)
  unfolding emit
  emit-IsLimited kind e reason s h = record { running = h.running; waiting = h.waiting }

  register-IsLimited : (j : String) (s : Sched) → IsLimited s → IsLimited (register j s)
  unfolding register
  register-IsLimited j s h = record {
    running = rw members-set_default h.running;
    waiting = rw members-set_default h.waiting;
  }

  replace_active-IsLimited :
      (w : World) (j : String) (e : Entry) (runs : List String) (s : Sched)
      → IsLimited s
      → IsLimited (replace_active w j e runs s)
  unfolding replace_active
  replace_active-IsLimited w j e [] s h = h
  replace_active-IsLimited w j e (run ∷ runs) s h = replace_active-IsLimited w j e runs _ (
      if-IsLimited (cancel_with_retry w run) _ s
        (emit-IsLimited run_replaced (with_run e run) replaced_by_new _ (record {
          running = omega (arith, h.running, length-discard_in-le s.active j run key);
          waiting = h.waiting;
        }))
        h)
    where
      if-IsLimited :
          (b : Bool) (t u : Sched) → IsLimited t → IsLimited u → IsLimited (if b then t else u)
      if-IsLimited true t u a b = a
      if-IsLimited false t u a b = b

  make_way-IsLimited :
      (w : World) (j : String) (e : Entry) (mode : Mode) (s : Sched)
      → IsLimited s
      → IsLimited (make_way w j e mode s)
  unfolding make_way
  make_way-IsLimited w j e replace s h =
      let t = replace_active w j e (members s.active j) s in
      let ht = replace_active-IsLimited w j e (members s.active j) s h in
      rw emit_all-events (record {
        running = ht.running;
        waiting = rw members-put (if-nil (j == key) (members t.queues key) ht.waiting);
      })
  make_way-IsLimited w j e _ s h = h

  reserve-IsLimited :
      (w : World) (j : String) (e : Entry) (s : Sched)
      → w.max_workers ≡ m
      → IsLimited s
      → Asks j e
      → may_start w j (concurrency_config e.rule) s ≡ true
      → IsLimited (reserve j e s)
  unfolding reserve may_start
  reserve-IsLimited w j e s same h q room = record {
    running =
        rw members-put
          (ground (arith, eq_iff j key, length-add-le (members s.active j) e.run_id, h.running));
    waiting = h.waiting;
  }

  enqueue-IsLimited :
      (j : String) (e : Entry) (s : Sched) → IsLimited s → Asks j e → IsLimited (enqueue j e s)
  unfolding enqueue
  enqueue-IsLimited j e s h q = elim (Bool-cases (j == key)) [
    | inl here ↦ record {
      running = h.running;
      waiting =
          rw (members-put, here)
            (All-append Within (members s.queues j) (e ∷ []) (rw ((eq_iff j key).0 here) h.waiting)
              (q here, tt));
    }
    | inr there ↦ record { running = h.running; waiting = rw (members-put, there) h.waiting }
  ]

  drop_rule-IsLimited : (j : String) (s : Sched) → IsLimited s → IsLimited (drop_rule j s).1
  unfolding drop_rule
  drop_rule-IsLimited j s h =
      let t = record s { queues = remove s.queues j; removed = add s.removed j } in
      let ht = prune-IsLimited j t (record {
        running = h.running;
        waiting = rw members-remove (if-nil (j == key) (members s.queues key) h.waiting);
      }) in
      rw emit_all-events (record { running = ht.running; waiting = ht.waiting })

  drop_queues-active : (d : Dict (List Entry)) (s : Sched) → (drop_queues d s).active ≡ s.active
  unfolding drop_queues
  drop_queues-active [] s = refl
  drop_queues-active ((j, q) ∷ d) s =
      drop_queues-active d _ ∙ ap (λ t. t.active) (emit_all-events run_dropped engine_closed q s)

  shutdown-IsLimited : (s : Sched) → IsLimited s → IsLimited (shutdown s)
  unfolding shutdown get
  shutdown-IsLimited s h = record {
    running = rw (drop_queues-active s.queues (record s { shutting_down = true })) h.running;
    waiting = tt;
  }

  upholds_limit : (w : World) → w.max_workers ≡ m → Upholds w IsLimited (λ j e s. IsLimited s) Asks
  upholds_limit w same = record {
    loop = limit_rule w same;
    record_event = emit-IsLimited;
    registering = register-IsLimited;
    making_way = make_way-IsLimited w;
    starting = λ j e s h q up room. reserve-IsLimited w j e s same h q room;
    queueing = λ j e s h q here few. enqueue-IsLimited j e s h q;
    leaving = λ j run s h. record {
      running = omega (arith, h.running, length-discard_in-le s.active j run key);
      waiting = h.waiting;
    };
    dropping = drop_rule-IsLimited;
    closing = shutdown-IsLimited;
    changing_phase = λ i k s h. record { running = h.running; waiting = h.waiting };
    ending = λ i k s h found. record { running = h.running; waiting = h.waiting };
    executed = λ j run s h. record { running = h.running; waiting = h.waiting };
  }

  -- A call with the constructor's number of workers that asks for no more than the limit.
  abbrev pub IsWithin : World × Op → Type 0
  IsWithin c = (c.0.max_workers ≡ m) × Allowed Asks c.1

  calls-IsLimited :
      (calls : List (World × Op)) (s : Sched)
      → All IsWithin calls
      → IsLimited s
      → IsLimited (run_calls calls s)
  calls-IsLimited [] s a h = h
  calls-IsLimited ((w, op) ∷ calls) s a h =
      calls-IsLimited calls _ a.1 (perform_rule (upholds_limit w a.0.0) op s h a.0.1)

-- If every run that is submitted for a rule asks for at most `n` runs at once (by its
-- `max_concurrency`, or by the default of its mode), then at no time are more than `n` runs of the
-- rule active, whatever other calls come between and however runs end or fail to start.
pub active_limit :
    (m : ℕ) (key : String) (n : ℕ) (calls : List (World × Op))
    → All (IsWithin m key n) calls
    → length (members (run_calls calls start).active key) ≤ n
unfolding get
active_limit m key n calls a =
    (calls-IsLimited m key n calls start a (record { running = omega arith; waiting = tt })).running
