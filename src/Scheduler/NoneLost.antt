-- ===== src/Scheduler/NoneLost.antt =====
-- No submitted run is lost: what each call of the scheduler does to the traces of a run.
use notmy_fault.Prelude.{
  String, ◌≡◌, refl, Bool, true, false, List, [], ◌∷◌, ◌++◌, map, ◌==◌, eq_iff, arith, Bool-cases,
  inl, inr, if◌then◌else◌,
}
use notmy_fault.Prelude.Dict.{Dict, get, remove}
use notmy_fault.Prelude.Texts.{has, add, has-add}
use notmy_fault.Scheduler.Config.{Mode, replace}
use notmy_fault.Scheduler.State.{
  Entry, World, Sched, run_dropped, run_replaced, run_queued, replaced_by_new, rule_deleted,
  engine_closed, members, event, prune, reserve,
}
use notmy_fault.Scheduler.Members.{members-put, members-remove}
use notmy_fault.Scheduler.Frame.{emit_all-events, drop_queues-Aside}
use notmy_fault.Scheduler.Traces.{
  IsKnown, told_of, waits, ids, told, has-append_left, told-append_left, told-emit_all, told-events,
  told-append_right, not_has_nil, ids-append,
}
use notmy_fault.Scheduler.Kept.{
  IsTraced, keep, emit-IsTraced, same-IsTraced, prune-IsTraced, IsTraced-rule, register-IsTraced,
  clear-IsTraced,
}
use notmy_fault.Scheduler.Submit.{make_way, replace_active, cancel_with_retry, with_run, enqueue}
use notmy_fault.Scheduler.Operations.{drop_rule, shutdown, drop_queues}
use notmy_fault.Scheduler.Calls.{Upholds}

module _ (run : String) (want : Bool) where
  abbrev T : Sched → Type 0
  T = IsTraced run want

  if-T : (b : Bool) (t u : Sched) → T t → T u → T (if b then t else u)
  if-T true t u a b = a
  if-T false t u a b = b

  replace_active-T :
      (w : World) (key : String) (e : Entry) (runs : List String) (s : Sched)
      → T s
      → T (replace_active w key e runs s)
  unfolding replace_active
  replace_active-T w key e [] s h = h
  replace_active-T w key e (r ∷ runs) s h = replace_active-T w key e runs _ (
      if-T (cancel_with_retry w r) _ s
        (emit-IsTraced run want run_replaced (with_run e r) replaced_by_new _
          (same-IsTraced run want s _ refl refl refl refl h))
        h)

  pub make_way-T :
      (w : World) (key : String) (e : Entry) (mode : Mode) (s : Sched)
      → T s
      → T (make_way w key e mode s)
  unfolding make_way
  make_way-T w key e replace s h =
      clear-IsTraced run want run_replaced replaced_by_new key _ refl
        (replace_active-T w key e (members s.active key) s h)
  make_way-T w key e _ s h = h

  reserve-T : (key : String) (e : Entry) (s : Sched) → T s → T (reserve key e s)
  unfolding reserve
  reserve-T key e s h = record {
    tidy = h.tidy;
    known =
        keep run want s (reserve key e s) (has-append_left s.prepared (e.run_id ∷ []) run) (λ t. t)
          waits h.known;
  }

  enqueue-T :
      (key : String) (e : Entry) (s : Sched) → T s → has s.removed key ≡ false → T (enqueue key e s)
  unfolding enqueue
  enqueue-T key e s h here = emit-IsTraced run want run_queued e _ _ (record {
    tidy = λ j r. rw members-put (ground (arith, eq_iff key j, h.tidy j));
    known =
        keep run want s _ (λ p. p) (λ t. t)
          (λ j a. waits j (rw members-put (longer j (key == j) refl a))) h.known;
  })
    where
      longer :
          (j : String) (b : Bool)
          → (key == j) ≡ b
          → has (ids (members s.queues j)) run ≡ true
          → has (ids (if b then members s.queues key ++ e ∷ [] else members s.queues j)) run ≡ true
      longer j true same a =
          rw (ids-append, (eq_iff key j).0 same)
            (has-append_left (ids (members s.queues j)) (e.run_id ∷ []) run a)
      longer j false other a = a

  prune-logs :
      (key : String) (s : Sched)
      → ((prune key s).prepared ≡ s.prepared) × ((prune key s).history ≡ s.history)
  unfolding prune
  prune-logs key s = ground arith

  members-prune_ne :
      (key j : String) (s : Sched)
      → (key == j) ≡ false
      → members (prune key s).queues j ≡ members s.queues j
  unfolding prune
  members-prune_ne key j s other = ground (arith, members-remove s.queues key j)

  drop_rule-T : (key : String) (s : Sched) → T s → T (drop_rule key s).1
  unfolding drop_rule
  drop_rule-T key s h = rw emit_all-events (record { tidy = tidied.tidy; known = found })
    where
      s' : Sched
      s' = record s { queues = remove s.queues key; removed = add s.removed key }

      t : Sched
      t = prune key s'

      tidied : IsTraced run false t
      tidied = prune-IsTraced run false key s' (record {
        tidy = λ j r. rw members-remove (ground (arith, h.tidy j, has-add s.removed key j));
        known = λ e. cc;
      })

      queue : List Entry
      queue = members s.queues key

      told_left :
          told s.history run ≡ true
          → told (t.history ++ map (λ e. event run_dropped e rule_deleted) queue) run ≡ true
      told_left a = told-append_left t.history _ run (rw (prune-logs key s').1 a)

      found :
          want ≡ true
          → IsKnown run (record t {
            history = t.history ++ map (λ e. event run_dropped e rule_deleted) queue;
          })
      found =
          keep run want s _ (λ p. rw (prune-logs key s').0 p) told_left
            (λ j a. elim (Bool-cases (key == j)) [
              | inr other ↦ waits j (rw (members-prune_ne key j s' other, members-remove, other) a)
              | inl same ↦ told_of (
                  told-append_right t.history _ run (
                    told-events run_dropped rule_deleted queue run refl
                      (rw ((eq_iff key j).0 same) a)))
            ])
            h.known

  drop_queues-told :
      (d : Dict (List Entry)) (s : Sched)
      → told s.history run ≡ true
      → told (drop_queues d s).history run ≡ true
  unfolding drop_queues
  drop_queues-told [] s h = h
  drop_queues-told ((key, q) ∷ d) s h =
      drop_queues-told d _ (rw emit_all-events (told-append_left s.history _ run h))

  drop_queues-waits :
      (d : Dict (List Entry)) (key : String) (s : Sched)
      → has (ids (members d key)) run ≡ true
      → told (drop_queues d s).history run ≡ true
  unfolding drop_queues get
  drop_queues-waits [] key s h = absurd (not_has_nil run h)
  drop_queues-waits ((j, q) ∷ d) key s h = elim (Bool-cases (j == key)) [
    | inl here ↦
        drop_queues-told d _ (told-emit_all run_dropped engine_closed q s run refl (rw here at h))
    | inr there ↦ drop_queues-waits d key _ (rw there at h)
  ]

  shutdown-T : (s : Sched) → T s → T (shutdown s)
  unfolding shutdown get
  shutdown-T s h =
      let s' = record s { shutting_down = true } in
      record {
        tidy = λ j r. refl;
        known =
            keep run want s _ (λ p. rw (drop_queues-Aside s.queues s').prepared p)
              (drop_queues-told s.queues s') (λ j a. told_of (drop_queues-waits s.queues j s' a))
              h.known;
      }

  pub upholds_traces :
      (w : World)
      → Upholds w (IsTraced run want) (λ key e s. IsTraced run want s) (λ key e. Unit {0})
  upholds_traces w = record {
    loop = IsTraced-rule run want w;
    record_event = emit-IsTraced run want;
    registering = register-IsTraced run want;
    making_way = make_way-T w;
    starting = λ key e s h q up room. reserve-T key e s h;
    queueing = λ key e s h q here few. enqueue-T key e s h here;
    leaving = λ key r s h. same-IsTraced run want s _ refl refl refl refl h;
    dropping = drop_rule-T;
    closing = shutdown-T;
    changing_phase = λ i k s h. same-IsTraced run want s _ refl refl refl refl h;
    ending = λ i k s h found. same-IsTraced run want s _ refl refl refl refl h;
    executed = λ key r s h. same-IsTraced run want s _ refl refl refl refl h;
  }
