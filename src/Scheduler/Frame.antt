-- ===== src/Scheduler/Frame.antt =====
-- What the parts of the scheduler's calls leave alone.
use mathlib.Core.List.{append-nil, append_assoc}
use notmy_fault.Prelude.{
  ◌≤◌, String, ◌≡◌, refl, ◌∙◌, Bool, true, false, List, [], ◌∷◌, ◌++◌, map, arith, if◌then◌else◌,
}
use text.Mathlib.TextPositions.{eq_refl}
use notmy_fault.Prelude.Texts.{has, has-discard}
use notmy_fault.Prelude.Dict.{Dict}
use notmy_fault.Scheduler.State.{
  Kind, Reason, Entry, World, Sched, emit, emit_all, event, members, discard_in, run_replaced,
  replaced_by_new, pending,
}
use notmy_fault.Scheduler.Pending.{pending-put}
use notmy_fault.Scheduler.Config.{Mode, replace}
use notmy_fault.Scheduler.Operations.{drop_queues}
use notmy_fault.Scheduler.Submit.{replace_active, make_way, register, with_run, cancel_with_retry}

-- One history event for each entry, in the queue's order, and nothing else.
pub emit_all-events :
    (kind : Kind) (reason : Reason) (q : List Entry) (s : Sched)
    → emit_all kind reason q s
      ≡ record s { history = s.history ++ map (λ e. event kind e reason) q }
unfolding emit_all
emit_all-events kind reason [] s = rw append-nil
emit_all-events kind reason (e ∷ q) s =
    emit_all-events kind reason q (emit kind e reason s) ∙ (rw append_assoc)

-- Only `active` and `history` may differ.
pub record Aside (s t : Sched) : Type 0 where
  pub executing : t.executing ≡ s.executing
  pub queues : t.queues ≡ s.queues
  pub removed : t.removed ≡ s.removed
  pub worker_count : t.worker_count ≡ s.worker_count
  pub shutting_down : t.shutting_down ≡ s.shutting_down
  pub workers : t.workers ≡ s.workers
  pub prepared : t.prepared ≡ s.prepared

Aside-trans : {s t u : Sched} → Aside s t → Aside t u → Aside s u
Aside-trans a b = record {
  executing = b.executing ∙ a.executing;
  queues = b.queues ∙ a.queues;
  removed = b.removed ∙ a.removed;
  worker_count = b.worker_count ∙ a.worker_count;
  shutting_down = b.shutting_down ∙ a.shutting_down;
  workers = b.workers ∙ a.workers;
  prepared = b.prepared ∙ a.prepared;
}

Aside-one :
    (b : Bool) (key run : String) (e : Entry) (s : Sched)
    → Aside s (
        if b
        then emit run_replaced
            (with_run e run)
            replaced_by_new
            (record s { active = discard_in s.active key run })
        else s)
unfolding emit
Aside-one true key run e s = record {
  executing = refl;
  queues = refl;
  removed = refl;
  worker_count = refl;
  shutting_down = refl;
  workers = refl;
  prepared = refl;
}
Aside-one false key run e s = record {
  executing = refl;
  queues = refl;
  removed = refl;
  worker_count = refl;
  shutting_down = refl;
  workers = refl;
  prepared = refl;
}

pub replace_active-Aside :
    (w : World) (key : String) (e : Entry) (runs : List String) (s : Sched)
    → Aside s (replace_active w key e runs s)
unfolding replace_active
replace_active-Aside w key e [] s = record {
  executing = refl;
  queues = refl;
  removed = refl;
  worker_count = refl;
  shutting_down = refl;
  workers = refl;
  prepared = refl;
}
replace_active-Aside w key e (run ∷ runs) s =
    Aside-trans (Aside-one (cancel_with_retry w run) key run e s)
      (replace_active-Aside w key e runs _)

-- What `make_way` keeps in every mode: the workers, and room in the queues.
pub make_way_frame :
    (w : World) (key : String) (e : Entry) (mode : Mode) (s : Sched)
    → ((make_way w key e mode s).worker_count ≡ s.worker_count)
      × ((make_way w key e mode s).workers ≡ s.workers)
      × (pending (make_way w key e mode s).queues ≤ pending s.queues)
unfolding make_way
make_way_frame w key e replace s =
    let t = replace_active w key e (members s.active key) s in
    let a = replace_active-Aside w key e (members s.active key) s in
    rw emit_all-events
      (a.worker_count, a.workers, rw a.queues (omega (arith, pending-put s.queues key [])))
make_way_frame w key e _ s = (refl, refl, omega arith)

pub make_way-shutting_down :
    (w : World) (key : String) (e : Entry) (mode : Mode) (s : Sched)
    → (make_way w key e mode s).shutting_down ≡ s.shutting_down
unfolding make_way
make_way-shutting_down w key e replace s =
    rw emit_all-events (replace_active-Aside w key e (members s.active key) s).shutting_down
make_way-shutting_down w key e _ s = refl

pub make_way-removed :
    (w : World) (key : String) (e : Entry) (mode : Mode) (s : Sched)
    → (make_way w key e mode s).removed ≡ s.removed
unfolding make_way
make_way-removed w key e replace s =
    rw emit_all-events (replace_active-Aside w key e (members s.active key) s).removed
make_way-removed w key e _ s = refl

-- A submitted rule is no longer removed.
pub removed-register : (key : String) (s : Sched) → has (register key s).removed key ≡ false
unfolding register
removed-register key s = rw (has-discard, eq_refl)

pub shutting_down-register :
    (key : String) (s : Sched) → (register key s).shutting_down ≡ s.shutting_down
unfolding register
shutting_down-register key s = refl

-- `shutdown` up to the last write.
pub drop_queues-Aside : (d : Dict (List Entry)) (s : Sched) → Aside s (drop_queues d s)
unfolding drop_queues
drop_queues-Aside [] s = record {
  executing = refl;
  queues = refl;
  removed = refl;
  worker_count = refl;
  shutting_down = refl;
  workers = refl;
  prepared = refl;
}
drop_queues-Aside ((key, q) ∷ d) s =
    Aside-trans
      (rw emit_all-events (record {
        executing = refl;
        queues = refl;
        removed = refl;
        worker_count = refl;
        shutting_down = refl;
        workers = refl;
        prepared = refl;
      }))
      (drop_queues-Aside d _)
