-- ===== src/Scheduler/Traces.antt =====
-- Where a submitted run can be found: the traces that the scheduler keeps of it.
use notmy_fault.Prelude.{
  String, ◌≡◌, refl, ap, inl, inr, Bool, true, false, List, [], ◌∷◌, ◌++◌, map, ◌==◌, ◌&&◌, ◌||◌,
  eq_iff, arith, Bool-cases,
}
use notmy_fault.Prelude.Texts.{has}
use notmy_fault.Scheduler.State.{
  Kind, Reason, Entry, HistoryEvent, Sched, run_dropped, run_replaced, members, event, emit_all,
  emit,
}
use notmy_fault.Scheduler.Frame.{emit_all-events}

abbrev pub ids : List Entry → List String
ids q = map (λ e. e.run_id) q

-- The two kinds that say of a run that it will not be executed, or not any more.
abbrev pub is_final : Kind → Bool
is_final run_dropped = true
is_final run_replaced = true
is_final _ = false

-- The history says so of the run.
unfoldable pub told : List HistoryEvent → String → Bool
told [] run = false
told (ev ∷ h) run = (is_final ev.kind && (ev.run_id == run)) || told h run

-- The run has been started, the history tells why it was not, or it waits.
pub data IsKnown (run : String) (s : Sched) : Type 0 where
  prepared : has s.prepared run ≡ true → IsKnown run s
  told_of : told s.history run ≡ true → IsKnown run s
  waits : (key : String) → has (ids (members s.queues key)) run ≡ true → IsKnown run s

pub has-append : (xs ys : List String) (x : String) → has (xs ++ ys) x ≡ (has xs x || has ys x)
unfolding has
has-append [] ys x = refl
has-append (y ∷ xs) ys x = ground (arith, has-append xs ys x)

pub told-append :
    (g h : List HistoryEvent) (run : String) → told (g ++ h) run ≡ (told g run || told h run)
unfolding told
told-append [] h run = refl
told-append (ev ∷ g) h run = ground (arith, told-append g h run)

pub has-append_left : (xs ys : List String) (x : String) → has xs x ≡ true → has (xs ++ ys) x ≡ true
has-append_left xs ys x h = ground (arith, has-append xs ys x)

pub told-append_left :
    (g h : List HistoryEvent) (run : String) → told g run ≡ true → told (g ++ h) run ≡ true
told-append_left g h run e = ground (arith, told-append g h run)

pub told-append_right :
    (g h : List HistoryEvent) (run : String) → told h run ≡ true → told (g ++ h) run ≡ true
told-append_right g h run e = ground (arith, told-append g h run)

pub ids-append : (p q : List Entry) → ids (p ++ q) ≡ ids p ++ ids q
ids-append [] q = refl
ids-append (e ∷ p) q = ap (λ l. e.run_id ∷ l) (ids-append p q)

-- Every run of a queue is told of.
pub told-events :
    (kind : Kind) (reason : Reason) (q : List Entry) (run : String)
    → is_final kind ≡ true
    → has (ids q) run ≡ true
    → told (map (λ e. event kind e reason) q) run ≡ true
unfolding told has event
told-events kind reason [] run k h = cc
told-events kind reason (e ∷ q) run k h = elim (Bool-cases (e.run_id == run)) [
  | inl this ↦ ground arith
  | inr other ↦ ground (arith, told-events kind reason q run k)
]

pub told-emit_all :
    (kind : Kind) (reason : Reason) (q : List Entry) (s : Sched) (run : String)
    → is_final kind ≡ true
    → has (ids q) run ≡ true
    → told (emit_all kind reason q s).history run ≡ true
told-emit_all kind reason q s run k h =
    rw emit_all-events (told-append_right s.history _ run (told-events kind reason q run k h))

pub told-emit :
    (kind : Kind) (e : Entry) (reason : Reason) (s : Sched)
    → is_final kind ≡ true
    → told (emit kind e reason s).history e.run_id ≡ true
unfolding emit told event
told-emit kind e reason s k =
    told-append_right s.history _ e.run_id (ground (arith, eq_iff e.run_id e.run_id))

pub has-append_right :
    (xs ys : List String) (x : String) → has ys x ≡ true → has (xs ++ ys) x ≡ true
has-append_right xs ys x h = ground (arith, has-append xs ys x)

pub has_one : (x y : String) → (x == y) ≡ true → has (x ∷ []) y ≡ true
unfolding has
has_one x y h = ground arith

pub has_tail :
    (x : String) (xs : List String) (y : String)
    → (x == y) ≡ false
    → has (x ∷ xs) y ≡ true
    → has xs y ≡ true
unfolding has
has_tail x xs y h a = ground arith

pub not_has_nil : (x : String) → has [] x ≡ true → ⊥
unfolding has
not_has_nil x h = cc
