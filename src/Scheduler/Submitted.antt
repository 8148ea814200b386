-- ===== src/Scheduler/Submitted.antt =====
-- A submitted run can be found at any later time.
use text.Mathlib.TextPositions.{eq_refl}
use notmy_fault.Prelude.{
  String, ◌≡◌, ◌≢◌, refl, Bool, true, false, List, [], ◌∷◌, ◌&&◌, eq_iff, arith, if◌then◌else◌, leb,
  length,
}
use notmy_fault.Prelude.Texts.{has}
use notmy_fault.Scheduler.Config.{Rule, Config, queue_cap}
use notmy_fault.Scheduler.State.{
  Context, Reason, Entry, World, Sched, run_dropped, engine_closing, already_running, queue_full,
  scheduler_full, members, emit, reserve, pending, pending_limit, start,
}
use notmy_fault.Scheduler.Dispatch.{enough, Run, done, raised, out_of_fuel}
use notmy_fault.Scheduler.Rule.{Ends, entry-Ends}
use notmy_fault.Scheduler.Members.{members-put}
use notmy_fault.Scheduler.Frame.{removed-register, make_way-removed}
use notmy_fault.Scheduler.Traces.{
  IsKnown, prepared, told_of, waits, ids, told-emit, has-append_right, has_one, ids-append,
}
use notmy_fault.Scheduler.Kept.{IsTraced, emit-IsTraced, IsTraced-rule, register-IsTraced}
use notmy_fault.Scheduler.Submit.{
  Submitted, submit, submit_open, place, is_single, is_busy, request, enqueue, may_start,
}
use notmy_fault.Scheduler.Steps.{Op, perform}
use notmy_fault.Scheduler.Calls.{perform_rule}
use notmy_fault.Scheduler.Closed.{run_calls}
use notmy_fault.Scheduler.Total.{perform-ends}
use notmy_fault.Scheduler.NoneLost.{upholds_traces, make_way-T}

module _ (w : World) (e : Entry) where
  abbrev Found : Submitted → Type 0
  Found r = Ends (IsTraced e.run_id true) r.1

  abbrev IsTidy : Sched → Type 0
  IsTidy = IsTraced e.run_id false

  if-Found :
      (b : Bool) (r r' : Submitted)
      → (b ≡ true → Found r)
      → (b ≡ false → Found r')
      → Found (if b then r else r')
  if-Found true r r' h h' = h refl
  if-Found false r r' h h' = h' refl

  dropped-Found :
      (reason : Reason) (s : Sched)
      → IsTidy s
      → IsTraced e.run_id true (emit run_dropped e reason s)
  dropped-Found reason s h = record {
    tidy = (emit-IsTraced e.run_id false run_dropped e reason s h).tidy;
    known = λ _. told_of (told-emit run_dropped e reason s refl);
  }

  reserve-Found : (key : String) (s : Sched) → IsTidy s → IsTraced e.run_id true (reserve key e s)
  unfolding reserve
  reserve-Found key s h = record {
    tidy = h.tidy;
    known = λ _.
        prepared
          (has-append_right s.prepared _ e.run_id (has_one e.run_id e.run_id (eq_refl e.run_id)));
  }

  enqueue-Found :
      (key : String) (s : Sched)
      → IsTidy s
      → has s.removed key ≡ false
      → IsTraced e.run_id true (enqueue key e s)
  unfolding enqueue emit
  enqueue-Found key s h here = record {
    tidy = λ j r. rw members-put (ground (arith, eq_iff key j, h.tidy j));
    known = λ _. waits key (
        rw (members-put, eq_refl, ids-append)
          (has-append_right (ids (members s.queues key)) _ e.run_id
            (has_one e.run_id e.run_id (eq_refl e.run_id))));
  }

  place-Found :
      (key : String) (c : Config) (s : Sched)
      → IsTidy s
      → has s.removed key ≡ false
      → Found (place w key e c s)
  unfolding place
  place-Found key c s h here =
      if-Found (may_start w key c s) _ _
        (λ room.
          entry-Ends (IsTraced-rule e.run_id true w) (enough s) key e (reserve key e s)
            (reserve-Found key s h))
        (λ full.
          if-Found (leb (queue_cap c) (length (members s.queues key))) _ _
            (λ long. dropped-Found queue_full s h)
            (λ short.
              if-Found (leb (pending_limit w) (pending s.queues)) _ _
                (λ many. dropped-Found scheduler_full s h) (λ few. enqueue-Found key s h here)))

  submit_open-Found :
      (key : String) (c : Config) (s : Sched)
      → IsTidy s
      → has s.removed key ≡ false
      → Found (submit_open w key e c s)
  unfolding submit_open
  submit_open-Found key c s h here =
      if-Found (is_single c.mode && is_busy key s) _ (place w key e c _)
        (λ _. dropped-Found already_running s h)
        (λ _.
          place-Found key c _ (make_way-T e.run_id false w key e c.mode s h)
            (rw (make_way-removed w key e c.mode s) here))

-- The run that `submit` is called for has a trace once the call ends.
pub submit-Found :
    (w : World) (key : String) (rule : Rule) (name : String) (context : Context) (s : Sched)
    → IsTraced (request rule name context).run_id false s
    → Ends (IsTraced (request rule name context).run_id true) (submit w key rule name context s).1
unfolding submit
submit-Found w key rule name context s h =
    let e = request rule name context in
    if-Found w e s.shutting_down _ (submit_open w key e _ _)
      (λ _. dropped-Found w e engine_closing s h)
      (λ _.
        submit_open-Found w e key _ _ (register-IsTraced e.run_id false key s h)
          (removed-register key s))

pub calls-IsTraced :
    (run : String) (want : Bool) (calls : List (World × Op)) (s : Sched)
    → IsTraced run want s
    → IsTraced run want (run_calls calls s)
calls-IsTraced run want [] s h = h
calls-IsTraced run want ((w, op) ∷ calls) s h = calls-IsTraced run want calls _ (call op)
  where
    call : (op : Op) → IsTraced run want (perform w op s).1
    call (Op.submit key rule name context) =
        perform_rule (upholds_traces run want w) (Op.submit key rule name context) s h tt
    call op = perform_rule (upholds_traces run want w) op s h tt

pub at_end :
    (run : String) (r : Run)
    → Ends (IsTraced run true) r
    → r.0 ≢ out_of_fuel
    → IsTraced run true r.1
at_end run (done, s) h k = h
at_end run (raised, s) h k = h
at_end run (out_of_fuel, s) h k = absurd (k refl)

pub start-IsTraced : (run : String) → IsTraced run false start
unfolding has
start-IsTraced run = record { tidy = λ j r. cc; known = λ e. cc }

-- No submitted run is lost. After any calls, a call of `submit` (which may also raise) and any
-- further calls, the run has been prepared for its start, or the history has told that it was
-- dropped or replaced, or it still waits in a queue.
pub submitted-IsKnown :
    (before : List (World × Op)) (w : World) (key : String) (rule : Rule) (name : String)
    (context : Context) (after : List (World × Op))
    → IsKnown
        (request rule name context).run_id
        (run_calls after (perform w (Op.submit key rule name context) (run_calls before start)).1)
unfolding perform
submitted-IsKnown before w key rule name context after =
    let run = (request rule name context).run_id in
    let s = run_calls before start in
    let t = (submit w key rule name context s).1.1 in
    let h =
      at_end run (submit w key rule name context s).1
        (submit-Found w key rule name context s
          (calls-IsTraced run false before start (start-IsTraced run)))
        (perform-ends w (Op.submit key rule name context) s) in
    (calls-IsTraced run true after t h).known refl
