-- ===== src/Workflow/Rule.antt =====
-- To carry a property of the state through an action and through a sequence of actions.
use Prim.Native.String.{◌++◌ as ◌<>◌}
use notmy_fault.Prelude.{
  ℕ, zero, suc, ◌+◌, String, ◌≡◌, refl, Option, none, some, Bool, true, false, ◌&&◌, ◌||◌,
  Bool-cases, inl, inr,
}
use notmy_fault.Prelude.Dict.{put}
use notmy_fault.Workflow.Plan.{
  Step, Reason, shutdown, by_user, timeout, Invocation, returns, stops, blocked, raises, Call,
  Action, call, set_variable, branch, Actions, no_more, more, Assignment, Host, World,
}
use notmy_fault.Workflow.State.{
  Exec, Event, action_executed, action_skipped, action_cancelled, action_timed_out, error,
  workflow_failed, workflow_completed, emit, look, reason, called, count_ok, count_fail, set_step,
  cancel,
}
use notmy_fault.Workflow.Attempts.{
  Result, done, failure, stopped, record_success, record_failure, record_cancelled,
  unless_cancelled, waited, between, after_call, wait_seconds, attempts,
}
use notmy_fault.Workflow.Action.{run_action}
use notmy_fault.Workflow.Sequence.{
  spread, keep_result, call_if, run_call, store, assign_if, execute_assignment, end_branch,
  bad_condition, choose, proceed, step_id, run_step, run_sequence, goes_on, wants_failure_actions,
}

-- An event that ends the run.
abbrev pub is_end : Event → Bool
is_end workflow_failed = true
is_end (workflow_completed e) = true
is_end _ = false

module _ {V : Type 0} (w : World V) (P : Exec V → Type 0) where
  -- What an attempt does to the state.
  pub record KeepsCall : Type 0 where
    pub looks : (s : Exec V) → P s → P (look w s)
    pub calls : (s : Exec V) → P s → P (called s)
    pub waits : (n : ℕ) (s : Exec V) → P s → P (waited n s)
    pub oks : (s : Exec V) → P s → P (count_ok s)
    pub fails : (s : Exec V) → P s → P (count_fail s)
    pub emits : (e : Event) (s : Exec V) → is_end e ≡ false → P s → P (emit e s)

  module _ (k : KeepsCall) (id : String) (has_timeout : Bool) where
    open k use {looks, calls, waits, oks, fails, emits}

    record_cancelled-P : (r : Reason) (s : Exec V) → P s → P (record_cancelled id r s).1
    unfolding record_cancelled
    record_cancelled-P shutdown s p = emits (action_cancelled id) s refl p
    record_cancelled-P by_user s p = emits (action_cancelled id) s refl p
    record_cancelled-P timeout s p = emits (action_timed_out id) (count_fail s) refl (fails s p)

    record_failure-P : (s : Exec V) → P s → P (record_failure id s).1
    unfolding record_failure
    record_failure-P s p = emits (error id) (count_fail s) refl (fails s p)

    record_success-P : (v : V) (s : Exec V) → P s → P (record_success id v s).1
    unfolding record_success
    record_success-P v s p = emits (action_executed id) (count_ok s) refl (oks s p)

    unless_cancelled-P :
        (r : Option Reason) (s : Exec V) (f : Exec V → Result V × Exec V)
        → ((u : Exec V) → P u → P (f u).1)
        → P s
        → P (unless_cancelled id r s f).1
    unfolding unless_cancelled
    unless_cancelled-P none s f h p = h s p
    unless_cancelled-P (some r) s f h p = record_cancelled-P r s p

    between-P :
        (delay n : ℕ) (f : Exec V → Result V × Exec V)
        → ((u : Exec V) → P u → P (f u).1)
        → (s : Exec V) → P s
        → P (between w id has_timeout delay n f s).1
    unfolding between
    between-P zero n f h s p = h s p
    between-P (suc d) n f h s p =
        unless_cancelled-P (reason w has_timeout (look w s)) (waited n (look w s)) f h
          (waits n (look w s) (looks s p))

    -- Nothing is left, or the next attempt keeps the property.
    abbrev Again : Option (Exec V → Result V × Exec V) → Type 0
    Again none = Unit
    Again (some f) = (u : Exec V) → P u → P (f u).1

    after_call-P :
        (i : Invocation V) (again : Option (Exec V → Result V × Exec V))
        → Again again
        → (s : Exec V) → P s
        → P (after_call w id has_timeout i again s).1
    unfolding after_call
    after_call-P (returns v) again h s p =
        unless_cancelled-P (reason w has_timeout (look w s)) (look w s) (record_success id v)
          (record_success-P v) (looks s p)
    after_call-P (stops r) again h s p = record_cancelled-P r s p
    after_call-P blocked again h s p = record_failure-P s p
    after_call-P raises none h s p = record_failure-P s p
    after_call-P raises (some f) h s p = h s p

    pub attempts-P :
        (is_exponential : Bool) (delay left n : ℕ) (s : Exec V)
        → P s
        → P (attempts w id has_timeout is_exponential delay left n s).1
    unfolding attempts
    attempts-P is_exponential delay zero n s p =
        unless_cancelled-P (reason w has_timeout (look w s)) (look w s) _
          (λ u q. after_call-P (w.invoke u.calls) none tt (called u) (calls u q)) (looks s p)
    attempts-P is_exponential delay (suc left) n s p =
        unless_cancelled-P (reason w has_timeout (look w s)) (look w s) _
          (λ u q.
            after_call-P (w.invoke u.calls) (some _)
              (between-P delay (wait_seconds is_exponential delay n) _
                (attempts-P is_exponential delay left (n + 1)))
              (called u) (calls u q))
          (looks s p)

module _ {V : Type 0} (h : Host V) (w : World V) (P : Exec V → Type 0) where
  -- What a sequence does to the state, an action taken as one step.
  pub record Keeps : Type 0 where
    pub looks : (s : Exec V) → P s → P (look w s)
    pub emits : (e : Event) (s : Exec V) → is_end e ≡ false → P s → P (emit e s)
    pub sets : (id : String) (t : Step V) (s : Exec V) → P s → P (set_step id t s)
    pub stores :
        (v : String) (x : V) (s : Exec V) → P s → P (record s { variables = put s.variables v x })
    pub cancels : (s : Exec V) → P s → P (cancel s)
    pub runs : (c : Call V) (s : Exec V) → P s → P (run_action h w c s).1

  module _ (k : Keeps) where
    open k use {looks, emits, sets, stores, cancels, runs}

    spread-P : (r : Result V) (s : Exec V) → P s → P (spread r s)
    unfolding spread
    spread-P (done v) s p = p
    spread-P failure s p = p
    spread-P (stopped timeout) s p = p
    spread-P (stopped by_user) s p = cancels s p
    spread-P (stopped shutdown) s p = cancels s p

    call_if-P :
        (b : Bool) (id : String) (c : Call V) (s : Exec V) → P s → P (call_if b h w id c s).1
    unfolding call_if keep_result
    call_if-P true id c s p =
        sets id _ _ (spread-P (run_action h w c s).0 (run_action h w c s).1 (runs c s p))
    call_if-P false id c s p = sets id _ _ (emits (action_skipped id) s refl p)

    run_call-P : (id : String) (c : Call V) (s : Exec V) → P s → P (run_call h w id c s).1
    unfolding run_call
    run_call-P id c s p = call_if-P (h.is_available c.params s.steps s.variables) id c s p

    store-P :
        (id : String) (a : Assignment V) (o : Option V) (s : Exec V) → P s → P (store h id a o s).1
    unfolding store
    store-P id a none s p = emits (error id) _ refl (sets id _ s p)
    store-P id a (some v) s p =
        emits (action_executed id) _ refl (sets id _ _ (stores a.variable v s p))

    assign_if-P :
        (b : Bool) (id : String) (a : Assignment V) (s : Exec V) → P s → P (assign_if b h id a s).1
    unfolding assign_if
    assign_if-P true id a s p = store-P id a (h.assigned a.variable a.value s.steps s.variables) s p
    assign_if-P false id a s p = emits (action_skipped id) _ refl (sets id _ s p)

    end_branch-P : (id : String) (v : V) (r : Bool × Exec V) → P r.1 → P (end_branch id v r).1
    unfolding end_branch
    end_branch-P id v (true, s) p = emits (action_executed id) _ refl (sets id _ s p)
    end_branch-P id v (false, s) p = emits (error id) _ refl (sets id _ s p)

    choose-P :
        (id : String) (o : Option Bool) (s : Exec V) (x y : Bool × Exec V)
        → P s
        → P x.1
        → P y.1
        → P (choose h id o s x y).1
    unfolding choose bad_condition
    choose-P id none s x y p px py = emits (error id) _ refl (sets id _ s p)
    choose-P id (some true) s x y p px py = end_branch-P id (h.branch_result true) x px
    choose-P id (some false) s x y p px py = end_branch-P id (h.branch_result false) y py

    proceed-P :
        (set keep_on : Bool) (t : Exec V) (r next : Bool × Exec V)
        → P t
        → P r.1
        → P next.1
        → P (proceed set keep_on t r next).1
    unfolding proceed
    proceed-P true keep_on t r next pt pr pn = pt
    proceed-P false true t r next pt pr pn = pn
    proceed-P false false t r next pt pr pn = pr

    module _ (name : String → String → ℕ → String) where
      mutual
        unfolding run_step execute_assignment

        run_step-P :
            (id : String) (on_failure : Bool) (a : Action V) (s : Exec V)
            → P s
            → P (run_step h w name id on_failure a s).1
        run_step-P id on_failure (call c fs) s p =
            elim (Bool-cases (on_failure && wants_failure_actions (run_call h w id c s).0)) [
              | inl e ↦ rw e (
                  seq-P ("failure_" <> id <> "_") 1 false fs (run_call h w id c s).1
                    (run_call-P id c s p))
              | inr e ↦ rw e (run_call-P id c s p)
            ]
        run_step-P id on_failure (set_variable a) s p =
            assign_if-P (h.is_available a.value s.steps s.variables) id a s p
        run_step-P id on_failure (branch b xs ys) s p =
            choose-P id (h.holds b.condition s.steps s.variables) s _ _ p
              (seq-P (id <> "_then_") 1 on_failure xs s p)
              (seq-P (id <> "_else_") 1 on_failure ys s p)

        seq-P :
            (prefix : String) (number : ℕ) (on_failure : Bool) (xs : Actions V) (s : Exec V)
            → P s
            → P (run_sequence h w name prefix number on_failure xs s).1
        seq-P prefix number on_failure no_more s p = p
        seq-P prefix number on_failure (more a rest) s p =
            let t = look w s in
            let r = run_step h w name (step_id name prefix number a) on_failure a t in
            let q = run_step-P (step_id name prefix number a) on_failure a t (looks s p) in
            proceed-P t.cancel_set (r.0 || goes_on a) t r _ (looks s p) q
              (seq-P prefix (number + 1) on_failure rest r.1 q)

      -- What the steps keep, the sequence keeps.
      pub run_sequence-P :
          (prefix : String) (number : ℕ) (on_failure : Bool) (xs : Actions V) (s : Exec V)
          → P s
          → P (run_sequence h w name prefix number on_failure xs s).1
      run_sequence-P prefix number on_failure xs s p = seq-P prefix number on_failure xs s p
