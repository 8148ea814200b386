-- ===== src/Workflow/Good.antt =====
-- A sequence that succeeds leaves no failed step behind.
use Prim.Native.String.{◌++◌ as ◌<>◌}
use notmy_fault.Prelude.{
  ℕ, ◌+◌, String, ◌≡◌, refl, sym, subst, Option, none, some, Bool, true, false, [], ◌∷◌, ◌==◌, ◌&&◌,
  ◌||◌, arith, All, Bool-cases, inl, inr,
}
use notmy_fault.Prelude.Dict.{Dict, put}
use notmy_fault.Workflow.Plan.{
  Status, ok, skipped, Step, Call, Action, call, set_variable, branch, Actions, no_more, more,
  Assignment, Host, World,
}
use notmy_fault.Workflow.State.{
  Exec, emit, look, called, begin_action, end_action, count_ok, count_fail, set_step,
}
use notmy_fault.Workflow.Attempts.{Result, done, failure, stopped, waited}
use notmy_fault.Workflow.Action.{run_action}
use notmy_fault.Workflow.Sequence.{
  status_of, spread, keep_result, call_if, run_call, store, assign_if, execute_assignment,
  end_branch, bad_condition, choose, proceed, step_id, run_step, run_sequence, goes_on, is_ok,
  is_done, wants_failure_actions,
}
use notmy_fault.Workflow.Rule.{KeepsCall}
use notmy_fault.Workflow.ActionRule.{KeepsAction, run_action-P}

-- The step succeeded, or was skipped because its data were not part of the run.
abbrev pub is_good : Status → Bool
is_good ok = true
is_good skipped = true
is_good _ = false

module _ {V : Type 0} where
  abbrev pub AllGood : Dict (Step V) → Type 0
  AllGood d = All (λ e. is_good e.1.status ≡ true) d

  put-AllGood :
      (d : Dict (Step V)) (id : String) (t : Step V)
      → is_good t.status ≡ true
      → AllGood d
      → AllGood (put d id t)
  unfolding put
  put-AllGood [] id t h a = (h, tt)
  put-AllGood ((j, u) ∷ d) id t h a = elim (Bool-cases (j == id)) [
    | inl e ↦ rw e (h, a.1)
    | inr e ↦ rw e (a.0, put-AllGood d id t h a.1)
  ]

  module _ (h : Host V) (w : World V) where
    HasSteps : Dict (Step V) → Exec V → Type 0
    HasSteps d s = s.steps ≡ d

    keeps_steps : (d : Dict (Step V)) → KeepsCall w (HasSteps d)
    unfolding HasSteps look called waited count_ok count_fail emit
    keeps_steps d = record {
      looks = λ s p. p;
      calls = λ s p. p;
      waits = λ n s p. p;
      oks = λ s p. p;
      fails = λ s p. p;
      emits = λ e s i p. p;
    }

    acts_steps : (d : Dict (Step V)) → KeepsAction h w (HasSteps d) (HasSteps d)
    unfolding HasSteps begin_action end_action
    acts_steps d = record {
      idle = keeps_steps d;
      acting = keeps_steps d;
      begins = λ s p. p;
      ends = λ s p. p;
    }

    run_action-steps : (c : Call V) (s : Exec V) → (run_action h w c s).1.steps ≡ s.steps
    unfolding HasSteps
    run_action-steps c s =
        run_action-P h w (HasSteps s.steps) (HasSteps s.steps) (acts_steps s.steps) c s refl

    spread-steps : (r : Result V) (s : Exec V) → is_done r ≡ true → (spread r s).steps ≡ s.steps
    unfolding spread
    spread-steps (done v) s e = refl
    spread-steps failure s e = refl
    spread-steps (stopped r) s e = ground arith

    keep_result-AllGood :
        (id kind : String) (r : Result V) (s : Exec V)
        → is_done r ≡ true
        → AllGood s.steps
        → AllGood (keep_result id kind (r, s)).1.steps
    unfolding keep_result set_step spread status_of
    keep_result-AllGood id kind (done v) s e a = put-AllGood s.steps id _ refl a
    keep_result-AllGood id kind failure s e a = ground arith
    keep_result-AllGood id kind (stopped r) s e a = ground arith

    call_if-AllGood :
        (b : Bool) (id : String) (c : Call V) (s : Exec V)
        → is_ok (call_if b h w id c s).0 ≡ true
        → AllGood s.steps
        → AllGood (call_if b h w id c s).1.steps
    unfolding call_if set_step emit
    call_if-AllGood true id c s e a =
        let r = run_action h w c s in
        keep_result-AllGood id c.kind r.0 r.1 (unfold keep_result in e)
          (subst AllGood (sym (run_action-steps c s)) a)
    call_if-AllGood false id c s e a = put-AllGood s.steps id _ refl a

    run_call-AllGood :
        (id : String) (c : Call V) (s : Exec V)
        → is_ok (run_call h w id c s).0 ≡ true
        → AllGood s.steps
        → AllGood (run_call h w id c s).1.steps
    unfolding run_call
    run_call-AllGood id c s e a =
        call_if-AllGood (h.is_available c.params s.steps s.variables) id c s e a

    store-AllGood :
        (id : String) (a : Assignment V) (o : Option V) (s : Exec V)
        → (store h id a o s).0 ≡ true
        → AllGood s.steps
        → AllGood (store h id a o s).1.steps
    unfolding store set_step emit
    store-AllGood id a none s e g = ground arith
    store-AllGood id a (some v) s e g = put-AllGood s.steps id _ refl g

    assign_if-AllGood :
        (b : Bool) (id : String) (a : Assignment V) (s : Exec V)
        → (assign_if b h id a s).0 ≡ true
        → AllGood s.steps
        → AllGood (assign_if b h id a s).1.steps
    unfolding assign_if set_step emit
    assign_if-AllGood true id a s e g =
        store-AllGood id a (h.assigned a.variable a.value s.steps s.variables) s e g
    assign_if-AllGood false id a s e g = put-AllGood s.steps id _ refl g

    end_branch-AllGood :
        (id : String) (v : V) (r : Bool × Exec V)
        → (end_branch id v r).0 ≡ true
        → (r.0 ≡ true → AllGood r.1.steps)
        → AllGood (end_branch id v r).1.steps
    unfolding end_branch set_step emit
    end_branch-AllGood id v (true, s) e g = put-AllGood s.steps id _ refl (g refl)
    end_branch-AllGood id v (false, s) e g = ground arith

    choose-AllGood :
        (id : String) (o : Option Bool) (s : Exec V) (x y : Bool × Exec V)
        → (choose h id o s x y).0 ≡ true
        → (x.0 ≡ true → AllGood x.1.steps)
        → (y.0 ≡ true → AllGood y.1.steps)
        → AllGood (choose h id o s x y).1.steps
    unfolding choose bad_condition
    choose-AllGood id none s x y e gx gy = ground arith
    choose-AllGood id (some true) s x y e gx gy = end_branch-AllGood id _ x e gx
    choose-AllGood id (some false) s x y e gx gy = end_branch-AllGood id _ y e gy

    proceed-AllGood :
        (set keep_on : Bool) (t : Exec V) (r next : Bool × Exec V)
        → (proceed set keep_on t r next).0 ≡ true
        → (r.0 ≡ true → next.0 ≡ true → AllGood next.1.steps)
        → AllGood (proceed set keep_on t r next).1.steps
    unfolding proceed
    proceed-AllGood true keep_on t r next e g = ground arith
    proceed-AllGood false true t (true, s) next e g = g refl e
    proceed-AllGood false true t (false, s) next e g = ground arith
    proceed-AllGood false false t r next e g = ground arith

    ok_wants_nothing :
        (on_failure : Bool) (r : Option (Result V))
        → is_ok r ≡ true
        → (on_failure && wants_failure_actions r) ≡ false
    ok_wants_nothing true none e = refl
    ok_wants_nothing true (some (done v)) e = refl
    ok_wants_nothing true (some failure) e = ground arith
    ok_wants_nothing true (some (stopped r)) e = ground arith
    ok_wants_nothing false r e = refl

    module _ (name : String → String → ℕ → String) where
      mutual
        unfolding run_step execute_assignment look

        step-AllGood :
            (id : String) (on_failure : Bool) (a : Action V) (s : Exec V)
            → (run_step h w name id on_failure a s).0 ≡ true
            → AllGood s.steps
            → AllGood (run_step h w name id on_failure a s).1.steps
        step-AllGood id on_failure (call c fs) s e g =
            rw (ok_wants_nothing on_failure (run_call h w id c s).0 e) (run_call-AllGood id c s e g)
        step-AllGood id on_failure (set_variable a) s e g =
            assign_if-AllGood (h.is_available a.value s.steps s.variables) id a s e g
        step-AllGood id on_failure (branch b xs ys) s e g =
            choose-AllGood id (h.holds b.condition s.steps s.variables) s _ _ e
              (λ i. sequence-AllGood (id <> "_then_") 1 on_failure xs s i g)
              (λ i. sequence-AllGood (id <> "_else_") 1 on_failure ys s i g)

        sequence-AllGood :
            (prefix : String) (number : ℕ) (on_failure : Bool) (xs : Actions V) (s : Exec V)
            → (run_sequence h w name prefix number on_failure xs s).0 ≡ true
            → AllGood s.steps
            → AllGood (run_sequence h w name prefix number on_failure xs s).1.steps
        sequence-AllGood prefix number on_failure no_more s e g = g
        sequence-AllGood prefix number on_failure (more a rest) s e g =
            let t = look w s in
            let r = run_step h w name (step_id name prefix number a) on_failure a t in
            proceed-AllGood t.cancel_set (r.0 || goes_on a) t r
              (run_sequence h w name prefix (number + 1) on_failure rest r.1) e
              (λ i j.
                sequence-AllGood prefix (number + 1) on_failure rest r.1 j
                  (step-AllGood (step_id name prefix number a) on_failure a t i g))

      -- A sequence that succeeds adds only steps that succeeded or were skipped.
      pub run_sequence-AllGood :
          (prefix : String) (number : ℕ) (on_failure : Bool) (xs : Actions V) (s : Exec V)
          → (run_sequence h w name prefix number on_failure xs s).0 ≡ true
          → AllGood s.steps
          → AllGood (run_sequence h w name prefix number on_failure xs s).1.steps
      run_sequence-AllGood prefix number on_failure xs s e g =
          sequence-AllGood prefix number on_failure xs s e g
