-- ===== src/Workflow/Run.antt =====
-- `execute_workflow`, from the preparation of the run to its one end.
use notmy_fault.Prelude.{
  ℕ, zero, suc, ◌+◌, String, Option, none, some, Bool, true, false, List, [], ◌∷◌, ◌&&◌, eqb,
  if◌then◌else◌,
}
use notmy_fault.Prelude.Dict.{Dict, get, put}
use notmy_fault.Workflow.Plan.{ok, Step, Actions, no_more, more, Host, World}
use notmy_fault.Workflow.State.{
  End, run_succeeded, run_failed, run_cancelled, Exec, test_assertions_completed, workflow_failed,
  workflow_completed, Event, emit, look, finish_run, register, called, count_ok, count_fail,
  set_step, cancel,
}
use notmy_fault.Workflow.Attempts.{waited}
use notmy_fault.Workflow.Sequence.{run_sequence}

-- An assertion of a manual test: the step, and the test of its result, `none` where there is none.
pub record Assertion (V : Type 0) : Type 0 where
  pub step_id : String
  pub matches : Option V → Bool

-- A manual test runs the actions from `start_index` to `end_index`.
pub record Manual (V : Type 0) : Type 0 where
  pub start_index : ℕ
  pub end_index : ℕ
  pub assertions : List (Assertion V)

-- What is executed. `is_prepared` is false where `prepare_binding_context` raises.
pub record Workflow (V : Type 0) : Type 0 where
  pub run_id : String
  pub actions : Actions V
  pub manual : Option (Manual V)
  pub is_prepared : Bool

-- One change of the state inside the body of `execute_workflow`. The begin and the end of an action
-- are none: its `finally` ends it too where an exception leaves it.
pub data Change (V : Type 0) : Type 0 where
  looked plugin_called counted_ok counted_fail cancel_requested registered : Change V
  slept : ℕ → Change V
  emitted : Event → Change V
  step_set : String → Step V → Change V
  variable_set : String → V → Change V

abbrev pub verdict : Bool → End
verdict true = run_succeeded
verdict false = run_failed

module _ {V : Type 0} where
  unfoldable pub drop_actions : ℕ → Actions V → Actions V
  drop_actions zero xs = xs
  drop_actions (suc n) no_more = no_more
  drop_actions (suc n) (more a xs) = drop_actions n xs

  unfoldable pub take_actions : ℕ → Actions V → Actions V
  take_actions zero xs = no_more
  take_actions (suc n) no_more = no_more
  take_actions (suc n) (more a xs) = more a (take_actions n xs)

  -- actions[start_index : end_index + 1]
  unfoldable pub selected : Option (Manual V) → Actions V → Actions V
  selected none xs = xs
  selected (some m) xs = drop_actions m.start_index (take_actions (m.end_index + 1) xs)

  abbrev pub offset : Option (Manual V) → ℕ
  offset none = 0
  offset (some m) = m.start_index

  -- `_assertion_value`, up to the path
  unfoldable pub assertion_value : Option (Step V) → Option V
  assertion_value none = none
  assertion_value (some t) = elim t.status [ ok ↦ t.result | _ ↦ none ]

  unfoldable pub count_passed : Dict (Step V) → List (Assertion V) → ℕ
  count_passed steps [] = 0
  count_passed steps (a ∷ as') =
      let rest = count_passed steps as' in
      if a.matches (assertion_value (get steps a.step_id)) then suc rest else rest

  unfoldable pub count : List (Assertion V) → ℕ
  count [] = 0
  count (a ∷ as') = suc (count as')

  -- `evaluate_test_assertions`: whether all passed, which holds too where there are none.
  unfoldable pub evaluate_assertions : List (Assertion V) → Exec V → Bool × Exec V
  evaluate_assertions [] s = (true, s)
  evaluate_assertions (a ∷ as') s =
      let passed = count_passed s.steps (a ∷ as') in
      let total = count (a ∷ as') in
      (eqb passed total, emit (test_assertions_completed passed total) s)

  unfoldable pub assertions_of : Option (Manual V) → List (Assertion V)
  assertions_of none = []
  assertions_of (some m) = m.assertions

  -- The event is emitted by the one that finishes the run.
  unfoldable pub end_with : End → Bool × Exec V → Exec V
  end_with e (true, s) = emit (workflow_completed e) s
  end_with e (false, s) = s

  -- `_complete_cancelled`, and the end of the ways on which nothing cancels
  unfoldable pub complete : String → End → Exec V → Exec V
  complete run e s = end_with e (finish_run run s)

  unfoldable pub fail_preparation : String → Exec V → Exec V
  fail_preparation run s = emit workflow_failed (finish_run run s).1

  -- A run whose cancellation is set ends there; otherwise it goes on as given.
  unfoldable pub unless_set : String → Bool → Exec V → Exec V → Exec V
  unless_set run true t go_on = complete run run_cancelled t
  unless_set run false t go_on = go_on

  unfoldable pub judge : World V → Workflow V → Bool → Exec V → Exec V
  judge w f succeeded s =
      let r = evaluate_assertions (assertions_of f.manual) s in
      let t = look w r.1 in
      unless_set f.run_id t.cancel_set t (complete f.run_id (verdict (succeeded && r.0)) t)

  unfoldable pub run_selected :
      Host V → World V → (String → String → ℕ → String) → Workflow V → Exec V → Exec V
  run_selected h w name f s =
      let r = run_sequence h w name "" (offset f.manual + 1) true (selected f.manual f.actions) s in
      let t = look w r.1 in unless_set f.run_id t.cancel_set t (judge w f r.0 t)

  unfoldable pub run_registered :
      Host V → World V → (String → String → ℕ → String) → Workflow V → Exec V → Exec V
  run_registered h w name f s =
      let t = look w (register f.run_id s) in
      unless_set f.run_id t.cancel_set t (run_selected h w name f t)

  unfoldable pub run_prepared_or_fail :
      Bool → Host V → World V → (String → String → ℕ → String) → Workflow V → Exec V → Exec V
  run_prepared_or_fail true h w name f s = run_registered h w name f s
  run_prepared_or_fail false h w name f s = fail_preparation f.run_id s

  unfoldable pub unless_finished : Bool → Exec V → Exec V → Exec V
  unless_finished true s t = s
  unless_finished false s t = t

  unfoldable pub change : World V → String → Change V → Exec V → Exec V
  change w run looked s = look w s
  change w run plugin_called s = called s
  change w run (slept n) s = waited n s
  change w run counted_ok s = count_ok s
  change w run counted_fail s = count_fail s
  change w run (emitted e) s = emit e s
  change w run (step_set id t) s = set_step id t s
  change w run (variable_set v x) s = record s { variables = put s.variables v x }
  change w run cancel_requested s = cancel s
  change w run registered s = register run s

  unfoldable pub change_all : World V → String → List (Change V) → Exec V → Exec V
  change_all w run [] s = s
  change_all w run (c ∷ cs) s = change_all w run cs (change w run c s)

  -- The state in which the `finally` begins: at the end of the body, or where an exception that no
  -- handler names leaves it.
  unfoldable pub at_finally : World V → String → Option (List (Change V)) → Exec V → Exec V → Exec V
  at_finally w run none s t = t
  at_finally w run (some cs) s t = change_all w run cs s

  -- `execute_workflow`; the last `_finish_run` finishes the run that an escaping exception leaves, and
  -- no other, for each return of the body has finished it.
  unfoldable pub execute_workflow :
      Host V
      → World V
      → (String → String → ℕ → String)
      → Workflow V
      → Option (List (Change V))
      → Exec V
      → Exec V
  execute_workflow h w name f escape s =
      unless_finished s.finished s
        (finish_run f.run_id
          (at_finally w f.run_id escape s (run_prepared_or_fail f.is_prepared h w name f s))).1
