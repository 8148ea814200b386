-- ===== src/Workflow/ActionRule.antt =====
-- To carry a property of the state through `run_action`: `P` holds between actions, and `Q` while one
-- is active.
use notmy_fault.Prelude.{ℕ, refl, Option, none, some, Bool, true, false}
use notmy_fault.Workflow.Plan.{Call, Host, World}
use notmy_fault.Workflow.State.{Exec, error, look, begin_action, end_action, count_fail}
use notmy_fault.Workflow.Attempts.{Result, record_failure, setting, max_retries, max_wait}
use notmy_fault.Workflow.Action.{
  Prepared, ready, reported, silent, prepare, event_step, run_settings, run_counted, unless_shut,
  run_prepared, run_action,
}
use notmy_fault.Workflow.Rule.{KeepsCall, attempts-P}

module _ {V : Type 0} (h : Host V) (w : World V) (P Q : Exec V → Type 0) where
  pub record KeepsAction : Type 0 where
    pub idle : KeepsCall w P
    pub acting : KeepsCall w Q
    pub begins : (s : Exec V) → P s → Q (begin_action s)
    pub ends : (s : Exec V) → Q s → P (end_action s)

  module _ (k : KeepsAction) where
    open k use {idle, acting, begins, ends}

    run_settings-P :
        (c : Call V) (has_timeout : Bool) (a b : Option ℕ) (s : Exec V)
        → Q s
        → Q (run_settings w c has_timeout a b s).1
    unfolding run_settings record_failure
    run_settings-P c has_timeout (some a) (some b) s p =
        attempts-P w Q acting (event_step c) has_timeout c.is_exponential b a 0 s p
    run_settings-P c has_timeout none b s p =
        acting.emits (error (event_step c)) (count_fail s) refl (acting.fails s p)
    run_settings-P c has_timeout (some a) none s p =
        acting.emits (error (event_step c)) (count_fail s) refl (acting.fails s p)

    run_counted-P :
        (c : Call V) (has_timeout : Bool) (s : Exec V) → P s → P (run_counted w c has_timeout s).1
    unfolding run_counted
    run_counted-P c has_timeout s p = ends _ (
        run_settings-P c has_timeout (setting max_retries c.retry)
          (setting max_wait c.retry_delay_seconds) (begin_action s) (begins s p))

    unless_shut-P :
        (b : Bool) (t : Exec V) (r : Result V × Exec V) → P t → P r.1 → P (unless_shut b t r).1
    unfolding unless_shut
    unless_shut-P true t r pt pr = pt
    unless_shut-P false t r pt pr = pr

    run_prepared-P : (c : Call V) (x : Prepared V) (s : Exec V) → P s → P (run_prepared w c x s).1
    unfolding run_prepared
    run_prepared-P c silent s p = p
    run_prepared-P c reported s p =
        idle.emits (error (event_step c)) (count_fail s) refl (idle.fails s p)
    run_prepared-P c (ready params has_timeout) s p =
        unless_shut-P (look w s).shutting_down (look w s) _ (idle.looks s p)
          (run_counted-P c has_timeout (look w s) (idle.looks s p))

    pub run_action-P : (c : Call V) (s : Exec V) → P s → P (run_action h w c s).1
    unfolding run_action
    run_action-P c s p =
        let t = look w s in
        unless_shut-P t.shutting_down t _ (idle.looks s p)
          (run_prepared-P c (prepare h c t) t (idle.looks s p))
