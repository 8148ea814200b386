-- ===== src/Workflow/Open.antt =====
-- Runs that are not ended, and the steps that leave them so.
use notmy_fault.Prelude.{
  ℕ, String, ◌==◌, ◌+◌, ◌≡◌, ◌∙◌, refl, ap, Bool, true, false, List, [], ◌∷◌, ◌++◌, ◌&&◌, arith,
  Bool-cases, inl, inr, if◌then◌else◌,
}
use notmy_fault.Workflow.Plan.{Host, World}
use notmy_fault.Workflow.State.{
  Exec, Event, emit, look, called, begin_action, end_action, count_ok, count_fail, set_step, cancel,
  register,
}
use notmy_fault.Workflow.Attempts.{waited}
use notmy_fault.Workflow.ActionRule.{KeepsAction, run_action-P}
use notmy_fault.Workflow.Rule.{is_end, KeepsCall, Keeps}

-- The events that end a run.
unfoldable pub ends : List Event → List Event
ends [] = []
ends (e ∷ es) = let rest = ends es in if is_end e then e ∷ rest else rest

pub ends-append : (xs ys : List Event) → ends (xs ++ ys) ≡ ends xs ++ ends ys
unfolding ends
ends-append [] ys = refl
ends-append (e ∷ xs) ys = elim (Bool-cases (is_end e)) [
  | inl h ↦ rw (h, ends-append xs ys) refl
  | inr h ↦ rw (h, ends-append xs ys) refl
]

pub and_first : (a b : Bool) → (a && b) ≡ true → a ≡ true
and_first a b h = ground arith

module _ {V : Type 0} where
  -- The run is not ended: its end events are `es`, and `n` actions are active.
  pub record IsOpen (es : List Event) (n : ℕ) (s : Exec V) : Type 0 where
    pub ended : ends s.events ≡ es
    pub unfinished : s.finished ≡ false
    pub counted : s.active_actions ≡ n

  emit-ends : (e : Event) (s : Exec V) → is_end e ≡ false → ends (emit e s).events ≡ ends s.events
  unfolding emit ends
  emit-ends e s h = ends-append s.events (e ∷ []) ∙ rw h (append_nil (ends s.events))
    where
      append_nil : (xs : List Event) → xs ++ [] ≡ xs
      append_nil [] = refl
      append_nil (x ∷ xs) = ap (λ ys. x ∷ ys) (append_nil xs)

  pub emit-IsOpen :
      (es : List Event) (n : ℕ) (e : Event) (s : Exec V)
      → is_end e ≡ false
      → IsOpen es n s
      → IsOpen es n (emit e s)
  emit-IsOpen es n e s h p = record {
    ended = emit-ends e s h ∙ p.ended;
    unfinished = unfold emit in p.unfinished;
    counted = unfold emit in p.counted;
  }

  module _ (h : Host V) (w : World V) (es : List Event) where
    pub call_keeps : (n : ℕ) → KeepsCall w (IsOpen es n)
    unfolding look called count_ok count_fail waited
    call_keeps n = record {
      looks = λ s p. record { ended = p.ended; unfinished = p.unfinished; counted = p.counted };
      calls = λ s p. record { ended = p.ended; unfinished = p.unfinished; counted = p.counted };
      waits = λ m s p. record { ended = p.ended; unfinished = p.unfinished; counted = p.counted };
      oks = λ s p. record { ended = p.ended; unfinished = p.unfinished; counted = p.counted };
      fails = λ s p. record { ended = p.ended; unfinished = p.unfinished; counted = p.counted };
      emits = λ e s i p. emit-IsOpen es n e s i p;
    }

    acts-IsOpen : (n : ℕ) → KeepsAction h w (IsOpen es n) (IsOpen es (n + 1))
    unfolding begin_action end_action
    acts-IsOpen n = record {
      idle = call_keeps n;
      acting = call_keeps (n + 1);
      begins = λ s p. record {
        ended = p.ended;
        unfinished = p.unfinished;
        counted = ap (λ k. k + 1) p.counted;
      };
      ends = λ s p. record {
        ended = p.ended;
        unfinished = p.unfinished;
        counted = omega (arith, p.counted);
      };
    }

    pub keeps_IsOpen : (n : ℕ) → Keeps h w (IsOpen es n)
    unfolding set_step cancel
    keeps_IsOpen n = record {
      looks = (call_keeps n).looks;
      emits = (call_keeps n).emits;
      sets = λ id t s p. record { ended = p.ended; unfinished = p.unfinished; counted = p.counted };
      stores =
          λ v x s p. record { ended = p.ended; unfinished = p.unfinished; counted = p.counted };
      cancels = λ s p. record { ended = p.ended; unfinished = p.unfinished; counted = p.counted };
      runs = run_action-P h w (IsOpen es n) (IsOpen es (n + 1)) (acts-IsOpen n);
    }

pub register-IsOpen :
    {V : Type 0} (run : String) (es : List Event) (n : ℕ) (s : Exec V)
    → IsOpen es n s
    → IsOpen es n (register run s)
unfolding register
register-IsOpen run es n s p = elim (Bool-cases (run == "")) [
  | inl e ↦ rw e p
  | inr e ↦ rw e (record { ended = p.ended; unfinished = p.unfinished; counted = p.counted })
]
