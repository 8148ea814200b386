-- ===== src/Workflow/Escape.antt =====
-- Runs that an exception leaves.
use notmy_fault.Prelude.{
  ℕ, String, ◌≡◌, refl, sym, subst, Option, none, some, Bool, true, false, List, [], ◌∷◌, not,
  arith, All,
}
use notmy_fault.Workflow.Plan.{Host, World}
use notmy_fault.Workflow.State.{Exec, Event, finish_if, finish_run}
use notmy_fault.Workflow.Run.{
  Change, looked, plugin_called, counted_ok, counted_fail, cancel_requested, registered, slept,
  emitted, step_set, variable_set, change, change_all,
}
use notmy_fault.Workflow.Rule.{is_end}
use notmy_fault.Workflow.Open.{ends, IsOpen, emit-IsOpen, call_keeps, keeps_IsOpen, register-IsOpen}

-- The change is no event that ends the run.
abbrev is_quiet : {V : Type 0} → Change V → Bool
is_quiet (emitted e) = not (is_end e)
is_quiet _ = true

-- What happens before an exception escapes is none of the code's own ends.
abbrev pub IsEscape : {V : Type 0} → Option (List (Change V)) → Type 0
IsEscape none = Unit
IsEscape (some cs) = All (λ c. is_quiet c ≡ true) cs

not_end : (b : Bool) → not b ≡ true → b ≡ false
not_end b h = ground arith

module _ {V : Type 0} (run : String) (es : List Event) (n : ℕ) where
  -- One change leaves the run open, unless it emits an event that ends it.
  change-IsOpen :
      (h : Host V) (w : World V) (c : Change V) (s : Exec V)
      → is_quiet c ≡ true
      → IsOpen es n s
      → IsOpen es n (change w run c s)
  unfolding change
  change-IsOpen h w looked s q p = (call_keeps h w es n).looks s p
  change-IsOpen h w plugin_called s q p = (call_keeps h w es n).calls s p
  change-IsOpen h w counted_ok s q p = (call_keeps h w es n).oks s p
  change-IsOpen h w counted_fail s q p = (call_keeps h w es n).fails s p
  change-IsOpen h w cancel_requested s q p = (keeps_IsOpen h w es n).cancels s p
  change-IsOpen h w registered s q p = register-IsOpen run es n s p
  change-IsOpen h w (slept m) s q p = (call_keeps h w es n).waits m s p
  change-IsOpen h w (emitted e) s q p = emit-IsOpen es n e s (not_end (is_end e) q) p
  change-IsOpen h w (step_set id t) s q p = (keeps_IsOpen h w es n).sets id t s p
  change-IsOpen h w (variable_set v x) s q p = (keeps_IsOpen h w es n).stores v x s p

  pub change_all-IsOpen :
      (h : Host V) (w : World V) (cs : List (Change V)) (s : Exec V)
      → All (λ c. is_quiet c ≡ true) cs
      → IsOpen es n s
      → IsOpen es n (change_all w run cs s)
  unfolding change_all
  change_all-IsOpen h w [] s q p = p
  change_all-IsOpen h w (c ∷ cs) s q p =
      change_all-IsOpen h w cs (change w run c s) q.1 (change-IsOpen h w c s q.0 p)

  -- The run is ended without an event.
  pub record IsAborted (t : Exec V) : Type 0 where
    pub silent : ends t.events ≡ es
    pub finished : t.finished ≡ true
    pub counted : t.active_actions ≡ n

  pub abort-IsAborted : (s : Exec V) → IsOpen es n s → IsAborted (finish_run run s).1
  unfolding finish_run finish_if
  abort-IsAborted s p =
      subst (λ b. IsAborted (finish_if b run s).1) (sym p.unfinished)
        (record { silent = p.ended; finished = refl; counted = p.counted })
