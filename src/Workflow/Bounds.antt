-- ===== src/Workflow/Bounds.antt =====
-- How often an action is tried, and how long it waits.
use notmy_fault.Prelude.{ℕ, ◌+◌, ◌≤◌, String, Option, none, some, Bool, List, [], ◌∷◌}
use notmy_fault.Workflow.Plan.{World}
use notmy_fault.Workflow.State.{Exec}
use notmy_fault.Workflow.Attempts.{Result}

-- The total of the waits, in seconds.
unfoldable pub total : List ℕ → ℕ
total [] = 0
total (n ∷ ns) = n + total ns

module _ {V : Type 0} (w : World V) where
  -- At most `a` calls of the plugin, and at most `b` seconds of waiting.
  pub record IsWithin (a b : ℕ) (s : Exec V) : Type 0 where
    pub tries : s.calls ≤ a
    pub pauses : total s.waits ≤ b

  module _ (a b : ℕ) (id : String) (has_timeout : Bool) where
    abbrev Next : Option (Exec V → Result V × Exec V) → Exec V → Type 0
    Next none s = Unit
    Next (some f) s = IsWithin a b (f s).1
