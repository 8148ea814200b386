-- ===== src/Workflow/Ends.antt =====
-- A run has one end: one event reports it, and it fits the state of the run.
use notmy_fault.Prelude.{ℕ, ◌≡◌, Bool, true, false, List, [], ◌∷◌, ◌++◌, Option, none, some}
use notmy_fault.Prelude.Texts.{discard}
use notmy_fault.Workflow.State.{
  End, run_cancelled, Exec, Event, workflow_failed, workflow_completed, emit,
}
use notmy_fault.Workflow.Run.{Workflow, verdict, Change}
use notmy_fault.Workflow.Good.{AllGood}
use notmy_fault.Workflow.Open.{ends}
use notmy_fault.Workflow.Escape.{IsAborted}

-- How the last event of a run fits the states in which the run begins and ends.
pub data Fits {V : Type 0} (f : Workflow V) (s t : Exec V) : Event → Type 0 where
  unprepared : f.is_prepared ≡ false → Fits f s t workflow_failed
  by_cancellation : t.cancel_set ≡ true → Fits f s t (workflow_completed run_cancelled)
  by_verdict :
      (b : Bool)
      → t.cancel_set ≡ false
      → (AllGood s.steps → b ≡ true → AllGood t.steps)
      → Fits f s t (workflow_completed (verdict b))

module _ {V : Type 0} (f : Workflow V) (s0 : Exec V) (es : List Event) (n : ℕ) where
  -- The run is ended, by one event more than `es`.
  pub record IsEnded (t : Exec V) : Type 0 where
    pub last : Event
    pub fits : Fits f s0 t last
    pub once : ends t.events ≡ es ++ last ∷ []
    pub finished : t.finished ≡ true
    pub counted : t.active_actions ≡ n

  closed : (e : End) → Exec V → Exec V
  closed e s =
      emit (workflow_completed e)
        (record s { finished = true; cancel_events = discard s.cancel_events f.run_id })

  -- With one event at the end of the body, without one where an exception escapes.
  abbrev pub IsOver : Option (List (Change V)) → Exec V → Type 0
  IsOver none t = IsEnded t
  IsOver (some cs) t = IsAborted f.run_id es n t
