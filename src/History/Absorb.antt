-- ===== src/History/Absorb.antt =====
-- The replay follows the states of run_lifecycle.py.
use notmy_fault.Prelude.{
  String, ◌≡◌, ◌⊎◌, ◌∙◌, Option, none, some, Bool, true, false, ◌==◌, ◌||◌, arith, eq_iff,
  if◌then◌else◌, inl, inr, Bool-cases,
}
use notmy_fault.Prelude.Dict.{get}
use notmy_fault.Scheduler.Config.{or_else}
use notmy_fault.Lifecycle.{is_terminal, status_after, Field}
use notmy_fault.History.Replay.{
  Json, Run, Packet, apply_event, apply_status, apply_steps, status_field,
}

-- The statuses that the replay itself uses beside those of run_lifecycle.py: an old history's
-- "deferred" counts as "queued".
abbrev pub current_of : String → String
current_of status = if status == "deferred" then "queued" else status

-- The kinds whose branch writes the new status.
abbrev writes_status : String → Bool
writes_status kind =
    (kind == "run_queued")
    || (kind == "run_dropped")
    || (kind == "run_replaced")
    || (kind == "workflow_failed")
    || (kind == "workflow_completed")

resumes_only :
    (kind : String) (f : Field) (current : String)
    → writes_status kind ≡ false
    → (kind == "rule_triggered") ≡ false
    → (status_after kind f current ≡ none) ⊎ (status_after kind f current ≡ some "running")
unfolding status_after
resumes_only kind f current a b = ground arith

module _ (J : Json) where
  apply_steps-status : (p : Packet J) (r : Run J) → (apply_steps J p r).status ≡ r.status
  unfolding apply_steps
  apply_steps-status p r = ground arith

  -- In the branch of the kinds that write it, and in the last one.
  apply_status-status :
      (p : Packet J) (next : Option String) (r : Run J)
      → (p.kind == "workflow_deferred") ≡ false
      → (writes_status p.kind ≡ false → (next ≡ none) ⊎ (next ≡ some "running"))
      → (apply_status J p next r).status ≡ or_else next r.status
  unfolding apply_status
  apply_status-status p next r a b = elim (Bool-cases (writes_status p.kind)) [
    | inl writes ↦ ground arith
    | inr other ↦ elim (b other) [
      | inl same ↦ rw same (ground arith)
      | inr resumes ↦ rw resumes (ground arith)
    ]
  ]

  current_of-terminal : (status : String) → is_terminal (current_of status) ≡ is_terminal status
  unfolding is_terminal
  current_of-terminal status = elim (Bool-cases (status == "deferred")) [
    | inl old ↦ rw ((eq_iff status "deferred").0 old)
    | inr other ↦ rw other
  ]

  status_after-ended :
      (kind : String) (f : Field) (current : String)
      → is_terminal current ≡ true
      → status_after kind f current ≡ none
  unfolding status_after
  status_after-ended kind f current h = rw h

  -- The replay of one event moves the status as `status_after` of run_lifecycle.py says, for every
  -- event but three: "rule_triggered" and "test_assertions_completed" leave the status, and
  -- "workflow_deferred", of old histories, is none of its events.
  pub apply_event-status :
      (p : Packet J) (r : Run J)
      → (p.kind == "workflow_deferred") ≡ false
      → (p.kind == "rule_triggered") ≡ false
      → (p.kind == "test_assertions_completed") ≡ false
      → (apply_event J r p).status
        ≡ or_else
            (status_after p.kind (status_field J (get p.content "status")) (current_of r.status))
            r.status
  unfolding apply_event
  apply_event-status p r a b c = elim (Bool-cases (is_terminal r.status)) [
    | inl ended ↦ rw (
      ended,
      status_after-ended p.kind _ (current_of r.status) (current_of-terminal r.status ∙ ended),
    )
    | inr open_ ↦
        rw (open_, b, c)
          (apply_status-status p _ (apply_steps J p r) a (λ w. resumes_only p.kind _ _ w b)
            ∙ rw (apply_steps-status p r))
  ]
