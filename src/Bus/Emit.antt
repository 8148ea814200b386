-- ===== src/Bus/Emit.antt =====
-- `emit_event`, `poll_absences` and `_dispatch`, with a scheduler.
use notmy_fault.Prelude.{ℕ, suc, String, Option, none, some, Bool, true, false, List, [], ◌∷◌}
use notmy_fault.Prelude.Dict.{Dict}
use notmy_fault.Scheduler.Config.{Rule}
use notmy_fault.Scheduler.State.{World, Sched, start}
use notmy_fault.Scheduler.Dispatch.{Outcome, done, raised, out_of_fuel, Run}
use notmy_fault.Scheduler.Submit
use notmy_fault.Conditions.Tree.{Python, Node}
use notmy_fault.Conditions.Evaluate.{Seen}
use notmy_fault.Conditions.Runtime.{Runtime, fresh, match_and_take}
use notmy_fault.Conditions.Poll.{poll_absences}
use notmy_fault.Bus.Masks.{mask_fields}

module _ (P : Python) where
  open P use {Value}

  -- A rule of the snapshot under its `rule_key`; `is_prepared` tells whether `prepare_context` returns.
  pub record BusRule : Type 0 where
    pub key : String
    pub name : String
    pub rule : Rule
    pub node : Option (Node P)
    pub is_prepared : Bool

  -- What `_safe_on_event` is told: the run, and for a trigger the type and the payload that is shown.
  pub data Signal : Type 0 where
    rule_triggered : String → String → Dict Value → Signal
    workflow_failed : String → Signal

  -- What is given: `config_fingerprint`, the run ids that uuid4 gives, the outputs of a trigger that
  -- are declared sensitive, "***", and what the world does in each submission.
  pub record Wiring : Type 0 where
    pub config_fingerprint : Dict Value → String
    pub run_id : ℕ → String
    pub sensitive_names : String → List String
    pub stars : Value
    pub worlds : ℕ → World

  -- The runtime of the snapshot, the scheduler, what was told (the latest first), and the number of
  -- the next run.
  pub record Bus : Type 0 where
    pub runtime : Runtime P
    pub sched : Sched
    pub told : List Signal
    pub next : ℕ

  abbrev pub fresh_bus : Bus
  fresh_bus = record { runtime = fresh P; sched = start; told = []; next = 0 }

  module _ (c : Wiring) where
    -- `_mask_event_payload`
    unfoldable pub masked : String → Dict Value → Dict Value
    masked kind payload = mask_fields c.stars (c.sensitive_names kind) payload

    unfoldable pub hand_over : Bus → Run → Outcome × Bus
    hand_over b (outcome, s) = (outcome, record b { sched = s })

    unfoldable pub submit_if : Bool → BusRule → String → ℕ → Bus → Outcome × Bus
    submit_if false r run n b = (done, record b { told = workflow_failed run ∷ b.told })
    submit_if true r run n b =
        hand_over b
          (Submit.submit (c.worlds n) r.key r.rule r.name (record { id = some run }) b.sched).1

    -- `_dispatch`
    unfoldable pub dispatch : BusRule → String → Dict Value → Bus → Outcome × Bus
    dispatch r kind payload b =
        let run = c.run_id b.next in
        submit_if r.is_prepared r run b.next
          (record b { told = rule_triggered run kind payload ∷ b.told; next = suc b.next })

    unfoldable pub dispatch_found :
        Option (List (Seen P)) → BusRule → String → Dict Value → Bus → Outcome × Bus
    dispatch_found none r kind payload b = (done, b)
    dispatch_found (some events) r kind payload b = dispatch r kind payload b

    -- An exception of the scheduler ends the loop.
    unfoldable pub unless_raised : Outcome × Bus → Outcome × Bus → Outcome × Bus
    unless_raised (done, b) rest = rest
    unless_raised (raised, b) rest = (raised, b)
    unless_raised (out_of_fuel, b) rest = (out_of_fuel, b)

    unfoldable pub emit_rules :
        List BusRule → String → Dict Value → ℕ → Option (Dict Value) → Bus → Outcome × Bus
    emit_rules [] kind payload now instance_of b = (done, b)
    emit_rules (r ∷ rs) kind payload now instance_of b =
        let m =
          match_and_take P c.config_fingerprint r.key r.node kind payload now instance_of
            b.runtime in
        let d = dispatch_found m.0 r kind (masked kind payload) (record b { runtime = m.1 }) in
        unless_raised d (emit_rules rs kind payload now instance_of d.1)

    -- `emit_event`, where the first argument is the answer of `_is_shutdown_fn`.
    unfoldable pub emit_event :
        Bool → List BusRule → String → Dict Value → ℕ → Option (Dict Value) → Bus → Outcome × Bus
    emit_event true rules kind payload now instance_of b = (done, b)
    emit_event false rules kind payload now instance_of b =
        emit_rules rules kind payload now instance_of b

    unfoldable pub poll_rule : ℕ → BusRule → Option (Node P) → Bus → Outcome × Bus
    poll_rule now r none b = (done, b)
    poll_rule now r (some node) b =
        let m = poll_absences P r.key node now b.runtime in
        dispatch_found m.0 r "absence" [] (record b { runtime = m.1 })

    unfoldable pub poll_rules : List BusRule → ℕ → Bus → Outcome × Bus
    poll_rules [] now b = (done, b)
    poll_rules (r ∷ rs) now b =
        let d = poll_rule now r r.node b in unless_raised d (poll_rules rs now d.1)

    -- `poll_absences`
    unfoldable pub poll_absences_of : Bool → List BusRule → ℕ → Bus → Outcome × Bus
    poll_absences_of true rules now b = (done, b)
    poll_absences_of false rules now b = poll_rules rules now b

    -- `call_notmyfault`: none for a type that is no text, or a payload that is no dict.
    unfoldable pub call_notmyfault :
        Bool → List BusRule → Option String → Option (Dict Value) → ℕ → Bus → Outcome × Bus
    call_notmyfault closing rules (some kind) (some payload) now b =
        emit_event closing rules kind payload now none b
    call_notmyfault closing rules none payload now b = (done, b)
    call_notmyfault closing rules (some kind) none now b = (done, b)
