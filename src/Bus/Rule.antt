-- ===== src/Bus/Rule.antt =====
-- A property of the bus that each dispatch keeps is kept by all its methods.
use notmy_fault.Prelude.{ℕ, String, Option, none, some, Bool, true, false, List, [], ◌∷◌}
use notmy_fault.Prelude.Dict.{Dict}
use notmy_fault.Scheduler.State.{World}
use notmy_fault.Scheduler.Dispatch.{Outcome, done, raised, out_of_fuel}
use notmy_fault.Scheduler.Steps
use notmy_fault.Scheduler.Steps.{perform}
use notmy_fault.Bus.Masks.{Hidden, mask_fields-Hidden, empty-Hidden}
use notmy_fault.Conditions.Tree.{Python, Node}
use notmy_fault.Conditions.Evaluate.{Seen}
use notmy_fault.Conditions.Runtime.{Runtime, match_and_take}
use notmy_fault.Conditions.Poll.{poll_absences}
use notmy_fault.Bus.Emit.{
  BusRule, Wiring, Bus, masked, dispatch, dispatch_found, unless_raised, emit_rules, emit_event,
  poll_rule, poll_rules, poll_absences_of, call_notmyfault,
}

-- The property holds whatever the runtime of the conditions is, and a dispatch keeps it; what a
-- dispatch tells hides the sensitive fields.
pub record KeepsDispatch (P : Python) (c : Wiring P) (Q : Bus P → Type 0) : Type 0 where
  pub runtimes : (t : Runtime P) (bus : Bus P) → Q bus → Q (record bus { runtime = t })
  pub dispatches :
      (r : BusRule P) (kind : String) (payload : Dict P.Value) (bus : Bus P)
      → Hidden c.stars (c.sensitive_names kind) payload
      → Q bus
      → Q (dispatch P c r kind payload bus).1
  pub schedules :
      (w : World) (op : Steps.Op) (bus : Bus P)
      → Q bus
      → Q (record bus { sched = (perform w op bus.sched).1 })

module _ (P : Python) (c : Wiring P) where
  -- What happens to the bus: an event, a poll of the absences, an event that a trigger's thread pushes,
  -- or a call of the scheduler by others.
  pub data Op : Type 0 where
    event : Bool → List (BusRule P) → String → Dict P.Value → ℕ → Option (Dict P.Value) → Op
    polled : Bool → List (BusRule P) → ℕ → Op
    pushed : Bool → List (BusRule P) → Option String → Option (Dict P.Value) → ℕ → Op
    scheduled : World → Steps.Op → Op

  unfoldable pub perform_on : Op → Bus P → Bus P
  perform_on (event closing rs kind payload now o) bus =
      (emit_event P c closing rs kind payload now o bus).1
  perform_on (polled closing rs now) bus = (poll_absences_of P c closing rs now bus).1
  perform_on (pushed closing rs kind payload now) bus =
      (call_notmyfault P c closing rs kind payload now bus).1
  perform_on (scheduled w op) bus = record bus { sched = (perform w op bus.sched).1 }

  unfoldable pub perform_ops : List Op → Bus P → Bus P
  perform_ops [] bus = bus
  perform_ops (o ∷ os) bus = perform_ops os (perform_on o bus)

  module _ (Q : Bus P → Type 0) (k : KeepsDispatch P c Q) where
    found-Q :
        (o : Option (List (Seen P))) (r : BusRule P) (kind : String) (payload : Dict P.Value)
        (t : Runtime P) (bus : Bus P)
        → Hidden c.stars (c.sensitive_names kind) payload
        → Q bus
        → Q (dispatch_found P c o r kind payload (record bus { runtime = t })).1
    unfolding dispatch_found
    found-Q none r kind payload t bus h i = k.runtimes t bus i
    found-Q (some events) r kind payload t bus h i =
        k.dispatches r kind payload (record bus { runtime = t }) h (k.runtimes t bus i)

    unless_raised-Q : (d rest : Outcome × Bus P) → Q d.1 → Q rest.1 → Q (unless_raised P c d rest).1
    unfolding unless_raised
    unless_raised-Q (done, b) rest h j = j
    unless_raised-Q (raised, b) rest h j = h
    unless_raised-Q (out_of_fuel, b) rest h j = h

    emit_rules-Q :
        (rs : List (BusRule P)) (kind : String) (payload : Dict P.Value) (now : ℕ)
        (o : Option (Dict P.Value)) (bus : Bus P)
        → Q bus
        → Q (emit_rules P c rs kind payload now o bus).1
    unfolding emit_rules masked
    emit_rules-Q [] kind payload now o bus i = i
    emit_rules-Q (r ∷ rs) kind payload now o bus i =
        let m = match_and_take P c.config_fingerprint r.key r.node kind payload now o bus.runtime in
        let shown = masked P c kind payload in
        let d = dispatch_found P c m.0 r kind shown (record bus { runtime = m.1 }) in
        let j =
          found-Q m.0 r kind shown m.1 bus
            (mask_fields-Hidden c.stars (c.sensitive_names kind) payload) i in
        unless_raised-Q d (emit_rules P c rs kind payload now o d.1) j
          (emit_rules-Q rs kind payload now o d.1 j)

    poll_rule-Q :
        (now : ℕ) (r : BusRule P) (node : Option (Node P)) (bus : Bus P)
        → Q bus
        → Q (poll_rule P c now r node bus).1
    unfolding poll_rule
    poll_rule-Q now r none bus i = i
    poll_rule-Q now r (some node) bus i =
        let m = poll_absences P r.key node now bus.runtime in
        found-Q m.0 r "absence" [] m.1 bus (empty-Hidden c.stars (c.sensitive_names "absence")) i

    poll_rules-Q :
        (rs : List (BusRule P)) (now : ℕ) (bus : Bus P) → Q bus → Q (poll_rules P c rs now bus).1
    unfolding poll_rules
    poll_rules-Q [] now bus i = i
    poll_rules-Q (r ∷ rs) now bus i =
        let d = poll_rule P c now r r.node bus in
        let j = poll_rule-Q now r r.node bus i in
        unless_raised-Q d (poll_rules P c rs now d.1) j (poll_rules-Q rs now d.1 j)

    emit_event-Q :
        (closing : Bool) (rs : List (BusRule P)) (kind : String) (payload : Dict P.Value) (now : ℕ)
        (o : Option (Dict P.Value)) (bus : Bus P)
        → Q bus
        → Q (emit_event P c closing rs kind payload now o bus).1
    unfolding emit_event
    emit_event-Q true rs kind payload now o bus i = i
    emit_event-Q false rs kind payload now o bus i = emit_rules-Q rs kind payload now o bus i

    perform_on-Q : (o : Op) (bus : Bus P) → Q bus → Q (perform_on o bus)
    unfolding perform_on poll_absences_of call_notmyfault
    perform_on-Q (event closing rs kind payload now o) bus i =
        emit_event-Q closing rs kind payload now o bus i
    perform_on-Q (polled true rs now) bus i = i
    perform_on-Q (polled false rs now) bus i = poll_rules-Q rs now bus i
    perform_on-Q (pushed closing rs none payload now) bus i = i
    perform_on-Q (pushed closing rs (some kind) none now) bus i = i
    perform_on-Q (pushed closing rs (some kind) (some payload) now) bus i =
        emit_event-Q closing rs kind payload now none bus i
    perform_on-Q (scheduled w op) bus i = k.schedules w op bus i

    pub ops-Q : (os : List Op) (bus : Bus P) → Q bus → Q (perform_ops os bus)
    unfolding perform_ops
    ops-Q [] bus i = i
    ops-Q (o ∷ os) bus i = ops-Q os (perform_on o bus) (perform_on-Q o bus i)
