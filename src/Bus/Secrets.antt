-- ===== src/Bus/Secrets.antt =====
-- What the bus shows of an event's payload.
use notmy_fault.Prelude.{ℕ, suc, String, Bool, true, false, List, ◌∷◌, All}
use notmy_fault.Prelude.Dict.{Dict}
use notmy_fault.Conditions.Tree.{Python}
use notmy_fault.Bus.Masks.{Hidden}
use notmy_fault.Bus.Emit.{
  BusRule, Signal, rule_triggered, workflow_failed, Wiring, Bus, fresh_bus, hand_over, submit_if,
  dispatch,
}
use notmy_fault.Bus.Rule.{Op, perform_ops, ops-Q}

module _ (P : Python) (c : Wiring P) where
  -- Each field that the trigger declares sensitive is missing, or shown as stars.
  abbrev pub Covered : Signal P → Type 0
  Covered (rule_triggered run kind payload) = Hidden c.stars (c.sensitive_names kind) payload
  Covered (workflow_failed run) = Unit

  abbrev CoveredBus : Bus P → Type 0
  CoveredBus bus = All Covered bus.told

  submit_if-Covered :
      (b : Bool) (r : BusRule P) (run : String) (n : ℕ) (bus : Bus P)
      → CoveredBus bus
      → CoveredBus (submit_if P c b r run n bus).1
  unfolding submit_if hand_over
  submit_if-Covered true r run n bus h = h
  submit_if-Covered false r run n bus h = (tt, h)

  dispatch-Covered :
      (r : BusRule P) (kind : String) (payload : Dict P.Value) (bus : Bus P)
      → Hidden c.stars (c.sensitive_names kind) payload
      → CoveredBus bus
      → CoveredBus (dispatch P c r kind payload bus).1
  unfolding dispatch
  dispatch-Covered r kind payload bus s h =
      let run = c.run_id bus.next in
      submit_if-Covered r.is_prepared r run bus.next
        (record bus { told = rule_triggered run kind payload ∷ bus.told; next = suc bus.next })
        (s, h)

  -- In everything that the bus tells of triggered rules, after any events, polls and calls of the
  -- scheduler, a field that the event's trigger declares sensitive is missing or shown as stars.
  pub told-Covered : (os : List (Op P c)) → All Covered (perform_ops P c os (fresh_bus P)).told
  told-Covered os =
      ops-Q P c CoveredBus
        (record {
          runtimes = λ t bus h. h;
          dispatches = dispatch-Covered;
          schedules = λ w op bus h. h;
        })
        os (fresh_bus P) tt
