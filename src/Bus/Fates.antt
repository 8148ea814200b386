-- ===== src/Bus/Fates.antt =====
-- What becomes of the runs that the bus tells of.
use notmy_fault.Prelude.{
  ℕ, suc, String, ◌≡◌, ◌⊎◌, inl, inr, refl, some, Bool, true, false, List, [], ◌∷◌, ◌==◌, All,
  arith, eq_iff, Bool-cases, subst, sym, ◌∙◌,
}
use notmy_fault.Prelude.Dict.{Dict}
use notmy_fault.Prelude.Texts.{has}
use notmy_fault.Scheduler.Config.{Rule}
use notmy_fault.Scheduler.State.{Context, World, Sched}
use notmy_fault.Scheduler.Submit
use notmy_fault.Scheduler.Submit.{request}
use notmy_fault.Scheduler.Steps
use notmy_fault.Scheduler.Steps.{perform}
use notmy_fault.Scheduler.Traces.{IsKnown}
use notmy_fault.Scheduler.Kept.{IsTraced}
use notmy_fault.Scheduler.Total.{perform-ends}
use notmy_fault.Scheduler.Submitted.{submit-Found, calls-IsTraced, at_end, start-IsTraced}
use notmy_fault.Conditions.Tree.{Python}
use notmy_fault.Bus.Emit.{
  BusRule, Signal, rule_triggered, workflow_failed, Wiring, Bus, fresh_bus, hand_over, submit_if,
  dispatch,
}
use notmy_fault.Bus.Rule.{KeepsDispatch, Op, perform_ops, ops-Q}

same_text : (t u : String) → (t == u) ≡ true → t ≡ u
same_text t u h = ground (arith, eq_iff t u)

-- The submission of a run, with what it was before.
submit-IsTraced :
    (w : World) (key : String) (rule : Rule) (name : String) (run : String) (s : Sched)
    → IsTraced run false s
    → IsTraced run true (Submit.submit w key rule name (record { id = some run }) s).1.1
unfolding request perform
submit-IsTraced w key rule name run s h =
    let c : Context = record { id = some run } in
    at_end run (Submit.submit w key rule name c s).1 (submit-Found w key rule name c s h)
      (perform-ends w (Steps.Op.submit key rule name c) s)

-- The scheduler has gone on from one state to another: a run that can be found still can.
abbrev pub Grows : Sched → Sched → Type 0
Grows s t = (run : String) (want : Bool) → IsTraced run want s → IsTraced run want t

submit-Grows :
    (w : World) (key : String) (rule : Rule) (name : String) (c : Context) (s : Sched)
    → Grows s (Submit.submit w key rule name c s).1.1
unfolding perform
submit-Grows w key rule name c s run want h =
    calls-IsTraced run want ((w, Steps.Op.submit key rule name c) ∷ []) s h

module _ (P : Python) where
  unfoldable pub failures : List (Signal P) → List String
  failures [] = []
  failures (rule_triggered run kind payload ∷ told) = failures told
  failures (workflow_failed run ∷ told) = run ∷ failures told

  -- The run of a triggered rule has failed to start, or can be found.
  abbrev pub Fate : List String → Sched → Signal P → Type 0
  Fate failed s (rule_triggered run kind payload) = (has failed run ≡ true) ⊎ IsTraced run true s
  Fate failed s (workflow_failed run) = Unit

  pub record IsAccounted (b : Bus P) : Type 0 where
    pub tidy : (run : String) → IsTraced run false b.sched
    pub fates : All (Fate (failures b.told) b.sched) b.told

  pub fates-Grows :
      (failed : List String) (s t : Sched) (told : List (Signal P))
      → Grows s t
      → All (Fate failed s) told
      → All (Fate failed t) told
  fates-Grows failed s t [] g h = tt
  fates-Grows failed s t (rule_triggered run kind payload ∷ told) g (inl f, h) =
      (inl f, fates-Grows failed s t told g h)
  fates-Grows failed s t (rule_triggered run kind payload ∷ told) g (inr f, h) =
      (inr (g run true f), fates-Grows failed s t told g h)
  fates-Grows failed s t (workflow_failed run ∷ told) g (f, h) =
      (f, fates-Grows failed s t told g h)

  has_more :
      (failed : List String) (run u : String) → has failed u ≡ true → has (run ∷ failed) u ≡ true
  unfolding has
  has_more failed run u h = ground arith

  has_first : (failed : List String) (run : String) → has (run ∷ failed) run ≡ true
  unfolding has
  has_first failed run = ground (arith, eq_iff run run)

  fates-fail :
      (run : String) (failed : List String) (s : Sched) (told : List (Signal P))
      → All (Fate failed s) told
      → All (Fate (run ∷ failed) s) told
  fates-fail run failed s [] h = tt
  fates-fail run failed s (rule_triggered u kind payload ∷ told) (inl f, h) =
      (inl (has_more failed run u f), fates-fail run failed s told h)
  fates-fail run failed s (rule_triggered u kind payload ∷ told) (inr f, h) =
      (inr f, fates-fail run failed s told h)
  fates-fail run failed s (workflow_failed u ∷ told) (f, h) = (f, fates-fail run failed s told h)

  unfoldable pub triggered : List (Signal P) → List String
  triggered [] = []
  triggered (rule_triggered run kind payload ∷ told) = run ∷ triggered told
  triggered (workflow_failed run ∷ told) = triggered told

  run_fate :
      (failed : List String) (s : Sched) (u run : String)
      → u ≡ run
      → (has failed u ≡ true) ⊎ IsTraced u true s
      → (has failed run ≡ true) ⊎ IsKnown run s
  run_fate failed s u run e (inl f) = inl (subst (λ x. has failed x ≡ true) e f)
  run_fate failed s u run e (inr f) = inr (subst (λ x. IsKnown x s) e (f.known refl))

  pub Fate-of :
      (failed : List String) (s : Sched) (told : List (Signal P)) (run : String)
      → All (Fate failed s) told
      → has (triggered told) run ≡ true
      → (has failed run ≡ true) ⊎ IsKnown run s
  unfolding triggered has
  Fate-of failed s [] run h t = ground arith
  Fate-of failed s (workflow_failed u ∷ told) run h t = Fate-of failed s told run h.1 t
  Fate-of failed s (rule_triggered u kind payload ∷ told) run h t = elim (Bool-cases (u == run)) [
    | inl e ↦ run_fate failed s u run (same_text u run e) h.0
    | inr e ↦ Fate-of failed s told run h.1 (sym (rw e refl) ∙ t)
  ]

  module _ (c : Wiring P) where
    submit_if-IsAccounted :
        (b : Bool) (r : BusRule P) (run kind : String) (payload : Dict P.Value) (n : ℕ) (m : ℕ)
        (bus : Bus P)
        → IsAccounted bus
        → IsAccounted
            (submit_if P c b r run n
              (record bus { told = rule_triggered run kind payload ∷ bus.told; next = m })).1
    unfolding submit_if failures hand_over
    submit_if-IsAccounted false r run kind payload n m bus i = record {
      tidy = i.tidy;
      fates = (
        tt,
        (
          inl (has_first (failures bus.told) run),
          fates-fail run (failures bus.told) bus.sched bus.told i.fates,
        ),
      );
    }
    submit_if-IsAccounted true r run kind payload n m bus i =
        let w = c.worlds n in
        let context : Context = record { id = some run } in
        let t = (Submit.submit w r.key r.rule r.name context bus.sched).1.1 in
        let g = submit-Grows w r.key r.rule r.name context bus.sched in
        record {
          tidy = λ u. g u false (i.tidy u);
          fates = (
            inr (submit-IsTraced w r.key r.rule r.name run bus.sched (i.tidy run)),
            fates-Grows (failures bus.told) bus.sched t bus.told g i.fates,
          );
        }

    dispatch-IsAccounted :
        (r : BusRule P) (kind : String) (payload : Dict P.Value) (bus : Bus P)
        → IsAccounted bus
        → IsAccounted (dispatch P c r kind payload bus).1
    unfolding dispatch
    dispatch-IsAccounted r kind payload bus i =
        submit_if-IsAccounted r.is_prepared r (c.run_id bus.next) kind payload bus.next
          (suc bus.next) bus i

    schedules-IsAccounted :
        (w : World) (op : Steps.Op) (bus : Bus P)
        → IsAccounted bus
        → IsAccounted (record bus { sched = (perform w op bus.sched).1 })
    schedules-IsAccounted w op bus i =
        let g : Grows bus.sched (perform w op bus.sched).1 =
          λ run want. calls-IsTraced run want ((w, op) ∷ []) bus.sched in
        record {
          tidy = λ u. g u false (i.tidy u);
          fates =
              fates-Grows (failures bus.told) bus.sched (perform w op bus.sched).1 bus.told g
                i.fates;
        }

    keeps_accounts : KeepsDispatch P c IsAccounted
    keeps_accounts = record {
      runtimes = λ t bus i. record { tidy = i.tidy; fates = i.fates };
      dispatches = λ r kind payload bus h i. dispatch-IsAccounted r kind payload bus i;
      schedules = schedules-IsAccounted;
    }

    -- No match is lost. After any events, polls and calls of the scheduler, the run of each rule that
    -- the bus has told to be triggered has failed in its preparation, which the bus has told too, or
    -- it has been prepared for its start, told to be dropped or replaced, or it waits in a queue.
    pub triggered-IsKnown :
        (os : List (Op P c)) (run : String)
        → has (triggered (perform_ops P c os (fresh_bus P)).told) run ≡ true
        → (has (failures (perform_ops P c os (fresh_bus P)).told) run ≡ true)
          ⊎ IsKnown run (perform_ops P c os (fresh_bus P)).sched
    triggered-IsKnown os run h =
        let bus = perform_ops P c os (fresh_bus P) in
        let i =
          ops-Q P c IsAccounted keeps_accounts os (fresh_bus P)
            (record { tidy = start-IsTraced; fates = tt }) in
        Fate-of (failures bus.told) bus.sched bus.told run i.fates h
