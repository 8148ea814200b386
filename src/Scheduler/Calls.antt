-- ===== src/Scheduler/Calls.antt =====
-- A proof rule for whole calls of the scheduler: what each of the updates that the calls are made
-- of keeps, every call keeps. `Q` restricts the runs that are submitted.
use notmy_fault.Prelude.{
  ℕ, ◌-◌, ◌≢◌, refl, String, ◌≡◌, ◌∙◌, Option, none, some, Bool, true, false, inl, inr, ◌&&◌, not,
  ◌==◌, leb, length, Option-cases, get_elem?, set, remove_at, if◌then◌else◌,
}
use notmy_fault.Prelude.Dict.{get}
use notmy_fault.Prelude.Texts.{has}
use notmy_fault.Scheduler.Config.{Rule, Mode, concurrency_config, queue_cap}
use notmy_fault.Scheduler.State.{
  Context, Kind, Reason, Entry, Worker, Phase, running, retired, World, Sched, emit, members,
  discard_in, pending, prune, pending_limit, reserve, workflow_failed, execution_failed,
  run_dropped, engine_closing, already_running, queue_full, scheduler_full,
}
use notmy_fault.Scheduler.Dispatch.{Run, done, raised, out_of_fuel, enough, dispatch_queued}
use notmy_fault.Scheduler.Rule.{Ends, Ends-if, Keeps, entry-Ends, queued-Ends, available-Ends}
use notmy_fault.Scheduler.Frame.{
  make_way-shutting_down, make_way-removed, shutting_down-register, removed-register,
}
use notmy_fault.Scheduler.Submit.{
  Submitted, submit, submit_open, place, register, request, is_single, is_busy, make_way, enqueue,
  may_start,
}
use notmy_fault.Scheduler.Operations.{
  release, ends_run, release_found, retire_at, finish_at, prune_after, rule_key_of, on_run_event,
  retire_run, retire, finish_worker, finish, drop_rule, shutdown,
}
use notmy_fault.Scheduler.Steps.{Op, perform}
use notmy_fault.Scheduler.Total.{perform-ends}

pub record Upholds {ℓ κ} (w : World) (P : Sched → Type ℓ) (R : String → Entry → Sched → Type ℓ)
    (Q : String → Entry → Type κ) : Type (ℓ ⊔ κ) where
  pub loop : Keeps w P R
  pub record_event :
      (kind : Kind) (e : Entry) (reason : Reason) (s : Sched) → P s → P (emit kind e reason s)
  pub registering : (key : String) (s : Sched) → P s → P (register key s)
  pub making_way :
      (key : String) (e : Entry) (mode : Mode) (s : Sched) → P s → P (make_way w key e mode s)
  pub starting :
      (key : String) (e : Entry) (s : Sched)
      → P s
      → Q key e
      → s.shutting_down ≡ false
      → may_start w key (concurrency_config e.rule) s ≡ true
      → R key e (reserve key e s)
  pub queueing :
      (key : String) (e : Entry) (s : Sched)
      → P s
      → Q key e
      → has s.removed key ≡ false
      → leb (pending_limit w) (pending s.queues) ≡ false
      → P (enqueue key e s)
  pub leaving :
      (key run : String) (s : Sched) → P s → P (record s { active = discard_in s.active key run })
  pub dropping : (key : String) (s : Sched) → P s → P (drop_rule key s).1
  pub closing : (s : Sched) → P s → P (shutdown s)
  pub changing_phase :
      (i : ℕ) (k : Worker) (s : Sched) → P s → P (record s { workers = set s.workers i k })
  pub ending :
      (i : ℕ) (k : Worker) (s : Sched)
      → P s
      → get_elem? s.workers i ≡ some k
      → P (record s { workers = remove_at s.workers i; worker_count = s.worker_count - 1 })
  pub executed :
      (key run : String) (s : Sched)
      → P s
      → P (record s { executing = discard_in s.executing key run })

-- The restriction on a call.
abbrev pub Allowed {κ} : (String → Entry → Type κ) → Op → Type κ
Allowed Q (Op.submit key rule name context) = Q key (request rule name context)
Allowed Q _ = Unit

module _ {ℓ κ} {w : World} {P : Sched → Type ℓ} {R : String → Entry → Sched → Type ℓ}
    {Q : String → Entry → Type κ} (u : Upholds w P R Q) where
  Ends-if_submitted :
      (b : Bool) (r r' : Submitted)
      → (b ≡ true → Ends P r.1)
      → (b ≡ false → Ends P r'.1)
      → Ends P (if b then r else r').1
  Ends-if_submitted true r r' h h' = h refl
  Ends-if_submitted false r r' h h' = h' refl

  place-Ends :
      (key : String) (e : Entry) (s : Sched)
      → P s
      → Q key e
      → s.shutting_down ≡ false
      → has s.removed key ≡ false
      → Ends P (place w key e (concurrency_config e.rule) s).1
  unfolding place
  place-Ends key e s h q up here =
      let c = concurrency_config e.rule in
      Ends-if_submitted (may_start w key c s) _ _
        (λ room.
          entry-Ends u.loop (enough s) key e (reserve key e s) (u.starting key e s h q up room))
        (λ full.
          Ends-if_submitted (leb (queue_cap c) (length (members s.queues key))) _ _
            (λ long. u.record_event run_dropped e queue_full s h)
            (λ short.
              Ends-if_submitted (leb (pending_limit w) (pending s.queues)) _ _
                (λ many. u.record_event run_dropped e scheduler_full s h)
                (λ few. u.queueing key e s h q here few)))

  submit_open-Ends :
      (key : String) (e : Entry) (s : Sched)
      → P s
      → Q key e
      → s.shutting_down ≡ false
      → has s.removed key ≡ false
      → Ends P (submit_open w key e (concurrency_config e.rule) s).1
  unfolding submit_open
  submit_open-Ends key e s h q up here =
      let c = concurrency_config e.rule in
      Ends-if_submitted (is_single c.mode && is_busy key s) _ (place w key e c _)
        (λ _. u.record_event run_dropped e already_running s h)
        (λ _.
          place-Ends key e _ (u.making_way key e c.mode s h) q
            (make_way-shutting_down w key e c.mode s ∙ up)
            (rw (make_way-removed w key e c.mode s) here))

  submit-Ends :
      (key : String) (rule : Rule) (name : String) (context : Context) (s : Sched)
      → P s
      → Q key (request rule name context)
      → Ends P (submit w key rule name context s).1
  unfolding submit request
  submit-Ends key rule name context s h q =
      Ends-if_submitted s.shutting_down _ (submit_open w key _ _ _)
        (λ _. u.record_event run_dropped (request rule name context) engine_closing s h)
        (λ up.
          submit_open-Ends key (request rule name context) _ (u.registering key s h) q
            (shutting_down-register key s ∙ up) (removed-register key s))

  prune_after-Ends : (key : String) (r : Run) → Ends P r → Ends P (prune_after key r)
  prune_after-Ends key (done, t) h = u.loop.clean key t h
  prune_after-Ends key (raised, t) h = h
  prune_after-Ends key (out_of_fuel, t) h = tt

  release-Ends : (key run : String) (s : Sched) → P s → Ends P (release w key run s)
  unfolding release
  release-Ends key run s h =
      let t = record s { active = discard_in s.active key run } in
      prune_after-Ends key (dispatch_queued w (enough s) key t)
        (queued-Ends u.loop (enough s) key t (u.leaving key run s h))

  release_found-Ends :
      (run : String) (key : Option String) (s : Sched) → P s → Ends P (release_found w run key s)
  unfolding release_found
  release_found-Ends run none s h = h
  release_found-Ends run (some key) s h =
      Ends-if P (has (members s.active key) run) _ (done, s) (release-Ends key run s h) h

  on_run_event-Ends :
      (kind : String) (run : Option String) (s : Sched) → P s → Ends P (on_run_event w kind run s)
  unfolding on_run_event
  on_run_event-Ends kind none s h = h
  on_run_event-Ends kind (some run) s h =
      let found = release_found w run (rule_key_of s.active run) s in
      Ends-if P (not (ends_run kind)) (done, s) (if run == "" then (done, s) else found) h
        (Ends-if P (run == "") (done, s) found h
          (release_found-Ends run (rule_key_of s.active run) s h))

  retire_run-Ends :
      (returned : Bool) (k : Worker) (s : Sched) → P s → Ends P (retire_run w returned k s)
  unfolding retire_run
  retire_run-Ends true k s h =
      Ends-if P (k.entry.run_id == "") _ _ h (release-Ends k.rule_key k.entry.run_id s h)
  retire_run-Ends false k s h =
      let h' = u.record_event workflow_failed k.entry execution_failed s h in
      Ends-if P (k.entry.run_id == "") (done, _) (release w k.rule_key k.entry.run_id _) h'
        (release-Ends k.rule_key k.entry.run_id _ h')

  finish_worker-Ends : (k : Worker) (s : Sched) → P s → Ends P (finish_worker w k s)
  unfolding finish_worker
  finish_worker-Ends k s h = elim (Option-cases (get s.executing k.rule_key)) [
    | inl gone ↦ rw (gone, finish_worker) h
    | inr (runs, found) ↦
        let s' = record s { executing = discard_in s.executing k.rule_key k.entry.run_id } in
        let t = prune k.rule_key s' in
        rw (found, finish_worker)
          (available-Ends u.loop (enough t) t
            (u.loop.clean k.rule_key s' (u.executed k.rule_key k.entry.run_id s h)))
  ]

  retire-Ends :
      (returned : Bool) (i : ℕ) (k : Worker) (p : Phase) (s : Sched)
      → P s
      → Ends P (retire_at w returned i k p s)
  unfolding retire_at
  retire-Ends returned i k retired s h = h
  retire-Ends returned i k running s h =
      retire_run-Ends returned k _ (u.changing_phase i (record k { phase = retired }) s h)

  finish-Ends :
      (i : ℕ) (k : Worker) (p : Phase) (s : Sched)
      → P s
      → get_elem? s.workers i ≡ some k
      → Ends P (finish_at w i k p s)
  unfolding finish_at
  finish-Ends i k running s h found = h
  finish-Ends i k retired s h found = finish_worker-Ends k _ (u.ending i k s h found)

  perform-Ends : (op : Op) (s : Sched) → P s → Allowed Q op → Ends P (perform w op s)
  unfolding perform
  perform-Ends (Op.submit key rule name context) s h q = submit-Ends key rule name context s h q
  perform-Ends (Op.run_event kind run) s h q = on_run_event-Ends kind run s h
  perform-Ends (Op.drop key) s h q = u.dropping key s h
  perform-Ends Op.close s h q = u.closing s h
  perform-Ends (Op.run_ended returned i) s h q = elim (Option-cases (get_elem? s.workers i)) [
    | inl absent ↦ unfold retire in rw (absent, retire) h
    | inr (k, found) ↦ unfold retire in rw (found, retire) (retire-Ends returned i k k.phase s h)
  ]
  perform-Ends (Op.worker_ended i) s h q = elim (Option-cases (get_elem? s.workers i)) [
    | inl absent ↦ unfold finish in rw (absent, finish) h
    | inr (k, found) ↦ unfold finish in rw (found, finish) (finish-Ends i k k.phase s h found)
  ]

  at_end : (r : Run) → Ends P r → r.0 ≢ out_of_fuel → P r.1
  at_end (done, s) h k = h
  at_end (raised, s) h k = h
  at_end (out_of_fuel, s) h k = absurd (k refl)

  pub perform_rule : (op : Op) (s : Sched) → P s → Allowed Q op → P (perform w op s).1
  perform_rule op s h q = at_end (perform w op s) (perform-Ends op s h q) (perform-ends w op s)
