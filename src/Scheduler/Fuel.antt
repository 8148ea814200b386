-- ===== src/Scheduler/Fuel.antt =====
-- The fuel of the dispatch loop is enough: no call ends for want of it.
use notmy_fault.Prelude.{
  ℕ, zero, suc, ◌+◌, ◌*◌, ◌≤◌, String, ◌≡◌, some, List, [], ◌∷◌, inl, inr, arith, Bool-cases,
  Option-cases, false,
}
use notmy_fault.Prelude.Dict.{keys}
use notmy_fault.Scheduler.State.{Entry, World, Sched, spawned, abandon, prune, pending, reserve}
use notmy_fault.Scheduler.Dispatch.{
  Run, done, raised, out_of_fuel, and_then, re_raise, next_run, dequeue, for_keys, has_room,
  unchanged, dispatch_entry, dispatch_queued, dispatch_available,
}
use notmy_fault.Scheduler.Pending.{pending-put, pending-prune-le}

-- What is left to start, with the workers that run: a call that returns starts at least as many
-- workers as it takes out of the queues.
abbrev pub load : Sched → ℕ
load s = s.worker_count + pending s.queues

abbrev pub Settles : Sched → Run → Type 0
Settles s (done, t) = (s.worker_count ≤ t.worker_count) × (load t ≤ load s)
Settles s (raised, t) = Unit
Settles s (out_of_fuel, t) = ⊥

Settles-widen :
    (s s' : Sched) (r : Run)
    → s.worker_count ≤ s'.worker_count
    → load s' ≤ load s
    → Settles s' r
    → Settles s r
Settles-widen s s' (done, u) a b h = (omega arith, omega arith)
Settles-widen s s' (raised, u) a b h = tt
Settles-widen s s' (out_of_fuel, u) a b h = h

Settles-and_then :
    (s : Sched) (r : Run) (f : Sched → Run)
    → Settles s r
    → ((t : Sched) → s.worker_count ≤ t.worker_count → load t ≤ load s → Settles t (f t))
    → Settles s (and_then r f)
Settles-and_then s (done, t) f h k = Settles-widen s t (f t) h.0 h.1 (k t h.0 h.1)
Settles-and_then s (raised, t) f h k = tt
Settles-and_then s (out_of_fuel, t) f h k = h

Settles-re_raise : (s : Sched) (r : Run) → Settles s r → (u : Sched) → Settles u (re_raise r)
Settles-re_raise s (done, t) h u = tt
Settles-re_raise s (raised, t) h u = tt
Settles-re_raise s (out_of_fuel, t) h u = h

module _ (w : World) where
  pending-abandon :
      (key : String) (e : Entry) (s : Sched) → pending (abandon key e s).queues ≡ pending s.queues
  unfolding abandon
  pending-abandon key e s = omega arith

  -- A reservation takes one run out of the queues.
  pub dequeue_load :
      (key : String) (e : Entry) (q : List Entry) (s : Sched)
      → next_run w key s ≡ some (e, q)
      → ((dequeue key e q s).worker_count ≡ s.worker_count + 1)
        × (pending (dequeue key e q s).queues + 1 ≡ pending s.queues)
  unfolding next_run dequeue reserve
  dequeue_load key e q s h = ground (arith, pending-put s.queues key q)

  pub worker_count-prune : (key : String) (s : Sched) → (prune key s).worker_count ≡ s.worker_count
  unfolding prune
  worker_count-prune key s = ground arith

  grown_of :
      (s t : Sched)
      → unchanged s t ≡ false
      → s.worker_count ≤ t.worker_count
      → s.worker_count + 1 ≤ t.worker_count
  unfolding unchanged
  grown_of s t h k = ground arith

  for_keys-Settles :
      (fuel : ℕ) (visit : String → Sched → Run)
      → ((key : String) (s : Sched) → 3 * pending s.queues + 1 ≤ fuel → Settles s (visit key s))
      → (ks : List String) (s : Sched) → 3 * pending s.queues + 1 ≤ fuel
      → Settles s (for_keys w visit ks s)
  unfolding for_keys
  for_keys-Settles fuel visit h [] s b = (omega arith, omega arith)
  for_keys-Settles fuel visit h (key ∷ ks) s b =
      Settles-and_then s (visit key s) _ (h key s b) (λ t up down.
        let u = prune key t in
        let same = worker_count-prune key t in
        let less = pending-prune-le key t in
        elim (Bool-cases (has_room w u)) [
          | inl more ↦ rw more (
              Settles-widen t u (for_keys w visit ks u) (omega arith) (omega arith)
                (for_keys-Settles fuel visit h ks u (omega arith)))
          | inr full ↦ rw full (omega arith, omega arith)
        ])

  mutual
    unfolding dispatch_entry dispatch_queued dispatch_available spawned

    pub entry-Settles :
        (fuel : ℕ) (key : String) (e : Entry) (s : Sched)
        → 3 * pending s.queues + 3 ≤ fuel
        → Settles s (dispatch_entry w fuel key e s)
    entry-Settles zero key e s b = omega arith
    entry-Settles (suc fuel) key e s b = elim (Bool-cases (w.spawn s.spawns)) [
      | inl up ↦ rw (up, dispatch_entry) (omega arith, omega arith)
      | inr down ↦
          let same = pending-abandon key e s in
          rw (down, dispatch_entry)
            (Settles-re_raise (abandon key e s) (dispatch_available w fuel (abandon key e s))
              (available-Settles fuel (abandon key e s) (omega arith)) s)
    ]

    pub queued-Settles :
        (fuel : ℕ) (key : String) (s : Sched)
        → 3 * pending s.queues + 1 ≤ fuel
        → Settles s (dispatch_queued w fuel key s)
    queued-Settles zero key s b = omega arith
    queued-Settles (suc fuel) key s b = elim (Option-cases (next_run w key s)) [
      | inl idle ↦ rw (idle, dispatch_queued) (omega arith, omega arith)
      | inr ((e, q), next) ↦
          let s' = dequeue key e q s in
          let (one, gone) = dequeue_load key e q s next in
          rw (next, dispatch_queued)
            (Settles-widen s s' _ (omega arith) (omega arith) (
              Settles-and_then s' (dispatch_entry w fuel key e s') _
                (entry-Settles fuel key e s' (omega arith))
                (λ t up down. queued-Settles fuel key t (omega arith))))
    ]

    pub available-Settles :
        (fuel : ℕ) (s : Sched)
        → 3 * pending s.queues + 2 ≤ fuel
        → Settles s (dispatch_available w fuel s)
    available-Settles zero s b = omega arith
    available-Settles (suc fuel) s b = elim (Bool-cases (has_room w s)) [
      | inr full ↦ rw (full, dispatch_available) (omega arith, omega arith)
      | inl more ↦
          rw (more, dispatch_available)
            (Settles-and_then s (for_keys w (dispatch_queued w fuel) (keys s.queues) s) _
              (for_keys-Settles fuel (dispatch_queued w fuel) (queued-Settles fuel) (keys s.queues)
                s (omega arith))
              (λ t up down. elim (Bool-cases (unchanged s t)) [
                | inl same ↦ rw same (omega arith, omega arith)
                | inr grown ↦
                    let more' = grown_of s t grown up in
                    rw grown (available-Settles fuel t (omega arith))
              ]))
    ]
