-- ===== src/Scheduler/Rule.antt =====
-- A proof rule for the dispatch loop: what every reservation, start, failed start and pruning
-- keeps, the whole loop keeps.
use notmy_fault.Prelude.{
  ℕ, zero, suc, String, ◌≡◌, some, List, [], ◌∷◌, inl, inr, Bool, true, false, if◌then◌else◌,
  Bool-cases, Option-cases,
}
use notmy_fault.Prelude.Dict.{keys}
use notmy_fault.Scheduler.State.{Entry, World, Sched, spawned, abandon, prune}
use notmy_fault.Scheduler.Dispatch.{
  Run, done, raised, out_of_fuel, and_then, re_raise, next_run, dequeue, for_keys, has_room,
  unchanged, dispatch_entry, dispatch_queued, dispatch_available,
}

-- `P` holds where a call ends, unless the model's fuel ran out.
abbrev pub Ends {ℓ} : (Sched → Type ℓ) → Run → Type ℓ
Ends P (done, s) = P s
Ends P (raised, s) = P s
Ends P (out_of_fuel, s) = Unit

-- `R` holds between a reservation and the start of its worker.
pub record Keeps {ℓ} (w : World) (P : Sched → Type ℓ) (R : String → Entry → Sched → Type ℓ)
    : Type ℓ where
  pub reserve :
      (key : String) (e : Entry) (q : List Entry) (s : Sched)
      → P s
      → next_run w key s ≡ some (e, q)
      → R key e (dequeue key e q s)
  pub start : (key : String) (e : Entry) (s : Sched) → R key e s → P (spawned key e s)
  pub fail : (key : String) (e : Entry) (s : Sched) → R key e s → P (abandon key e s)
  pub clean : (key : String) (s : Sched) → P s → P (prune key s)

module _ {ℓ} (P : Sched → Type ℓ) where
  pub Ends-and_then :
      (r : Run) (f : Sched → Run)
      → Ends P r
      → ((s : Sched) → P s → Ends P (f s))
      → Ends P (and_then r f)
  Ends-and_then (done, s) f h k = k s h
  Ends-and_then (raised, s) f h k = h
  Ends-and_then (out_of_fuel, s) f h k = tt

  pub Ends-if : (b : Bool) (r r' : Run) → Ends P r → Ends P r' → Ends P (if b then r else r')
  Ends-if true r r' h h' = h
  Ends-if false r r' h h' = h'

  pub Ends-re_raise : (r : Run) → Ends P r → Ends P (re_raise r)
  Ends-re_raise (done, s) h = h
  Ends-re_raise (raised, s) h = h
  Ends-re_raise (out_of_fuel, s) h = tt

module _ {ℓ} {w : World} {P : Sched → Type ℓ} {R : String → Entry → Sched → Type ℓ}
    (k : Keeps w P R) where
  for_keys-Ends :
      (visit : String → Sched → Run)
      → ((key : String) (s : Sched) → P s → Ends P (visit key s))
      → (ks : List String) (s : Sched) → P s
      → Ends P (for_keys w visit ks s)
  unfolding for_keys
  for_keys-Ends visit h [] s p = p
  for_keys-Ends visit h (key ∷ ks) s p = Ends-and_then P (visit key s) _ (h key s p) (λ t pt.
      elim (Bool-cases (has_room w (prune key t))) [
        | inl more ↦ rw more (for_keys-Ends visit h ks (prune key t) (k.clean key t pt))
        | inr full ↦ rw full (k.clean key t pt)
      ])

  mutual
    unfolding dispatch_entry dispatch_queued dispatch_available

    pub entry-Ends :
        (fuel : ℕ) (key : String) (e : Entry) (s : Sched)
        → R key e s
        → Ends P (dispatch_entry w fuel key e s)
    entry-Ends zero key e s r = tt
    entry-Ends (suc fuel) key e s r = elim (Bool-cases (w.spawn s.spawns)) [
      | inl up ↦ rw up (k.start key e s r)
      | inr down ↦ rw down (
          Ends-re_raise P (dispatch_available w fuel (abandon key e s))
            (available-Ends fuel (abandon key e s) (k.fail key e s r)))
    ]

    pub queued-Ends :
        (fuel : ℕ) (key : String) (s : Sched) → P s → Ends P (dispatch_queued w fuel key s)
    queued-Ends zero key s p = tt
    queued-Ends (suc fuel) key s p = elim (Option-cases (next_run w key s)) [
      | inl idle ↦ rw (idle, dispatch_queued) p
      | inr ((e, q), next) ↦
          rw (next, dispatch_queued)
            (Ends-and_then P (dispatch_entry w fuel key e (dequeue key e q s)) _
              (entry-Ends fuel key e (dequeue key e q s) (k.reserve key e q s p next))
              (queued-Ends fuel key))
    ]

    pub available-Ends : (fuel : ℕ) (s : Sched) → P s → Ends P (dispatch_available w fuel s)
    available-Ends zero s p = tt
    available-Ends (suc fuel) s p = elim (Bool-cases (has_room w s)) [
      | inr full ↦ rw (full, dispatch_available) p
      | inl more ↦
          rw (more, dispatch_available)
            (Ends-and_then P (for_keys w (dispatch_queued w fuel) (keys s.queues) s) _
              (for_keys-Ends (dispatch_queued w fuel) (queued-Ends fuel) (keys s.queues) s p)
              (λ t pt. elim (Bool-cases (unchanged s t)) [
                | inl same ↦ rw same pt
                | inr grown ↦ rw grown (available-Ends fuel t pt)
              ]))
    ]
