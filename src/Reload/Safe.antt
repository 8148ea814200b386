-- ===== src/Reload/Safe.antt =====
-- The parts of a round leave the rules in force those of the last start, or a restore of them due.
use notmy_fault.Prelude.{
  ℕ, ◌≡◌, ◌∙◌, ap, sym, ◌⊎◌, inl, inr, refl, Option, none, some, Bool, true, false, Bool-cases,
}
use notmy_fault.Reload.Check.{
  Attempt, gives, invalid, fails, last_start, Round, Reloader, restore_started, restore_applied,
  restore_stopped, restore, restore_if, alert, count_error, reported, record_mtime, on_invalid,
  on_failure, accepted, started,
}

module _ {R : Type 0} where
  -- No restore is due, and the supervisor's last call is a start for the rules in force that returned,
  -- however many threads it started.
  pub record IsSettled (s : Reloader R) : Type 0 where
    pub nothing_due : s.pending_restore ≡ none
    pub started_rules : (n : ℕ) × (s.triggers ≡ last_start s.in_force n)

  -- The given rules are back, and the file's time is recorded.
  pub record IsBack (rules : R) (m : ℕ) (s : Reloader R) : Type 0 where
    pub settled : IsSettled s
    pub same : s.in_force ≡ rules
    pub seen : s.rules_mtime ≡ m

  abbrev pub IsDue : R → ℕ → Reloader R → Type 0
  IsDue rules m s = s.pending_restore ≡ some (rules, m)

  abbrev Outcome : R → ℕ → Bool × Reloader R → Type 0
  Outcome rules m r = ((r.0 ≡ true) × IsBack rules m r.1) ⊎ ((r.0 ≡ false) × IsDue rules m r.1)

  restore_started-Outcome :
      (rules : R) (m : ℕ) (a : Attempt ℕ) (s : Reloader R)
      → IsDue rules m s
      → s.in_force ≡ rules
      → Outcome rules m (restore_started rules m a s)
  unfolding restore_started
  restore_started-Outcome rules m (gives n) s h k = inl (
    refl,
    record {
      settled = record { nothing_due = refl; started_rules = (n, rw k refl) };
      same = k;
      seen = refl;
    },
  )
  restore_started-Outcome rules m invalid s h k = inr (refl, h)
  restore_started-Outcome rules m fails s h k = inr (refl, h)

  restore_applied-Outcome :
      (w : Round R) (rules : R) (m : ℕ) (a : Attempt Unit) (s : Reloader R)
      → IsDue rules m s
      → s.in_force ≡ rules
      → Outcome rules m (restore_applied w rules m a s)
  unfolding restore_applied
  restore_applied-Outcome w rules m (gives u) s h k =
      restore_started-Outcome rules m w.restore_start s h k
  restore_applied-Outcome w rules m invalid s h k = inr (refl, h)
  restore_applied-Outcome w rules m fails s h k = inr (refl, h)

  restore_stopped-Outcome :
      (w : Round R) (rules : R) (m : ℕ) (a : Attempt Bool) (s : Reloader R)
      → IsDue rules m s
      → Outcome rules m (restore_stopped w rules m a s)
  unfolding restore_stopped
  restore_stopped-Outcome w rules m (gives true) s h =
      restore_applied-Outcome w rules m w.restore_apply _ h refl
  restore_stopped-Outcome w rules m (gives false) s h = inr (refl, h)
  restore_stopped-Outcome w rules m invalid s h = inr (refl, h)
  restore_stopped-Outcome w rules m fails s h = inr (refl, h)

  pub restore-Outcome :
      (w : Round R) (rules : R) (m : ℕ) (s : Reloader R) → Outcome rules m (restore w rules m s)
  unfolding restore
  restore-Outcome w rules m s = restore_stopped-Outcome w rules m w.restore_stop _ refl

  IsLike : Reloader R → Reloader R → Type 0
  IsLike s r =
      (s.pending_restore ≡ r.pending_restore)
      × (s.in_force ≡ r.in_force)
      × (s.triggers ≡ r.triggers)

  on_invalid-IsLike :
      (w : Round R) (p : Option R) (m : ℕ) (s : Reloader R)
      → IsLike (on_invalid w p m s) (restore_if w p m s).1
  unfolding on_invalid record_mtime alert reported count_error IsLike
  on_invalid-IsLike w p m s =
      let r = restore_if w p m s in
      elim (Bool-cases r.0) [
        | inl h ↦ rw h (elim (Bool-cases r.1.error_reported) [
          | inl k ↦ rw k (refl, refl, refl)
          | inr k ↦ rw k (refl, refl, refl)
        ])
        | inr h ↦ rw h (elim (Bool-cases r.1.error_reported) [
          | inl k ↦ rw k (refl, refl, refl)
          | inr k ↦ rw k (refl, refl, refl)
        ])
      ]

  on_failure-IsLike :
      (w : Round R) (p : Option R) (m : ℕ) (s : Reloader R)
      → IsLike (on_failure w p m s) (restore_if w p m s).1
  unfolding on_failure record_mtime alert reported count_error IsLike
  on_failure-IsLike w p m s =
      let r = restore_if w p m s in
      elim (Bool-cases r.0) [
        | inl h ↦ rw h (elim (Bool-cases r.1.error_reported) [
          | inl k ↦ rw k (refl, refl, refl)
          | inr k ↦ rw k (refl, refl, refl)
        ])
        | inr h ↦ rw h (refl, refl, refl)
      ]

  -- Settled, or the old rules are due to be restored.
  abbrev pub IsSafe : R → Reloader R → Type 0
  IsSafe old t = IsSettled t ⊎ ((m : ℕ) × IsDue old m t)

  like-IsSafe : (old : R) (s r : Reloader R) → IsLike s r → IsSafe old r → IsSafe old s
  unfolding IsLike
  like-IsSafe old s r h (inl k) = inl (record {
    nothing_due = h.0 ∙ k.nothing_due;
    started_rules = (
      k.started_rules.0,
      h.2 ∙ k.started_rules.1 ∙ ap (λ r. last_start r k.started_rules.0) (sym h.1),
    );
  })
  like-IsSafe old s r h (inr (m, k)) = inr (m, h.0 ∙ k)

  restore-IsSafe :
      (w : Round R) (old : R) (m : ℕ) (s : Reloader R) → IsSafe old (restore w old m s).1
  restore-IsSafe w old m s = elim (restore-Outcome w old m s) [
    | inl h ↦ inl h.1.settled
    | inr h ↦ inr (m, h.1)
  ]

  on_invalid-IsSafe :
      (w : Round R) (old : R) (m : ℕ) (s : Reloader R) → IsSafe old (on_invalid w (some old) m s)
  on_invalid-IsSafe w old m s =
      like-IsSafe old (on_invalid w (some old) m s) (restore w old m s).1
        (unfold restore_if in on_invalid-IsLike w (some old) m s) (restore-IsSafe w old m s)

  on_failure-IsSafe :
      (w : Round R) (old : R) (m : ℕ) (s : Reloader R) → IsSafe old (on_failure w (some old) m s)
  on_failure-IsSafe w old m s =
      like-IsSafe old (on_failure w (some old) m s) (restore w old m s).1
        (unfold restore_if in on_failure-IsLike w (some old) m s) (restore-IsSafe w old m s)

  pub on_invalid_kept :
      (w : Round R) (old : R) (m : ℕ) (s : Reloader R)
      → IsSettled s
      → IsSafe old (on_invalid w none m s)
  on_invalid_kept w old m s h =
      like-IsSafe old (on_invalid w none m s) s (unfold restore_if in on_invalid-IsLike w none m s)
        (inl h)

  pub on_failure_kept :
      (w : Round R) (old : R) (m : ℕ) (s : Reloader R)
      → IsSettled s
      → IsSafe old (on_failure w none m s)
  on_failure_kept w old m s h =
      like-IsSafe old (on_failure w none m s) s (unfold restore_if in on_failure-IsLike w none m s)
        (inl h)

  accepted-IsSafe :
      (w : Round R) (old : R) (m : ℕ) (a : Attempt Unit) (s : Reloader R)
      → IsSettled s
      → IsSafe old (accepted w old m a s)
  unfolding accepted
  accepted-IsSafe w old m (gives u) s h =
      inl (record { nothing_due = h.nothing_due; started_rules = h.started_rules })
  accepted-IsSafe w old m invalid s h = on_invalid-IsSafe w old m s
  accepted-IsSafe w old m fails s h = on_failure-IsSafe w old m s

  pub started-IsSafe :
      (w : Round R) (old new : R) (m : ℕ) (a : Attempt ℕ) (s : Reloader R)
      → s.pending_restore ≡ none
      → s.in_force ≡ new
      → IsSafe old (started w old new m a s)
  unfolding started
  started-IsSafe w old new m (gives n) s h k =
      accepted-IsSafe w old m w.accept _
        (record { nothing_due = h; started_rules = (n, rw k refl) })
  started-IsSafe w old new m invalid s h k = on_invalid-IsSafe w old m _
  started-IsSafe w old new m fails s h k = on_failure-IsSafe w old m _
