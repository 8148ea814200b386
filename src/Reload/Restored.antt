-- ===== src/Reload/Restored.antt =====
-- After a round of the reloader the rules in force are those of the supervisor's last start, or a
-- restore is due.
use notmy_fault.Prelude.{
  ℕ, ◌≡◌, sym, subst, ◌⊎◌, inl, inr, refl, none, Bool, true, false, eqb, arith, Bool-cases,
}
use notmy_fault.Reload.Check.{
  Attempt, gives, invalid, fails, partial, Round, Reloader, restore, alert, count_error, reported,
  applied, refuse, stopped, prepared_rules, seen_mtime, check_from, check_once,
}
use notmy_fault.Reload.Safe.{
  IsSettled, IsBack, IsDue, restore-Outcome, IsSafe, on_invalid_kept, on_failure_kept,
  started-IsSafe,
}

module _ {R : Type 0} where
  -- Settled or due for a restore, or the old triggers did not end in time and the file's time is not
  -- recorded.
  abbrev pub IsAfter : Round R → Reloader R → Reloader R → Type 0
  IsAfter w s t = IsSafe s.in_force t ⊎ ((w.stop ≡ gives false) × (t.rules_mtime ≡ s.rules_mtime))

  refuse-rules_mtime : (s : Reloader R) → (refuse s).rules_mtime ≡ s.rules_mtime
  unfolding refuse reported alert count_error
  refuse-rules_mtime s = elim (Bool-cases s.error_reported) [
    | inl h ↦ rw h refl
    | inr h ↦ rw h refl
  ]

  applied-IsSafe :
      (w : Round R) (old new : R) (m : ℕ) (a : Attempt Unit) (s : Reloader R)
      → a ≡ gives tt
      → s.pending_restore ≡ none
      → s.in_force ≡ new
      → IsSafe old (applied w old new m a s)
  unfolding applied
  applied-IsSafe w old new m (gives u) s e h k = started-IsSafe w old new m w.start s h k
  applied-IsSafe w old new m invalid s e h k = ground arith
  applied-IsSafe w old new m fails s e h k = ground arith

  stopped-IsAfter :
      (w : Round R) (new : R) (m : ℕ) (a : Attempt Bool) (b : Bool) (s : Reloader R)
      → w.stop ≡ a
      → a ≡ gives b
      → w.apply ≡ gives tt
      → IsSettled s
      → IsAfter w s (stopped w new m a s)
  unfolding stopped
  stopped-IsAfter w new m (gives true) b s g h k i =
      inl (applied-IsSafe w s.in_force new m w.apply _ k i.nothing_due refl)
  stopped-IsAfter w new m (gives false) b s g h k i =
      inr (g, refuse-rules_mtime (record s { triggers = partial }))
  stopped-IsAfter w new m invalid b s g h k i = ground arith
  stopped-IsAfter w new m fails b s g h k i = ground arith

  prepared-IsAfter :
      (w : Round R) (m : ℕ) (a : Attempt R) (b : Bool) (s : Reloader R)
      → w.stop ≡ gives b
      → w.apply ≡ gives tt
      → IsSettled s
      → IsAfter w s (prepared_rules w m a s)
  unfolding prepared_rules
  prepared-IsAfter w m (gives new) b s h k i = stopped-IsAfter w new m w.stop b s refl h k i
  prepared-IsAfter w m invalid b s h k i = inl (on_invalid_kept w s.in_force m s i)
  prepared-IsAfter w m fails b s h k i = inl (on_failure_kept w s.in_force m s i)

  seen-IsAfter :
      (w : Round R) (a : Attempt ℕ) (b : Bool) (s : Reloader R)
      → w.stop ≡ gives b
      → w.apply ≡ gives tt
      → IsSettled s
      → IsAfter w s (seen_mtime w a s)
  unfolding seen_mtime
  seen-IsAfter w (gives m) b s h k i = elim (Bool-cases (eqb m s.rules_mtime)) [
    | inl e ↦ rw e (inl (inl i))
    | inr e ↦ rw e (prepared-IsAfter w m w.prepared b s h k i)
  ]
  seen-IsAfter w invalid b s h k i = inl (on_invalid_kept w s.in_force s.rules_mtime s i)
  seen-IsAfter w fails b s h k i = inl (on_failure_kept w s.in_force s.rules_mtime s i)

  -- A round (`check_once`) that begins with no restore due, and with a start of the triggers for the
  -- rules in force as the supervisor's last call, which returned however many threads it started, ends
  -- so too, or with a restore of those rules due, whatever fails on the way; or else the triggers did not
  -- stop in time, and the file's time is not recorded, so that the next round tries again. The stop of
  -- the triggers and the swap of the rules do not raise.
  pub check_once-IsAfter :
      (w : Round R) (b : Bool) (s : Reloader R)
      → w.stop ≡ gives b
      → w.apply ≡ gives tt
      → IsSettled s
      → IsAfter w s (check_once w s)
  unfolding check_once check_from
  check_once-IsAfter w b s h k i =
      subst (λ o. IsAfter w s (check_from w o s)) (sym i.nothing_due)
        (seen-IsAfter w w.mtime b s h k i)

  restore_ends :
      (w : Round R) (rules : R) (m : ℕ) (s : Reloader R)
      → IsBack rules m (restore w rules m s).1 ⊎ IsDue rules m (restore w rules m s).1
  restore_ends w rules m s = elim (restore-Outcome w rules m s) [
    | inl k ↦ inl k.1
    | inr k ↦ inr k.1
  ]

  -- A round that begins with a restore due ends with it still due, or with those rules back: in force,
  -- the last call to the supervisor a start for them that returned, however many threads it started,
  -- nothing due any more, and the file's time recorded.
  pub check_once-IsBack :
      (w : Round R) (rules : R) (m : ℕ) (s : Reloader R)
      → IsDue rules m s
      → IsBack rules m (check_once w s) ⊎ IsDue rules m (check_once w s)
  unfolding check_once check_from
  check_once-IsBack w rules m s h =
      subst (λ o. IsBack rules m (check_from w o s) ⊎ IsDue rules m (check_from w o s)) (sym h)
        (restore_ends w rules m s)
