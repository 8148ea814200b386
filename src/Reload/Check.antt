-- ===== src/Reload/Check.antt =====
-- `RulesHotReloader`, over what its callables do to the engine: the rules in force
-- (`_apply_hot_reload_rules` of notmyfault/core/engine.py swaps them) and the last call of the
-- trigger supervisor's start or stop.
use notmy_fault.Prelude.{
  ℕ, ◌+◌, Option, none, some, Bool, true, false, not, List, [], ◌∷◌, ◌++◌, eqb, if◌then◌else◌,
}

-- How one call of a callable ends: with a value, a ConfigValidationError or another exception.
pub data Attempt (A : Type 0) : Type 0 where
  gives : A → Attempt A
  invalid fails : Attempt A

pub data Alert : Type 0 where
  reload_refused rules_invalid restore_failed reload_failed : Alert

-- What the supervisor was last asked: a start for these rules, which returned and told that it started
-- so many threads, perhaps none, for one that cannot start is only logged; a stop that ended in time; or
-- a start or a stop that did not end so.
pub data Triggers (R : Type 0) : Type 0 where
  last_start : R → ℕ → Triggers R
  off partial : Triggers R

-- What one callable each answers in one round; the second group is for a restore.
pub record Round (R : Type 0) : Type 0 where
  pub mtime : Attempt ℕ
  pub prepared : Attempt R
  pub stop : Attempt Bool
  pub apply : Attempt Unit
  pub start : Attempt ℕ
  pub accept : Attempt Unit
  pub restore_stop : Attempt Bool
  pub restore_apply : Attempt Unit
  pub restore_start : Attempt ℕ

pub record Reloader (R : Type 0) : Type 0 where
  pub rules_mtime : ℕ
  pub pending_restore : Option (R × ℕ)
  pub error_reported : Bool
  pub in_force : R
  pub triggers : Triggers R
  pub error_count : ℕ
  pub alerts : List Alert

module _ {R : Type 0} where
  unfoldable pub restore_started : R → ℕ → Attempt ℕ → Reloader R → Bool × Reloader R
  restore_started rules m (gives n) s =
      (true, record s { triggers = last_start rules n; rules_mtime = m; pending_restore = none })
  restore_started rules m _ s = (false, record s { triggers = partial })

  unfoldable pub restore_applied : Round R → R → ℕ → Attempt Unit → Reloader R → Bool × Reloader R
  unfolding restore_started
  restore_applied w rules m (gives _) s = restore_started rules m w.restore_start s
  restore_applied w rules m _ s = (false, s)

  unfoldable pub restore_stopped : Round R → R → ℕ → Attempt Bool → Reloader R → Bool × Reloader R
  unfolding restore_applied
  restore_stopped w rules m (gives true) s =
      restore_applied w rules m w.restore_apply (record s { in_force = rules; triggers = off })
  restore_stopped w rules m _ s = (false, record s { triggers = partial })

  -- `_restore_previous_rules`
  unfoldable pub restore : Round R → R → ℕ → Reloader R → Bool × Reloader R
  unfolding restore_stopped
  restore w rules m s =
      restore_stopped w rules m w.restore_stop (record s { pending_restore = some (rules, m) })

  unfoldable pub alert : Alert → Reloader R → Reloader R
  alert a s = record s { alerts = s.alerts ++ a ∷ [] }

  unfoldable pub restore_if : Round R → Option R → ℕ → Reloader R → Bool × Reloader R
  restore_if w none m s = (true, s)
  restore_if w (some rules) m s = restore w rules m s

  -- self._diagnostics.inc_hot_reload_error()
  unfoldable pub count_error : Reloader R → Reloader R
  count_error s = record s { error_count = s.error_count + 1 }

  unfoldable pub reported : Reloader R → Reloader R
  reported s = record s { error_reported = true }

  unfoldable pub record_mtime : Bool → ℕ → Reloader R → Reloader R
  record_mtime restored m s = if restored then record s { rules_mtime = m } else s

  -- except ConfigValidationError
  unfoldable pub on_invalid : Round R → Option R → ℕ → Reloader R → Reloader R
  on_invalid w previous m s =
      let r = restore_if w previous m s in
      let t = count_error r.1 in
      let u = if t.error_reported then t else alert rules_invalid (reported t) in
      let v = if r.0 then u else alert restore_failed u in record_mtime r.0 m v

  -- except Exception
  unfoldable pub on_failure : Round R → Option R → ℕ → Reloader R → Reloader R
  on_failure w previous m s =
      let r = restore_if w previous m s in
      let t = count_error r.1 in
      let u =
        if not r.0
        then alert restore_failed t
        else if t.error_reported
        then t
        else alert reload_failed t in
      record_mtime r.0 m (reported u)

  unfoldable pub accepted : Round R → R → ℕ → Attempt Unit → Reloader R → Reloader R
  accepted w old m (gives _) s = record s { error_reported = false; rules_mtime = m }
  accepted w old m invalid s = on_invalid w (some old) m s
  accepted w old m fails s = on_failure w (some old) m s

  unfoldable pub started : Round R → R → R → ℕ → Attempt ℕ → Reloader R → Reloader R
  started w old new m (gives n) s =
      accepted w old m w.accept (record s { triggers = last_start new n })
  started w old new m invalid s = on_invalid w (some old) m (record s { triggers = partial })
  started w old new m fails s = on_failure w (some old) m (record s { triggers = partial })

  -- The rules are swapped before `apply` can raise.
  unfoldable pub applied : Round R → R → R → ℕ → Attempt Unit → Reloader R → Reloader R
  applied w old new m (gives _) s = started w old new m w.start s
  applied w old new m invalid s = on_invalid w none m s
  applied w old new m fails s = on_failure w none m s

  -- The old triggers did not end in time: the new rules are not applied, and the next round tries again.
  unfoldable pub refuse : Reloader R → Reloader R
  refuse s = if s.error_reported then s else reported (alert reload_refused (count_error s))

  unfoldable pub stopped : Round R → R → ℕ → Attempt Bool → Reloader R → Reloader R
  stopped w new m (gives true) s =
      applied w s.in_force new m w.apply (record s { triggers = off; in_force = new })
  stopped w new m (gives false) s = refuse (record s { triggers = partial })
  stopped w new m invalid s = on_invalid w none m (record s { triggers = partial })
  stopped w new m fails s = on_failure w none m (record s { triggers = partial })

  unfoldable pub prepared_rules : Round R → ℕ → Attempt R → Reloader R → Reloader R
  prepared_rules w m (gives new) s = stopped w new m w.stop s
  prepared_rules w m invalid s = on_invalid w none m s
  prepared_rules w m fails s = on_failure w none m s

  unfoldable pub seen_mtime : Round R → Attempt ℕ → Reloader R → Reloader R
  seen_mtime w (gives m) s = if eqb m s.rules_mtime then s else prepared_rules w m w.prepared s
  seen_mtime w invalid s = on_invalid w none s.rules_mtime s
  seen_mtime w fails s = on_failure w none s.rules_mtime s

  unfoldable pub check_from : Round R → Option (R × ℕ) → Reloader R → Reloader R
  check_from w (some (rules, m)) s = (restore w rules m s).1
  check_from w none s = seen_mtime w w.mtime s

  -- `check_once`
  unfoldable pub check_once : Round R → Reloader R → Reloader R
  check_once w s = check_from w s.pending_restore s
