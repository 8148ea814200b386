-- ===== src/Reload/Tests.antt =====
-- A reload whose triggers do not start, and the theorems at it. Rules are numbers here.
use notmy_fault.Prelude.{ℕ, ◌⊎◌, refl, none, some, true, false, []}
use notmy_fault.Reload.Check.{gives, fails, last_start, partial, Round, Reloader, check_once}
use notmy_fault.Reload.Safe.{IsDue, IsBack}
use notmy_fault.Reload.Restored.{IsAfter, check_once-IsAfter, check_once-IsBack}

-- The new triggers do not start, and the old ones do again.
abbrev round : Round ℕ
round = record {
  mtime = gives 2;
  prepared = gives 8;
  stop = gives true;
  apply = gives tt;
  start = fails;
  accept = gives tt;
  restore_stop = gives true;
  restore_apply = gives tt;
  restore_start = gives 1;
}

abbrev settled : Reloader ℕ
settled = record {
  rules_mtime = 1;
  pending_restore = none;
  error_reported = false;
  in_force = 7;
  triggers = last_start 7 1;
  error_count = 0;
  alerts = [];
}

abbrev due : Reloader ℕ
due = record settled { pending_restore = some (7, 2); in_force = 8; triggers = partial }

check_once-IsAfter_example : IsAfter round settled (check_once round settled)
check_once-IsAfter_example =
    check_once-IsAfter round true settled refl refl
      (record { nothing_due = refl; started_rules = (1, refl) })

check_once-IsBack_example : IsBack 7 2 (check_once round due) ⊎ IsDue 7 2 (check_once round due)
check_once-IsBack_example = check_once-IsBack round 7 2 due refl
