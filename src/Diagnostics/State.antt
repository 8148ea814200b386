-- ===== src/Diagnostics/State.antt =====
-- `Diagnostics` with its methods, each of which holds the lock from its start to its end.
use Prim.Native.String.{[] as empty, ◌∷◌ as ◌<∷>◌, ◌++◌ as ◌<>◌}
use notmy_fault.Prelude.{ℕ, zero, suc, ◌-◌, String, List, [], ◌∷◌, ◌++◌, length, ltb, if◌then◌else◌}

-- `_data`
pub record Diagnostics : Type 0 where
  pub plugin_errors : List (String × (String × String))
  pub rule_issues : List (String × String)
  pub action_ok : ℕ
  pub action_fail : ℕ
  pub hot_reload_errors : ℕ
  pub trigger_crashes : ℕ
  pub trigger_crash_details : List (String × String)
  pub errors : List (String × String)

abbrev pub start : Diagnostics
start = record {
  plugin_errors = [];
  rule_issues = [];
  action_ok = 0;
  action_fail = 0;
  hot_reload_errors = 0;
  trigger_crashes = 0;
  trigger_crash_details = [];
  errors = [];
}

-- _MAX_ERRORS, _MAX_PLUGIN_ERRORS, _MAX_RULE_ISSUES and the limit of the crash details
abbrev pub max_errors : ℕ
max_errors = 50

abbrev pub max_plugin_errors : ℕ
max_plugin_errors = 200

abbrev pub max_rule_issues : ℕ
max_rule_issues = 500

abbrev pub max_crash_details : ℕ
max_crash_details = 20

module _ {ℓ} {A : Type ℓ} where
  -- del xs[:n]
  unfoldable pub drop : ℕ → List A → List A
  drop zero xs = xs
  drop (suc n) [] = []
  drop (suc n) (x ∷ xs) = drop n xs

  -- Drops the oldest entries above the limit.
  unfoldable pub trim : ℕ → List A → List A
  trim limit xs = if ltb limit (length xs) then drop (length xs - limit) xs else xs

  unfoldable pub record_in : ℕ → List A → A → List A
  record_in limit xs x = trim limit (xs ++ x ∷ [])

-- text[:n]
unfoldable pub cut : ℕ → String → String
cut zero s = ""
cut (suc n) empty = ""
cut (suc n) (c <∷> s) = c <∷> cut n s

unfoldable pub record_plugin_error : String → String → String → Diagnostics → Diagnostics
record_plugin_error store plugin_id reason s = record s {
  plugin_errors = record_in max_plugin_errors s.plugin_errors (store, (plugin_id, reason));
}

unfoldable pub reset_rule_issues : Diagnostics → Diagnostics
reset_rule_issues s = record s { rule_issues = [] }

unfoldable pub add_rule_issue : String → String → Diagnostics → Diagnostics
add_rule_issue rule_name issue s = record s {
  rule_issues = record_in max_rule_issues s.rule_issues (rule_name, issue);
}

unfoldable pub inc_action_ok : Diagnostics → Diagnostics
inc_action_ok s = record s { action_ok = suc s.action_ok }

unfoldable pub inc_action_fail : Diagnostics → Diagnostics
inc_action_fail s = record s { action_fail = suc s.action_fail }

unfoldable pub inc_hot_reload_error : Diagnostics → Diagnostics
inc_hot_reload_error s = record s { hot_reload_errors = suc s.hot_reload_errors }

unfoldable pub record_error : String → String → Diagnostics → Diagnostics
record_error category detail s = record s {
  errors = record_in max_errors s.errors (category, detail);
}

unfoldable pub record_trigger_crash : String → String → Diagnostics → Diagnostics
record_trigger_crash trigger_id error s = record s {
  trigger_crashes = suc s.trigger_crashes;
  errors = record_in max_errors s.errors ("trigger_crash", trigger_id <> (": " <> error));
  trigger_crash_details =
      record_in max_crash_details s.trigger_crash_details (trigger_id, cut 300 error);
}

-- A call of a method.
pub data Call : Type 0 where
  plugin_error : String → String → String → Call
  reset : Call
  rule_issue : String → String → Call
  action_done action_failed reload_error : Call
  report crash : String → String → Call

unfoldable pub perform : Call → Diagnostics → Diagnostics
perform (plugin_error a b c) s = record_plugin_error a b c s
perform reset s = reset_rule_issues s
perform (rule_issue a b) s = add_rule_issue a b s
perform action_done s = inc_action_ok s
perform action_failed s = inc_action_fail s
perform reload_error s = inc_hot_reload_error s
perform (report a b) s = record_error a b s
perform (crash a b) s = record_trigger_crash a b s

-- The calls one after the other.
unfoldable pub perform_all : List Call → Diagnostics → Diagnostics
perform_all [] s = s
perform_all (c ∷ cs) s = perform_all cs (perform c s)
