-- ===== src/Diagnostics/Log.antt =====
-- What the diagnostics hold of all that was reported.
use Prim.Native.String.{◌++◌ as ◌<>◌}
use notmy_fault.Prelude.{ℕ, suc, ◌≤◌, String, ◌≡◌, ◌∙◌, refl, ap, List, [], ◌∷◌, ◌++◌, length}
use notmy_fault.Diagnostics.State.{
  Diagnostics, start, max_errors, max_plugin_errors, max_rule_issues, max_crash_details, record_in,
  cut, record_plugin_error, reset_rule_issues, add_rule_issue, inc_action_ok, inc_action_fail,
  inc_hot_reload_error, record_error, record_trigger_crash, Call, plugin_error, reset, rule_issue,
  action_done, action_failed, reload_error, report, crash, perform, perform_all,
}
use notmy_fault.Diagnostics.Newest.{newest_of, length-newest_of, record_in-newest_of}

-- All that was reported, without a limit, and how often each counter was raised.
pub record Log : Type 0 where
  pub plugins : List (String × (String × String))
  pub issues : List (String × String)
  pub crashes : List (String × String)
  pub all_errors : List (String × String)
  pub done : ℕ
  pub failed : ℕ
  pub reloads : ℕ
  pub crash_count : ℕ

unfoldable pub log_call : Call → Log → Log
log_call (plugin_error a b c) l = record l { plugins = l.plugins ++ (a, (b, c)) ∷ [] }
log_call reset l = record l { issues = [] }
log_call (rule_issue a b) l = record l { issues = l.issues ++ (a, b) ∷ [] }
log_call action_done l = record l { done = suc l.done }
log_call action_failed l = record l { failed = suc l.failed }
log_call reload_error l = record l { reloads = suc l.reloads }
log_call (report a b) l = record l { all_errors = l.all_errors ++ (a, b) ∷ [] }
log_call (crash a b) l = record l {
  crash_count = suc l.crash_count;
  all_errors = l.all_errors ++ ("trigger_crash", a <> (": " <> b)) ∷ [];
  crashes = l.crashes ++ (a, cut 300 b) ∷ [];
}

unfoldable pub log_all : List Call → Log → Log
log_all [] l = l
log_all (c ∷ cs) l = log_all cs (log_call c l)

abbrev pub empty_log : Log
empty_log = record {
  plugins = [];
  issues = [];
  crashes = [];
  all_errors = [];
  done = 0;
  failed = 0;
  reloads = 0;
  crash_count = 0;
}

-- The diagnostics that keep the newest entries of a log.
unfoldable pub newest : Log → Diagnostics
newest l = record {
  plugin_errors = newest_of max_plugin_errors l.plugins;
  rule_issues = newest_of max_rule_issues l.issues;
  action_ok = l.done;
  action_fail = l.failed;
  hot_reload_errors = l.reloads;
  trigger_crashes = l.crash_count;
  trigger_crash_details = newest_of max_crash_details l.crashes;
  errors = newest_of max_errors l.all_errors;
}

perform-newest : (c : Call) (l : Log) → perform c (newest l) ≡ newest (log_call c l)
unfolding perform newest log_call record_plugin_error reset_rule_issues add_rule_issue inc_action_ok
    inc_action_fail inc_hot_reload_error record_error record_trigger_crash newest_of
perform-newest (plugin_error a b c) l =
    ap (λ x. record (newest l) { plugin_errors = x })
      (record_in-newest_of max_plugin_errors l.plugins (a, (b, c)))
perform-newest reset l = refl
perform-newest (rule_issue a b) l =
    ap (λ x. record (newest l) { rule_issues = x })
      (record_in-newest_of max_rule_issues l.issues (a, b))
perform-newest action_done l = refl
perform-newest action_failed l = refl
perform-newest reload_error l = refl
perform-newest (report a b) l =
    ap (λ x. record (newest l) { errors = x }) (record_in-newest_of max_errors l.all_errors (a, b))
perform-newest (crash a b) l =
    ap
      (λ x. record (newest l) {
        trigger_crashes = suc l.crash_count;
        errors = x;
        trigger_crash_details =
            record_in max_crash_details (newest_of max_crash_details l.crashes) (a, cut 300 b);
      })
      (record_in-newest_of max_errors l.all_errors ("trigger_crash", a <> (": " <> b)))
    ∙ ap
        (λ x. record (newest l) {
          trigger_crashes = suc l.crash_count;
          errors = newest_of max_errors (l.all_errors ++ ("trigger_crash", a <> (": " <> b)) ∷ []);
          trigger_crash_details = x;
        })
        (record_in-newest_of max_crash_details l.crashes (a, cut 300 b))

all-newest : (cs : List Call) (l : Log) → perform_all cs (newest l) ≡ newest (log_all cs l)
unfolding perform_all log_all
all-newest [] l = refl
all-newest (c ∷ cs) l =
    ap (λ s. perform_all cs s) (perform-newest c l) ∙ all-newest cs (log_call c l)

-- After any calls, the diagnostics hold the newest of all that was reported, in the order of the
-- reports: 200 plugin errors, 500 issues since the last reset, 20 crashes and 50 errors, the crashes
-- among them. The counters tell all calls.
pub perform_all-newest : (cs : List Call) → perform_all cs start ≡ newest (log_all cs empty_log)
unfolding newest newest_of
perform_all-newest cs = ap (λ s. perform_all cs s) refl ∙ all-newest cs empty_log

-- After any calls, no list of the diagnostics is longer than its limit.
pub perform_all_bounded :
    (cs : List Call)
    → (length ((perform_all cs start).errors) ≤ max_errors)
      × ((length ((perform_all cs start).plugin_errors) ≤ max_plugin_errors)
          × ((length ((perform_all cs start).rule_issues) ≤ max_rule_issues)
              × (length ((perform_all cs start).trigger_crash_details) ≤ max_crash_details)))
unfolding newest
perform_all_bounded cs =
    let all = log_all cs empty_log in
    rw (perform_all-newest cs) (
      length-newest_of max_errors all.all_errors,
      (
        length-newest_of max_plugin_errors all.plugins,
        (
          length-newest_of max_rule_issues all.issues,
          length-newest_of max_crash_details all.crashes,
        ),
      ),
    )
