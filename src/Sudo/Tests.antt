-- ===== src/Sudo/Tests.antt =====
-- Runs of `run_as_admin` in small sessions.
use notmy_fault.Prelude.{
  String, none, some, true, false, List, [], ◌∷◌, ◌≡◌, refl, ◌==◌, if◌then◌else◌,
}
use notmy_fault.Sudo.Session.{
  Globals, Session, begin_engine_session, deauthorize_plugin, session_token, is_current,
  is_authorized, plugin_id_for_globals, entry_plugin, drop_entry,
}
use notmy_fault.Sudo.Command.{
  System, Caller, runs, not_authorized, run_as_admin, decide, first_unauthorized,
  authorized_callers, has_rights, decide_authorized, first_authorized, confirm,
  admin_executable_name, all_plain, check_name, start, resolve_admin_command, resolve_checked,
  at_path,
}
use notmy_fault.Prelude.Dict.{get}
use notmy_fault.Prelude.Texts.{has}
use notmy_fault.Sudo.Safety.{IsAllowed, run_as_admin-IsAllowed}
use notmy_fault.Sudo.Revoked.{
  Op, end_session, authorize, collected, asked, steps, all_foreign, is_foreign,
  begin_engine_session-runs_nothing, deauthorize_plugin-runs_nothing,
}

abbrev same : String → String
same x = x

abbrev machine : System
machine = record {
  lower = same;
  has_separator = λ x. x == "/tmp/reboot";
  is_plain = λ x. true;
  path_of = λ x. if x == "reboot" then some "/usr/sbin/reboot" else none;
  is_windows = false;
  confirms = λ p x. false;
}

abbrev power : Globals
power = record { address = "1"; serial = "a" }

abbrev newcomer : Globals
newcomer = record { address = "1"; serial = "b" }

abbrev session : Session
session = record {
  token = some "t";
  plugins = "power" ∷ [];
  executables = ("power", "reboot" ∷ []) ∷ [];
  modules = ("1", record { serial = "a"; plugin_id = "power" }) ∷ [];
}

abbrev caller : Caller
caller = record { plugin_id = "power"; globals = power }

-- An authorized plugin runs a command of its list.
reboot_runs :
    (run_as_admin machine ("reboot" ∷ "now" ∷ []) (caller ∷ []) session).0
    ≡ runs "power" ("/usr/sbin/reboot" ∷ "now" ∷ [])
unfolding run_as_admin decide first_unauthorized authorized_callers has_rights plugin_id_for_globals
    entry_plugin get is_authorized has drop_entry decide_authorized first_authorized confirm
    admin_executable_name all_plain check_name start resolve_admin_command resolve_checked at_path
reboot_runs = refl

-- A module at the address of one that is gone has no rights.
reused_address :
    (run_as_admin machine
      ("reboot" ∷ [])
      (record { plugin_id = "power"; globals = newcomer } ∷ [])
      session).0
    ≡ not_authorized "power"
unfolding run_as_admin decide first_unauthorized authorized_callers has_rights plugin_id_for_globals
    entry_plugin get is_authorized has drop_entry decide_authorized first_authorized confirm
    admin_executable_name all_plain check_name start resolve_admin_command resolve_checked at_path
reused_address = refl

run_as_admin-IsAllowed_example :
    IsAllowed machine session
      (caller ∷ [])
      "power"
      ("reboot" ∷ "now" ∷ [])
      ("/usr/sbin/reboot" ∷ "now" ∷ [])
run_as_admin-IsAllowed_example =
    run_as_admin-IsAllowed machine ("reboot" ∷ "now" ∷ []) (caller ∷ []) session "power"
      ("/usr/sbin/reboot" ∷ "now" ∷ []) reboot_runs

abbrev old_engine : List Op
old_engine =
    authorize "power" "t" (some power) ("reboot" ∷ [])
    ∷ end_session "t"
    ∷ asked machine ("reboot" ∷ []) (caller ∷ [])
    ∷ collected power
    ∷ []

begin_engine_session-runs_nothing_example :
    ¬ (run_as_admin machine
      ("reboot" ∷ [])
      (caller ∷ [])
      (steps same old_engine (begin_engine_session "new" none session).1)).0
    ≡ runs "power" ("/usr/sbin/reboot" ∷ [])
unfolding begin_engine_session all_foreign is_foreign session_token
begin_engine_session-runs_nothing_example =
    begin_engine_session-runs_nothing same "new" none session old_engine machine ("reboot" ∷ [])
      (caller ∷ []) "power" ("/usr/sbin/reboot" ∷ []) refl

deauthorize_plugin-runs_nothing_example :
    ¬ (run_as_admin machine
      ("reboot" ∷ [])
      (caller ∷ [])
      (deauthorize_plugin "power" "t" session).1).0
    ≡ runs "power" ("/usr/sbin/reboot" ∷ [])
unfolding is_current
deauthorize_plugin-runs_nothing_example =
    deauthorize_plugin-runs_nothing "power" "t" session machine ("reboot" ∷ []) (caller ∷ [])
      ("/usr/sbin/reboot" ∷ []) refl
