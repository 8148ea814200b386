-- ===== src/Sudo/Command.antt =====
-- `run_as_admin` with the checks of the command and of the callers.
use notmy_fault.Prelude.{
  String, Option, none, some, Bool, true, false, not, List, [], ◌∷◌, ◌&&◌, if◌then◌else◌,
}
use notmy_fault.Prelude.Dict.{get}
use notmy_fault.Prelude.Texts.{has}
use notmy_fault.Scheduler.Config.{or_else}
use notmy_fault.Sudo.Session.{Globals, Session, plugin_id_for_globals, is_authorized}

-- What Python and the system answer: `has_separator` is a test for "/" and "\", `is_plain` that an
-- item is a text without a zero character, `path_of` where a trusted executable is found, `confirms`
-- what the user answers on Windows.
pub record System : Type 0 where
  pub lower : String → String
  pub has_separator : String → Bool
  pub is_plain : String → Bool
  pub path_of : String → Option String
  pub is_windows : Bool
  pub confirms : String → String → Bool

-- How the check of a command ends: with the name of the executable, or with an exception.
pub data Checked : Type 0 where
  executable : String → Checked
  bad_format not_permitted : Checked

unfoldable pub all_plain : System → List String → Bool
all_plain y [] = true
all_plain y (item ∷ items) = y.is_plain item && all_plain y items

unfoldable pub check_name : System → String → List String → Checked
check_name y raw allowed =
    if y.has_separator raw
    then not_permitted
    else if has allowed (y.lower raw)
    then executable (y.lower raw)
    else not_permitted

-- `_admin_executable_name`
unfoldable pub admin_executable_name : System → List String → List String → Checked
admin_executable_name y [] allowed = bad_format
admin_executable_name y (raw ∷ rest) allowed =
    if all_plain y (raw ∷ rest) then check_name y raw allowed else bad_format

abbrev pub arguments : List String → List String
arguments [] = []
arguments (raw ∷ rest) = rest

unfoldable pub at_path : List String → Option String → Option (List String)
at_path args none = none
at_path args (some path) = some (path ∷ args)

unfoldable pub resolve_checked : System → List String → Checked → Option (List String)
resolve_checked y command (executable name) = at_path (arguments command) (y.path_of name)
resolve_checked y command bad_format = none
resolve_checked y command not_permitted = none

-- `_resolve_admin_command`; `none` where it raises.
unfoldable pub resolve_admin_command : System → List String → List String → Option (List String)
resolve_admin_command y command allowed =
    resolve_checked y command (admin_executable_name y command allowed)

-- A plugin module on the stack, by the plugin of its name, and who it is authorized as.
pub record Caller : Type 0 where
  pub plugin_id : String
  pub globals : Globals

-- `authorized_callers`: the callers with the plugins of their entries.
unfoldable pub authorized_callers : List Caller → Session → List (String × Option String) × Session
authorized_callers [] s = ([], s)
authorized_callers (c ∷ cs) s =
    let r = plugin_id_for_globals c.globals s in
    let rest = authorized_callers cs r.1 in ((c.plugin_id, r.0) ∷ rest.0, rest.1)

-- The entry names a plugin that is authorized.
unfoldable pub has_rights : Session → Option String → Bool
has_rights s none = false
has_rights s (some plugin) = is_authorized plugin s

unfoldable pub first_unauthorized : Session → List (String × Option String) → Option String
first_unauthorized s [] = none
first_unauthorized s ((plugin, entry) ∷ cs) =
    let rest = first_unauthorized s cs in if has_rights s entry then rest else some plugin

unfoldable pub first_authorized : Session → List (String × Option String) → Option String
first_authorized s [] = none
first_authorized s ((plugin, entry) ∷ cs) =
    let rest = first_authorized s cs in if has_rights s entry then entry else rest

-- How `run_as_admin` ends: it runs a command, or raises.
pub data Decision : Type 0 where
  runs : String → List String → Decision
  empty_command bad_command not_allowed not_found not_confirmed unknown_caller : Decision
  not_authorized : String → Decision

unfoldable pub start : String → Option (List String) → Decision
start plugin none = not_found
start plugin (some command) = runs plugin command

unfoldable pub confirm : System → String → List String → List String → Checked → Decision
confirm y plugin command allowed bad_format = bad_command
confirm y plugin command allowed not_permitted = not_allowed
confirm y plugin command allowed (executable name) =
    if y.is_windows && not (y.confirms plugin name)
    then not_confirmed
    else start plugin (resolve_admin_command y command allowed)

unfoldable pub decide_authorized : System → Session → List String → Option String → Decision
decide_authorized y s command none = unknown_caller
decide_authorized y s command (some plugin) =
    let allowed = or_else (get s.executables plugin) [] in
    confirm y plugin command allowed (admin_executable_name y command allowed)

-- The callers are looked at before the command.
unfoldable pub decide : System → Session → List String → Option String → Option String → Decision
decide y s command (some plugin) found = not_authorized plugin
decide y s command none found = decide_authorized y s command found

abbrev pub is_nothing : List String → Bool
is_nothing [] = true
is_nothing (x ∷ xs) = false

-- `run_as_admin`, for the plugin modules that the stack shows, the nearest first. Where a caller has
-- no rights, it is one that is not authorized, so the branch for a stack without any authorized
-- caller is reached by an empty stack only.
unfoldable pub run_as_admin : System → List String → List Caller → Session → Decision × Session
run_as_admin y command callers s =
    let r = authorized_callers callers s in
    let t = r.1 in
    let decision = decide y t command (first_unauthorized t r.0) (first_authorized t r.0) in
    if is_nothing command then (empty_command, s) else (decision, t)
