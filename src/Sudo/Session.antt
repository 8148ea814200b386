-- ===== src/Sudo/Session.antt =====
-- The permission session of an engine: its token, and the plugins and modules that are authorized.
use notmy_fault.Prelude.{
  String, Option, none, some, Bool, true, false, List, [], ◌∷◌, map, ◌==◌, if◌then◌else◌,
}
use notmy_fault.Prelude.Dict.{Dict, get, put, remove}
use notmy_fault.Prelude.Texts.{has, add, discard}

-- A module, by its globals: `address` is id(module.__dict__), as a text; the number of the module
-- (`serial`) is its own, while an address may be used again after a module is gone.
pub record Globals : Type 0 where
  pub address : String
  pub serial : String

-- An entry of `_admin_by_module`: the module that the weak reference names, and the plugin.
pub record Grant : Type 0 where
  pub serial : String
  pub plugin_id : String

-- `_engine_token`, `_admin_plugins`, `_admin_executables` and `_admin_by_module`.
pub record Session : Type 0 where
  pub token : Option String
  pub plugins : List String
  pub executables : Dict (List String)
  pub modules : Dict Grant

abbrev pub no_session : Session
no_session = record { token = none; plugins = []; executables = []; modules = [] }

-- token or secrets.token_hex(32), where `fresh` is what the latter gives
unfoldable pub session_token : String → Option String → String
session_token fresh none = fresh
session_token fresh (some given) = if given == "" then fresh else given

-- `begin_engine_session`
unfoldable pub begin_engine_session : String → Option String → Session → String × Session
begin_engine_session fresh token s =
    let t = session_token fresh token in (t, record no_session { token = some t })

-- compare_digest on the current token; without a session none matches.
unfoldable pub is_current : Option String → String → Bool
is_current none token = false
is_current (some current) token = token == current

-- `end_engine_session`
unfoldable pub end_engine_session : String → Session → Bool × Session
end_engine_session token s = if is_current s.token token then (true, no_session) else (false, s)

-- What `authorize_plugin` does: it returns, or one of its two exceptions.
pub data Authorized : Type 0 where
  authorized no_token wrong_token : Authorized

-- The entry of a module that is given; an old entry at its address is replaced.
unfoldable pub grant_module : String → Option Globals → Dict Grant → Dict Grant
grant_module plugin none d = d
grant_module plugin (some g) d = put d g.address (record { serial = g.serial; plugin_id = plugin })

unfoldable pub grant : (String → String) → String → Option Globals → List String → Session → Session
grant lower plugin module_given allowed s = record s {
  plugins = add s.plugins plugin;
  executables = put s.executables plugin (map lower allowed);
  modules = grant_module plugin module_given s.modules;
}

unfoldable pub authorize_if :
    (String → String)
    → String
    → String
    → Option Globals
    → List String
    → Session
    → Option String
    → Authorized × Session
authorize_if lower plugin token module_given allowed s none = (no_token, s)
authorize_if lower plugin token module_given allowed s (some current) =
    if token == current
    then (authorized, grant lower plugin module_given allowed s)
    else (wrong_token, s)

-- `authorize_plugin`; `lower` is str.lower.
unfoldable pub authorize_plugin :
    (String → String)
    → String
    → String
    → Option Globals
    → List String
    → Session
    → Authorized × Session
authorize_plugin lower plugin token module_given allowed s =
    authorize_if lower plugin token module_given allowed s s.token

-- The entries of the other plugins.
unfoldable pub without_plugin : String → Dict Grant → Dict Grant
without_plugin plugin [] = []
without_plugin plugin ((key, g) ∷ d) =
    let rest = without_plugin plugin d in if g.plugin_id == plugin then rest else (key, g) ∷ rest

-- `deauthorize_plugin`
unfoldable pub deauthorize_plugin : String → String → Session → Bool × Session
deauthorize_plugin plugin token s =
    if is_current s.token token
    then (
      has s.plugins plugin,
      record s {
        plugins = discard s.plugins plugin;
        executables = remove s.executables plugin;
        modules = without_plugin plugin s.modules;
      },
    )
    else (false, s)

unfoldable pub remove_entry : Globals → Option Grant → Session → Session
remove_entry g none s = s
remove_entry g (some e) s =
    if e.serial == g.serial then record s { modules = remove s.modules g.address } else s

-- The callback of the weak reference: the module is gone, and an entry that still names it goes too.
unfoldable pub remove_module : Globals → Session → Session
remove_module g s = remove_entry g (get s.modules g.address) s

unfoldable pub entry_plugin : Globals → Option Grant → Option String
entry_plugin g none = none
entry_plugin g (some e) = if e.serial == g.serial then some e.plugin_id else none

unfoldable pub drop_entry : Globals → Option Grant → Session → Session
drop_entry g none s = s
drop_entry g (some e) s =
    if e.serial == g.serial then s else record s { modules = remove s.modules g.address }

-- `_plugin_id_for_globals`: the entry counts only if it names the module that has these globals; an
-- entry of another module, which must be gone, is taken out.
unfoldable pub plugin_id_for_globals : Globals → Session → Option String × Session
plugin_id_for_globals g s = let e = get s.modules g.address in (entry_plugin g e, drop_entry g e s)

-- `is_authorized`
unfoldable pub is_authorized : String → Session → Bool
is_authorized plugin s = has s.plugins plugin
