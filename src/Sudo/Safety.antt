-- ===== src/Sudo/Safety.antt =====
-- Who can run a command as administrator.
use notmy_fault.Prelude.{
  String, ◌≡◌, ◌∙◌, inl, inr, refl, sym, ap, subst, Option, none, some, true, false, not, List, [],
  ◌∷◌, ◌&&◌, arith, All, Bool-cases,
}
use notmy_fault.Prelude.Dict.{get}
use notmy_fault.Prelude.Texts.{has}
use notmy_fault.Scheduler.Config.{or_else}
use notmy_fault.Sudo.Session.{Session, is_authorized}
use notmy_fault.Sudo.Command.{
  System, Checked, executable, bad_format, not_permitted, all_plain, check_name,
  admin_executable_name, at_path, resolve_checked, resolve_admin_command, Caller,
  authorized_callers, has_rights, first_unauthorized, first_authorized, runs, start, confirm,
  decide_authorized, decide, run_as_admin,
}
use notmy_fault.Sudo.Callers.{HasRights, IsPart-self, callers-IsPart, unauthorized-none}

-- What holds of a command that is run: its executable is a plain name on the plugin's list, and the
-- program that starts is the trusted one of that name, with the arguments of the command.
pub record IsPermitted (y : System) (allowed command cmd : List String) : Type 0 where
  pub raw : String
  pub args : List String
  pub path : String
  pub command_eq : command ≡ raw ∷ args
  pub plain : y.has_separator raw ≡ false
  pub listed : has allowed (y.lower raw) ≡ true
  pub trusted : y.path_of (y.lower raw) ≡ some path
  pub started : cmd ≡ path ∷ args

check_name-executable :
    (y : System) (raw name : String) (allowed : List String)
    → check_name y raw allowed ≡ executable name
    → (y.has_separator raw ≡ false) × ((has allowed (y.lower raw) ≡ true) × (y.lower raw ≡ name))
unfolding check_name
check_name-executable y raw name allowed h = ground arith

found-path :
    (plugin p path_name : String) (o : Option String) (args cmd : List String)
    → start plugin (at_path args o) ≡ runs p cmd
    → (plugin ≡ p) × ((path : String) × ((o ≡ some path) × (cmd ≡ path ∷ args)))
unfolding start at_path
found-path plugin p n none args cmd h = ground arith
found-path plugin p n (some path) args cmd h = (ground arith, (path, (refl, ground arith)))

admin_name-check :
    (y : System) (raw name : String) (args allowed : List String)
    → admin_executable_name y (raw ∷ args) allowed ≡ executable name
    → check_name y raw allowed ≡ executable name
unfolding admin_executable_name
admin_name-check y raw name args allowed e = elim (Bool-cases (all_plain y (raw ∷ args))) [
  | inl d ↦ sym (rw d refl) ∙ e
  | inr d ↦ ground arith
]

started-IsPermitted :
    (y : System) (plugin p : String) (allowed command cmd : List String) (name : String)
    → admin_executable_name y command allowed ≡ executable name
    → start plugin (resolve_admin_command y command allowed) ≡ runs p cmd
    → (plugin ≡ p) × IsPermitted y allowed command cmd
unfolding admin_executable_name resolve_admin_command resolve_checked
started-IsPermitted y plugin p allowed [] cmd name e h = ground arith
started-IsPermitted y plugin p allowed (raw ∷ args) cmd name e h =
    let c = check_name-executable y raw name allowed (admin_name-check y raw name args allowed e) in
    let f =
      found-path plugin p name (y.path_of name) args cmd
        (ap (λ k. start plugin (resolve_checked y (raw ∷ args) k)) (sym e) ∙ h) in
    (
      f.0,
      record {
        raw = raw;
        args = args;
        path = f.1.0;
        command_eq = refl;
        plain = c.0;
        listed = c.1.0;
        trusted = ap y.path_of c.1.1 ∙ f.1.1.0;
        started = f.1.1.1;
      },
    )

confirm-IsPermitted :
    (y : System) (plugin p : String) (allowed command cmd : List String) (c : Checked)
    → admin_executable_name y command allowed ≡ c
    → confirm y plugin command allowed c ≡ runs p cmd
    → (plugin ≡ p) × IsPermitted y allowed command cmd
unfolding confirm
confirm-IsPermitted y plugin p allowed command cmd bad_format e h = ground arith
confirm-IsPermitted y plugin p allowed command cmd not_permitted e h = ground arith
confirm-IsPermitted y plugin p allowed command cmd (executable name) e h =
    elim (Bool-cases (y.is_windows && not (y.confirms plugin name))) [
      | inl d ↦ ground arith
      | inr d ↦ started-IsPermitted y plugin p allowed command cmd name e (sym (rw d refl) ∙ h)
    ]

decided-IsPermitted :
    (y : System) (s : Session) (command : List String) (found : Option String) (p : String)
    (cmd : List String)
    → decide_authorized y s command found ≡ runs p cmd
    → (found ≡ some p) × IsPermitted y (or_else (get s.executables p) []) command cmd
unfolding decide_authorized
decided-IsPermitted y s command none p cmd h = ground arith
decided-IsPermitted y s command (some plugin) p cmd h =
    let allowed = or_else (get s.executables plugin) [] in
    let r =
      confirm-IsPermitted y plugin p allowed command cmd (admin_executable_name y command allowed)
        refl h in
    (ap some r.0, subst (λ q. IsPermitted y (or_else (get s.executables q) []) command cmd) r.0 r.1)

granted_as :
    (s : Session) (q p : String) → has s.plugins q ≡ true → some q ≡ some p → has s.plugins p ≡ true
granted_as s q p e h = ground arith

authorized-granted :
    (s : Session) (cs : List (String × Option String)) (p : String)
    → first_authorized s cs ≡ some p
    → has s.plugins p ≡ true
unfolding first_authorized has_rights is_authorized
authorized-granted s [] p h = ground arith
authorized-granted s ((plugin, none) ∷ cs) p h = authorized-granted s cs p h
authorized-granted s ((plugin, some q) ∷ cs) p h = elim (Bool-cases (has s.plugins q)) [
  | inl e ↦ granted_as s q p e (sym (rw e refl) ∙ h)
  | inr e ↦ authorized-granted s cs p (sym (rw e refl) ∙ h)
]

-- What holds where `run_as_admin` runs a command for the plugin `p`.
pub record IsAllowed (y : System) (s : Session) (callers : List Caller) (p : String)
    (command cmd : List String) : Type 0 where
  pub rights : All (HasRights s) callers
  pub granted : has s.plugins p ≡ true
  pub permitted : IsPermitted y (or_else (get s.executables p) []) command cmd

decide-parts :
    (y : System) (s : Session) (command : List String) (u found : Option String) (p : String)
    (cmd : List String)
    → decide y s command u found ≡ runs p cmd
    → (u ≡ none) × (decide_authorized y s command found ≡ runs p cmd)
unfolding decide
decide-parts y s command none found p cmd h = (refl, h)
decide-parts y s command (some plugin) found p cmd h = ground arith

-- Where `run_as_admin` runs a command for a plugin, every plugin module on the stack has an entry of
-- its own for a plugin that is authorized, that plugin is authorized, and the command names, by its
-- plain name, an executable on the list of that plugin; what runs is the trusted program of this name
-- with the arguments of the command.
pub run_as_admin-IsAllowed :
    (y : System) (command : List String) (callers : List Caller) (s : Session) (p : String)
    (cmd : List String)
    → (run_as_admin y command callers s).0 ≡ runs p cmd
    → IsAllowed y s callers p command cmd
unfolding run_as_admin
run_as_admin-IsAllowed y [] callers s p cmd h = ground arith
run_as_admin-IsAllowed y (raw ∷ args) callers s p cmd h =
    let r = authorized_callers callers s in
    let i = callers-IsPart callers s in
    let d =
      decide-parts y r.1 (raw ∷ args) (first_unauthorized r.1 r.0) (first_authorized r.1 r.0) p cmd
        h in
    let f = decided-IsPermitted y r.1 (raw ∷ args) (first_authorized r.1 r.0) p cmd d.1 in
    record {
      rights = unauthorized-none s s callers (IsPart-self s) r.1 i.plugins d.0;
      granted = subst (λ ps. has ps p ≡ true) i.plugins (authorized-granted r.1 r.0 p f.0);
      permitted =
          subst (λ e. IsPermitted y (or_else (get e p) []) (raw ∷ args) cmd) i.executables f.1;
    }
