-- ===== src/Sudo/Revoked.antt =====
-- When no plugin can run a command as administrator: after a session begins, and after a plugin has lost
-- its rights.
use notmy_fault.Prelude.{
  String, ◌≡◌, ◌∙◌, inl, inr, refl, sym, ap, subst, Option, none, some, Bool, true, false, not,
  List, [], ◌∷◌, ◌==◌, ◌&&◌, arith, eq_iff, Bool-cases, no_true, both_hold,
}
use notmy_fault.Prelude.Dict.{get}
use notmy_fault.Prelude.Texts.{has, discard, has-discard}
use notmy_fault.Sudo.Session.{
  Globals, Grant, Session, begin_engine_session, is_current, end_engine_session, authorize_if,
  authorize_plugin, deauthorize_plugin, remove_module, remove_entry, drop_entry,
  plugin_id_for_globals,
}
use notmy_fault.Sudo.Command.{System, Caller, authorized_callers, runs, run_as_admin}
use notmy_fault.Sudo.Safety.{run_as_admin-IsAllowed}

-- What else happens in a session: another engine starts or ends it, plugins are authorized or lose their
-- rights, a module goes away, or a plugin asks to run a command.
pub data Op : Type 0 where
  end_session : String → Op
  authorize : String → String → Option Globals → List String → Op
  deauthorize : String → String → Op
  collected : Globals → Op
  asked : System → List String → List Caller → Op

unfoldable pub step : (String → String) → Op → Session → Session
step lower (end_session token) s = (end_engine_session token s).1
step lower (authorize plugin token m allowed) s =
    (authorize_plugin lower plugin token m allowed s).1
step lower (deauthorize plugin token) s = (deauthorize_plugin plugin token s).1
step lower (collected g) s = remove_module g s
step lower (asked y command callers) s = (run_as_admin y command callers s).1

unfoldable pub steps : (String → String) → List Op → Session → Session
steps lower [] s = s
steps lower (o ∷ os) s = steps lower os (step lower o s)

-- The operation is given another token than `token`, or none.
unfoldable pub is_foreign : String → Op → Bool
is_foreign token (end_session t) = not (t == token)
is_foreign token (authorize plugin t m allowed) = not (t == token)
is_foreign token (deauthorize plugin t) = true
is_foreign token (collected g) = true
is_foreign token (asked y command callers) = true

unfoldable pub all_foreign : String → List Op → Bool
all_foreign token [] = true
all_foreign token (o ∷ os) = is_foreign token o && all_foreign token os

off_when_negated : (b : Bool) → not b ≡ true → b ≡ false
off_when_negated b h = ground arith

record IsFresh (token : String) (s : Session) : Type 0 where
  current : s.token ≡ some token
  plugins : s.plugins ≡ []

drop_entry-IsFresh :
    (token : String) (g : Globals) (o : Option Grant) (s : Session)
    → IsFresh token s
    → IsFresh token (drop_entry g o s)
unfolding drop_entry
drop_entry-IsFresh token g none s i = i
drop_entry-IsFresh token g (some e) s i = elim (Bool-cases (e.serial == g.serial)) [
  | inl h ↦ rw h i
  | inr h ↦ rw h (record { current = i.current; plugins = i.plugins })
]

callers-IsFresh :
    (token : String) (cs : List Caller) (s : Session)
    → IsFresh token s
    → IsFresh token (authorized_callers cs s).1
unfolding authorized_callers plugin_id_for_globals
callers-IsFresh token [] s i = i
callers-IsFresh token (c ∷ cs) s i =
    callers-IsFresh token cs (drop_entry c.globals (get s.modules c.globals.address) s)
      (drop_entry-IsFresh token c.globals (get s.modules c.globals.address) s i)

end-IsFresh :
    (token t : String) (s : Session)
    → (t == token) ≡ false
    → IsFresh token s
    → IsFresh token (end_engine_session t s).1
unfolding end_engine_session is_current
end-IsFresh token t s n i =
    let other = subst (λ o. is_current o t ≡ false) (sym i.current) n in rw other i

authorize-IsFresh :
    (lower : String → String) (token plugin t : String) (m : Option Globals) (allowed : List String)
    (s : Session)
    → (t == token) ≡ false
    → IsFresh token s
    → IsFresh token (authorize_plugin lower plugin t m allowed s).1
unfolding authorize_plugin authorize_if
authorize-IsFresh lower token plugin t m allowed s n i =
    subst (λ o. IsFresh token (authorize_if lower plugin t m allowed s o).1) (sym i.current)
      (rw n i)

deauthorize-IsFresh :
    (token plugin t : String) (s : Session)
    → IsFresh token s
    → IsFresh token (deauthorize_plugin plugin t s).1
unfolding deauthorize_plugin discard
deauthorize-IsFresh token plugin t s i = elim (Bool-cases (is_current s.token t)) [
  | inl e ↦ rw e (record { current = i.current; plugins = ap (λ ps. discard ps plugin) i.plugins })
  | inr e ↦ rw e i
]

remove_entry-IsFresh :
    (token : String) (g : Globals) (o : Option Grant) (s : Session)
    → IsFresh token s
    → IsFresh token (remove_entry g o s)
unfolding remove_entry
remove_entry-IsFresh token g none s i = i
remove_entry-IsFresh token g (some e) s i = elim (Bool-cases (e.serial == g.serial)) [
  | inl k ↦ rw k (record { current = i.current; plugins = i.plugins })
  | inr k ↦ rw k i
]

step-IsFresh :
    (lower : String → String) (token : String) (o : Op) (s : Session)
    → is_foreign token o ≡ true
    → IsFresh token s
    → IsFresh token (step lower o s)
unfolding step is_foreign run_as_admin remove_module
step-IsFresh lower token (end_session t) s h i =
    end-IsFresh token t s (off_when_negated (t == token) h) i
step-IsFresh lower token (authorize plugin t m allowed) s h i =
    authorize-IsFresh lower token plugin t m allowed s (off_when_negated (t == token) h) i
step-IsFresh lower token (deauthorize plugin t) s h i = deauthorize-IsFresh token plugin t s i
step-IsFresh lower token (collected g) s h i =
    remove_entry-IsFresh token g (get s.modules g.address) s i
step-IsFresh lower token (asked y [] callers) s h i = i
step-IsFresh lower token (asked y (raw ∷ args) callers) s h i = callers-IsFresh token callers s i

steps-IsFresh :
    (lower : String → String) (token : String) (os : List Op) (s : Session)
    → all_foreign token os ≡ true
    → IsFresh token s
    → IsFresh token (steps lower os s)
unfolding steps all_foreign
steps-IsFresh lower token [] s h i = i
steps-IsFresh lower token (o ∷ os) s h i =
    let parts = both_hold (is_foreign token o) (all_foreign token os) h in
    steps-IsFresh lower token os (step lower o s) parts.1 (step-IsFresh lower token o s parts.0 i)

begin-IsFresh :
    (fresh : String) (given : Option String) (s : Session)
    → IsFresh (begin_engine_session fresh given s).0 (begin_engine_session fresh given s).1
unfolding begin_engine_session
begin-IsFresh fresh given s = record { current = refl; plugins = refl }

-- After `begin_engine_session`, whatever rights the plugins had before, and after any sequence of ends
-- and authorizations with other tokens than its token, of deauthorizations, of modules that go away
-- and of requests, `run_as_admin` runs no command for any plugin.
pub begin_engine_session-runs_nothing :
    (lower : String → String) (fresh : String) (given : Option String) (s : Session) (os : List Op)
    (y : System) (command : List String) (callers : List Caller) (p : String) (cmd : List String)
    → all_foreign (begin_engine_session fresh given s).0 os ≡ true
    → ¬ (run_as_admin y command callers (steps lower os (begin_engine_session fresh given s).1)).0
      ≡ runs p cmd
unfolding has
begin_engine_session-runs_nothing lower fresh given s os y command callers p cmd h r =
    let b = begin_engine_session fresh given s in
    let i = steps-IsFresh lower b.0 os b.1 h (begin-IsFresh fresh given s) in
    let a = run_as_admin-IsAllowed y command callers (steps lower os b.1) p cmd r in
    no_true (subst (λ ps. has ps p ≡ true) i.plugins a.granted)

not_in_discard : (ps : List String) (p : String) → has (discard ps p) p ≡ false
not_in_discard ps p = ground (arith, has-discard ps p p, eq_iff p p)

deauthorized_list :
    (plugin token : String) (s : Session)
    → is_current s.token token ≡ true
    → (deauthorize_plugin plugin token s).1.plugins ≡ discard s.plugins plugin
unfolding deauthorize_plugin
deauthorized_list plugin token s h = rw h refl

-- After `deauthorize_plugin` with the token of the session, `run_as_admin` runs no command for the
-- plugin, whichever modules are on the stack and whatever the entries of the session are.
pub deauthorize_plugin-runs_nothing :
    (plugin token : String) (s : Session) (y : System) (command : List String)
    (callers : List Caller) (cmd : List String)
    → is_current s.token token ≡ true
    → ¬ (run_as_admin y command callers (deauthorize_plugin plugin token s).1).0 ≡ runs plugin cmd
deauthorize_plugin-runs_nothing plugin token s y command callers cmd h r =
    let a =
      run_as_admin-IsAllowed y command callers (deauthorize_plugin plugin token s).1 plugin cmd r in
    no_true (
      sym (not_in_discard s.plugins plugin)
      ∙ subst (λ ps. has ps plugin ≡ true) (deauthorized_list plugin token s h) a.granted)
