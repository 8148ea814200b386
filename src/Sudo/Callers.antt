-- ===== src/Sudo/Callers.antt =====
-- The callers that `run_as_admin` finds on the stack.
use notmy_fault.Prelude.{
  String, ◌≡◌, ◌∙◌, ◌⊎◌, inl, inr, refl, sym, ap, subst, Option, none, some, true, List, [], ◌∷◌,
  ◌==◌, arith, All, Bool-cases,
}
use notmy_fault.Prelude.Dict.{Dict, get, remove, get-remove}
use notmy_fault.Prelude.Texts.{has}
use notmy_fault.Sudo.Session.{
  Globals, Grant, Session, entry_plugin, drop_entry, plugin_id_for_globals, is_authorized,
}
use notmy_fault.Sudo.Command.{Caller, authorized_callers, has_rights, first_unauthorized}

-- The caller's module has an entry of its own, for a plugin that is authorized.
pub record HasRights (s : Session) (c : Caller) : Type 0 where
  pub plugin : String
  pub entry : entry_plugin c.globals (get s.modules c.globals.address) ≡ some plugin
  pub granted : has s.plugins plugin ≡ true

-- `t` is `s` but for entries that were taken out.
pub record IsPart (s t : Session) : Type 0 where
  pub plugins : t.plugins ≡ s.plugins
  pub executables : t.executables ≡ s.executables
  pub modules : (a : String) → (get t.modules a ≡ none) ⊎ (get t.modules a ≡ get s.modules a)

pub IsPart-self : (s : Session) → IsPart s s
IsPart-self s = record { plugins = refl; executables = refl; modules = λ a. inr refl }

IsPart-trans : (s t u : Session) → IsPart s t → IsPart t u → IsPart s u
IsPart-trans s t u p q = record {
  plugins = q.plugins ∙ p.plugins;
  executables = q.executables ∙ p.executables;
  modules = λ a. elim (q.modules a) [
    | inl e ↦ inl e
    | inr e ↦ elim (p.modules a) [ inl d ↦ inl (e ∙ d) | inr d ↦ inr (e ∙ d) ]
  ];
}

removed_part :
    (d : Dict Grant) (k a : String) → (get (remove d k) a ≡ none) ⊎ (get (remove d k) a ≡ get d a)
removed_part d k a = elim (Bool-cases (k == a)) [
  | inl e ↦ inl (get-remove d k a ∙ rw e refl)
  | inr e ↦ inr (get-remove d k a ∙ rw e refl)
]

drop_entry-IsPart : (g : Globals) (o : Option Grant) (s : Session) → IsPart s (drop_entry g o s)
unfolding drop_entry
drop_entry-IsPart g none s = IsPart-self s
drop_entry-IsPart g (some e) s = elim (Bool-cases (e.serial == g.serial)) [
  | inl h ↦ rw h (IsPart-self s)
  | inr h ↦
      rw h
        (record { plugins = refl; executables = refl; modules = removed_part s.modules g.address })
]

pub callers-IsPart : (cs : List Caller) (s : Session) → IsPart s (authorized_callers cs s).1
unfolding authorized_callers plugin_id_for_globals
callers-IsPart [] s = IsPart-self s
callers-IsPart (c ∷ cs) s =
    let t = drop_entry c.globals (get s.modules c.globals.address) s in
    IsPart-trans s t (authorized_callers cs t).1
      (drop_entry-IsPart c.globals (get s.modules c.globals.address) s) (callers-IsPart cs t)

entry_part :
    (s t : Session) (g : Globals) (p : String)
    → IsPart s t
    → entry_plugin g (get t.modules g.address) ≡ some p
    → entry_plugin g (get s.modules g.address) ≡ some p
unfolding entry_plugin
entry_part s t g p i h = elim (i.modules g.address) [
  | inl e ↦ ground arith
  | inr e ↦ ap (entry_plugin g) (sym e) ∙ h
]

-- What it takes that no caller is found without rights.
unauthorized-parts :
    (x : Session) (plugin : String) (o : Option String) (cs : List (String × Option String))
    → first_unauthorized x ((plugin, o) ∷ cs) ≡ none
    → (has_rights x o ≡ true) × (first_unauthorized x cs ≡ none)
unfolding first_unauthorized
unauthorized-parts x plugin o cs h = elim (Bool-cases (has_rights x o)) [
  | inl e ↦ ground arith
  | inr e ↦ ground arith
]

rights-HasRights :
    (u x : Session) (c : Caller) (o : Option String)
    → x.plugins ≡ u.plugins
    → ((p : String)
        → o ≡ some p
        → entry_plugin c.globals (get u.modules c.globals.address) ≡ some p)
    → has_rights x o ≡ true
    → HasRights u c
unfolding has_rights is_authorized
rights-HasRights u x c none e i h = ground arith
rights-HasRights u x c (some p) e i h = record {
  plugin = p;
  entry = i p refl;
  granted = subst (λ ps. has ps p ≡ true) e h;
}

-- All callers are found to have rights, in a state that is a part of `u`.
pub unauthorized-none :
    (u s : Session) (cs : List Caller)
    → IsPart u s
    → (x : Session) → x.plugins ≡ u.plugins
    → first_unauthorized x (authorized_callers cs s).0 ≡ none
    → All (HasRights u) cs
unfolding authorized_callers plugin_id_for_globals
unauthorized-none u s [] i x e h = tt
unauthorized-none u s (c ∷ cs) i x e h =
    let entry = get s.modules c.globals.address in
    let t = drop_entry c.globals entry s in
    let rights =
      unauthorized-parts x c.plugin_id (entry_plugin c.globals entry) (authorized_callers cs t).0
        h in
    let own =
      rights-HasRights u x c (entry_plugin c.globals entry) e (λ p. entry_part u s c.globals p i)
        rights.0 in
    let j = IsPart-trans u s t i (drop_entry-IsPart c.globals entry s) in
    (own, unauthorized-none u t cs j x e rights.1)
