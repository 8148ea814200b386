-- ===== src/Conditions/Runtime.antt =====
-- The other methods of `ConditionRuntime`, each of which runs under its lock.
use mathlib.Core.List.{map}
use notmy_fault.Prelude.{
  ℕ, ◌+◌, ◌-◌, String, Option, none, some, Bool, true, false, not, List, [], ◌∷◌, ◌==◌, ◌&&◌, ◌||◌,
  eqb, if◌then◌else◌,
}
use notmy_fault.Prelude.Int.{pos, negsuc}
use notmy_fault.Prelude.Dict.{Dict, get, put, remove}
use notmy_fault.Prelude.Texts.{has}
use notmy_fault.Scheduler.Config.{or_else}
use notmy_fault.Scheduler.State.{is_empty}
use notmy_fault.Conditions.Tree.{
  Python, Window, seconds, Event, Node, Nodes, no_more, more, Absence, event_key, not_key, event_of,
  iter_condition_events, positive_events, absence_nodes, check_event_params,
}
use notmy_fault.Conditions.Evaluate.{Signature, Seen, evaluate}

unfoldable pub eq_signature : Signature → Signature → Bool
eq_signature [] [] = true
eq_signature ((j, t) ∷ a) ((k, u) ∷ b) = (j == k) && eqb t u && eq_signature a b
eq_signature _ _ = false

unfoldable pub is_fired : Option Signature → Signature → Bool
is_fired none sig = false
is_fired (some old) sig = eq_signature old sig

-- timestamp + float(absence["within_seconds"]); `none` where that raises. Times are not negative,
-- so a deadline before 0 is as good as 0.
unfoldable pub due : ℕ → Window → Option ℕ
due now (seconds (pos n)) = some (now + n)
due now (seconds (negsuc n)) = some (now - (n + 1))
due now _ = none

module _ (P : Python) where
  open P use {Value, number}

  -- A deadline of an absence, and whether it was told.
  abbrev pub Deadline : Type 0
  Deadline = ℕ × Bool

  pub record Runtime : Type 0 where
    pub seen : Dict (Dict (Seen P))
    pub fired : Dict Signature
    pub last_matches : Dict (List (Seen P))
    pub absence_deadlines : Dict (Dict Deadline)

  -- `__init__` and `reset`
  abbrev pub fresh : Runtime
  fresh = record { seen = []; fired = []; last_matches = []; absence_deadlines = [] }

  -- [seen[key] for key, _timestamp in signature if key in seen]
  unfoldable pub entries_of : Dict (Seen P) → Signature → List (Seen P)
  entries_of seen [] = []
  entries_of seen ((key, t) ∷ sig) =
      let rest = entries_of seen sig in elim (get seen key) [ none ↦ rest | some e ↦ e ∷ rest ]

  unfoldable pub record_found : String → Dict (Seen P) → Bool × Signature → Runtime → Bool × Runtime
  record_found rule seen (matched, sig) r =
      if not matched || is_fired (get r.fired rule) sig then (false, r) else (
        true,
        record r {
          fired = put r.fired rule sig;
          last_matches = put r.last_matches rule (entries_of seen sig);
        },
      )

  -- `_record_match`; `seen` is the rule's own dict.
  unfoldable pub record_match : String → Node P → Runtime → Bool × Runtime
  record_match rule node r =
      let seen = or_else (get r.seen rule) [] in record_found rule seen (evaluate P node seen) r

  unfoldable pub forget : Dict (Seen P) → Signature → Dict (Seen P)
  forget seen [] = seen
  forget seen ((key, t) ∷ sig) = forget (remove seen key) sig

  -- The rule's dict after the signature's keys are popped; an empty one is taken out.
  unfoldable pub keep_seen : Dict (Dict (Seen P)) → String → Dict (Seen P) → Dict (Dict (Seen P))
  keep_seen all rule left = if is_empty left then remove all rule else put all rule left

  -- `last_match`
  unfoldable pub last_match : String → Runtime → List (Seen P)
  last_match rule r = or_else (get r.last_matches rule) []

  -- `take_last_match`
  unfoldable pub take_last_match : String → Runtime → List (Seen P) × Runtime
  take_last_match rule r =
      let left = forget (or_else (get r.seen rule) []) (or_else (get r.fired rule) []) in
      (
        last_match rule r,
        record r {
          seen = keep_seen r.seen rule left;
          fired = remove r.fired rule;
          last_matches = remove r.last_matches rule;
        },
      )

  -- The fingerprint of an instance's configuration is compared where there is one, else the payload.
  unfoldable pub fits : (Dict Value → String) → Dict Value → Option (Dict Value) → Event P → Bool
  fits fingerprint payload (some c) e = fingerprint e.params == fingerprint c
  fits fingerprint payload none e = check_event_params P e.params payload

  -- The leaves of the event's type whose parameters fit.
  unfoldable pub matching :
      (Dict Value → String)
      → String
      → Dict Value
      → Option (Dict Value)
      → List (Event P)
      → List (Event P)
  matching fingerprint kind payload config [] = []
  matching fingerprint kind payload config (e ∷ es) =
      let rest = matching fingerprint kind payload config es in
      if (or_else e.type "" == kind) && fits fingerprint payload config e then e ∷ rest else rest

  unfoldable pub keys_of : List (Event P) → List String
  keys_of es = map (event_key P) es

  unfoldable pub with_keys : List String → List (Event P) → List (Event P)
  with_keys wanted [] = []
  with_keys wanted (e ∷ es) =
      let rest = with_keys wanted es in if has wanted (event_key P e) then e ∷ rest else rest

  -- The one child of an absence, where there is exactly one.
  unfoldable pub only_child : Nodes P → Option (Event P)
  only_child (more n no_more) = some (event_of P n)
  only_child _ = none

  -- The deadlines and the seen events of the rule.
  abbrev pub Clocks : Type 0
  Clocks = Dict Deadline × Dict (Seen P)

  unfoldable pub restart : String → Option ℕ → Clocks → Bool × Clocks
  restart key none c = (false, c)
  restart key (some t) c = (true, (put c.0 key (t, false), remove c.1 key))

  unfoldable pub restart_one : ℕ → List String → Window → Option (Event P) → Clocks → Bool × Clocks
  restart_one now matched window none c = (true, c)
  restart_one now matched window (some e) c =
      if has matched (event_key P e) then restart (not_key P e) (due now window) c else (true, c)

  -- The loop of `match` over the absences: false where it is left by an exception.
  unfoldable pub restart_all : ℕ → List String → List (Absence P) → Clocks → Bool × Clocks
  restart_all now matched [] c = (true, c)
  restart_all now matched (a ∷ rests) c =
      let d = restart_one now matched a.group.within_seconds (only_child a.children) c in
      let rest = restart_all now matched rests d.1 in if d.0 then rest else d

  unfoldable pub seen_now : ℕ → Dict Value → Event P → Seen P
  seen_now now payload e = record {
    binding_id = e.binding_id;
    type = or_else e.type "";
    params = e.params;
    timestamp = now;
    payload = payload;
  }

  unfoldable pub note : ℕ → Dict Value → List (Event P) → Dict (Seen P) → Dict (Seen P)
  note now payload [] seen = seen
  note now payload (e ∷ es) seen =
      note now payload es (put seen (event_key P e) (seen_now now payload e))

  unfoldable pub all_seen : Dict (Seen P) → Signature → Bool
  all_seen seen [] = true
  all_seen seen ((key, t) ∷ sig) =
      let rest = all_seen seen sig in elim (get seen key) [ none ↦ false | some _ ↦ rest ]

  -- A fired combination is forgotten once one of its events is.
  unfoldable pub drop_stale : String → Dict (Seen P) → Dict Signature → Dict Signature
  drop_stale rule seen fired =
      if all_seen seen (or_else (get fired rule) []) then fired else remove fired rule

  abbrev pub clocks_of : String → Runtime → Clocks
  clocks_of rule r = (or_else (get r.absence_deadlines rule) [], or_else (get r.seen rule) [])

  unfoldable pub with_clocks : String → Clocks → Runtime → Runtime
  with_clocks rule c r = record r {
    absence_deadlines = put r.absence_deadlines rule c.0;
    seen = put r.seen rule c.1;
  }

  unfoldable pub note_match :
      ℕ → Dict Value → String → Node P → List (Event P) → Runtime → Bool × Runtime
  note_match now payload rule node leaves r =
      let seen = or_else (get r.seen rule) [] in
      record_match rule node (record r {
        fired = drop_stale rule seen r.fired;
        seen = put r.seen rule (note now payload leaves seen);
      })

  -- `match` from its lock on; `none` where it is left by an exception.
  unfoldable pub match_leaves :
      ℕ → Dict Value → String → Node P → List (Event P) → Runtime → Option Bool × Runtime
  match_leaves now payload rule node leaves r =
      let c = restart_all now (keys_of leaves) (absence_nodes P node) (clocks_of rule r) in
      let s = with_clocks rule c.1 r in
      let wanted = with_keys (keys_of (positive_events P node)) leaves in
      let noted = note_match now payload rule node wanted s in
      if not c.0
      then (none, s)
      else if is_empty wanted
      then (some false, s)
      else (some noted.0, noted.1)

  unfoldable pub match_node :
      (Dict Value → String)
      → String
      → Node P
      → String
      → Dict Value
      → ℕ
      → Option (Dict Value)
      → Runtime
      → Option Bool × Runtime
  match_node fingerprint rule node kind payload now config r =
      let leaves = matching fingerprint kind payload config (iter_condition_events P node) in
      if is_empty leaves then (some false, r) else match_leaves now payload rule node leaves r

  -- `match`; a rule without a condition matches nothing.
  unfoldable pub match :
      (Dict Value → String)
      → String
      → Option (Node P)
      → String
      → Dict Value
      → ℕ
      → Option (Dict Value)
      → Runtime
      → Option Bool × Runtime
  match fingerprint rule none kind payload now config r = (some false, r)
  match fingerprint rule (some node) kind payload now config r =
      match_node fingerprint rule node kind payload now config r

  unfoldable pub take_if : String → Option Bool × Runtime → Option (List (Seen P)) × Runtime
  take_if rule (some true, r) = let taken = take_last_match rule r in (some taken.0, taken.1)
  take_if rule (_, r) = (none, r)

  -- `match_and_take`; `none` for Python's None, and where an exception leaves it.
  unfoldable pub match_and_take :
      (Dict Value → String)
      → String
      → Option (Node P)
      → String
      → Dict Value
      → ℕ
      → Option (Dict Value)
      → Runtime
      → Option (List (Seen P)) × Runtime
  match_and_take fingerprint rule node kind payload now config r =
      take_if rule (match fingerprint rule node kind payload now config r)
