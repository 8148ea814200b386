-- ===== src/Conditions/Evaluate.antt =====
-- `ConditionRuntime._evaluate`: whether the events seen so far fulfil a condition, and which of them.
use Prim.Native.Nat.{min}
use notmy_fault.Prelude.{
  ℕ, ◌-◌, String, Option, none, some, Bool, true, false, List, [], ◌∷◌, ◌++◌, ◌==◌, ◌&&◌, ltb, max,
  if◌then◌else◌,
}
use notmy_fault.Prelude.Int.{pos, negsuc}
use notmy_fault.Prelude.Dict.{Dict, get}
use notmy_fault.Conditions.Tree.{
  Python, Window, absent, unreadable, seconds, Group, Node, leaf, group, Nodes, no_more, more,
  condition_op, event_key, not_key, event_of,
}

-- The events that fulfil a condition: their keys and times. Times are whole ticks.
abbrev pub Signature : Type 0
Signature = List (String × ℕ)

-- max(item[1] for item in signature), where `none` is float("-inf")
unfoldable pub latest_time : Signature → Option ℕ
latest_time [] = none
latest_time (x ∷ xs) = elim (latest_time xs) [ none ↦ some x.1 | some t ↦ some (max x.1 t) ]

unfoldable pub earliest_time : Signature → Option ℕ
earliest_time [] = none
earliest_time (x ∷ xs) = elim (earliest_time xs) [ none ↦ some x.1 | some t ↦ some (min x.1 t) ]

-- Strictly later.
unfoldable pub is_later : Option ℕ → Option ℕ → Bool
is_later none _ = false
is_later (some t) none = true
is_later (some t) (some u) = ltb u t

unfoldable pub spread_exceeds : ℕ → Option ℕ → Option ℕ → Bool
spread_exceeds limit (some last) (some first) = ltb limit (last - first)
spread_exceeds limit _ _ = false

-- The tests on `within_seconds`: false where the combination is refused.
unfoldable pub in_window : Window → Signature → Bool
unfolding spread_exceeds
in_window absent sig = true
in_window unreadable sig = false
in_window (seconds (negsuc n)) sig = false
in_window (seconds (pos limit)) sig =
    if spread_exceeds limit (latest_time sig) (earliest_time sig) then false else true

-- all(ok for ok, _signature in states), and the signatures one after the other
unfoldable pub all_ok : List (Bool × Signature) → Bool
all_ok [] = true
all_ok (x ∷ xs) = x.0 && all_ok xs

unfoldable pub signatures : List (Bool × Signature) → Signature
signatures [] = []
signatures (x ∷ xs) = x.1 ++ signatures xs

unfoldable pub matches : List (Bool × Signature) → List Signature
matches [] = []
matches (x ∷ xs) = let rest = matches xs in if x.0 then x.1 ∷ rest else rest

-- max(matches, key=...): the first of the latest ones
unfoldable pub latest : Signature → List Signature → Signature
latest best [] = best
latest best (x ∷ xs) = latest (if is_later (latest_time x) (latest_time best) then x else best) xs

unfoldable pub any_of : List Signature → Bool × Signature
any_of [] = (false, [])
any_of (x ∷ xs) = (true, latest x xs)

module _ (P : Python) where
  open P use {Value, sort}

  -- What a rule remembers of an event.
  pub record Seen : Type 0 where
    pub binding_id : Option String
    pub type : String
    pub params : Dict Value
    pub timestamp : ℕ
    pub payload : Dict Value

  unfoldable pub of_entry : String → Option (Seen) → Bool × Signature
  of_entry key none = (false, [])
  of_entry key (some e) = (true, (key, e.timestamp) ∷ [])

  unfoldable pub all_of : Window → List (Bool × Signature) → Bool × Signature
  all_of window states =
      if all_ok states && in_window window (signatures states)
      then (true, sort (signatures states))
      else (false, [])

  -- The part of `_evaluate` after the children's states.
  unfoldable pub combine :
      Group P → Nodes P → List (Bool × Signature) → Dict (Seen) → Bool × Signature
  combine g no_more states seen = (false, [])
  combine g (more n ns) states seen =
      if condition_op P g == "not"
      then of_entry (not_key P (event_of P n)) (get seen (not_key P (event_of P n)))
      else if condition_op P g == "all"
      then all_of g.within_seconds states
      else any_of (matches states)

  -- `_evaluate`; the states of the children do not matter for a "not".
  unfoldable mutual
    pub evaluate : Node P → Dict (Seen) → Bool × Signature
    evaluate (leaf e) seen = of_entry (event_key P e) (get seen (event_key P e))
    evaluate (group g ns) seen = let states = evaluate_all ns seen in combine g ns states seen

    pub evaluate_all : Nodes P → Dict (Seen) → List (Bool × Signature)
    evaluate_all no_more seen = []
    evaluate_all (more n ns) seen = evaluate n seen ∷ evaluate_all ns seen
