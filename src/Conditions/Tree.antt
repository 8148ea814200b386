-- ===== src/Conditions/Tree.antt =====
-- notmyfault/core/conditions.py: the condition tree of a rule, and its walks.
use Prim.Native.String.{◌++◌ as ◌<>◌}
use notmy_fault.Prelude.{
  ℕ, String, Option, none, some, Bool, true, false, List, [], ◌∷◌, ◌++◌, ◌==◌, ◌&&◌, if◌then◌else◌,
}
use notmy_fault.Prelude.Int.{ℤ}
use notmy_fault.Prelude.Dict.{Dict, get}
use notmy_fault.Scheduler.Config.{or_else}

-- JSON values and what Python does with them.
pub record Python : Type 1 where
  pub Value : Type 0
  -- a == b
  pub same : Value → Value → Bool
  -- json.dumps of the encoded type and parameters, with sorted keys
  pub dumps : String → Dict Value → String
  -- a number as a JSON value
  pub number : ℤ → Value
  -- sorted(...) of pairs of a key and a time
  pub sort : List (String × ℕ) → List (String × ℕ)

-- `within_seconds`: absent, or what `float` makes of it; `unreadable` is where that raises.
pub data Window : Type 0 where
  absent unreadable : Window
  seconds : ℤ → Window

module _ (P : Python) where
  open P use {Value, same, dumps}

  -- `binding_id` is `none` where the dict has no text there, `type` where it has no key.
  pub record Event : Type 0 where
    pub type : Option String
    pub binding_id : Option String
    pub params : Dict Value

  -- An inner node: `op` is str(node.get("op", node.get("type", "any"))).lower(), and `event` what
  -- `_event_key` reads of the dict.
  pub record Group : Type 0 where
    pub op : String
    pub within_seconds : Window
    pub event : Event

  -- Only the children that are dicts count.
  mutual
    pub data Node : Type 0 where
      leaf : Event → Node
      group : Group → Nodes → Node

    pub data Nodes : Type 0 where
      no_more : Nodes
      more : Node → Nodes → Nodes

  -- `_condition_op`
  unfoldable pub condition_op : Group → String
  condition_op g = if g.op == "or" then "any" else if g.op == "and" then "all" else g.op

  id_key : Event → Option String → String
  id_key e none = dumps (or_else e.type "") e.params
  id_key e (some id) = if id == "" then dumps (or_else e.type "") e.params else "id:" <> id

  -- `_event_key`
  unfoldable pub event_key : Event → String
  unfolding id_key
  event_key e = id_key e e.binding_id

  abbrev pub event_of : Node → Event
  event_of (leaf e) = e
  event_of (group g ns) = g.event

  unfoldable pub not_key : Event → String
  not_key e = "not:" <> event_key e

  unfoldable mutual
    -- `iter_condition_events`
    pub iter_condition_events : Node → List Event
    iter_condition_events (leaf e) = e ∷ []
    iter_condition_events (group g ns) = iter_events ns

    pub iter_events : Nodes → List Event
    iter_events no_more = []
    iter_events (more n ns) = iter_condition_events n ++ iter_events ns

  unfoldable mutual
    -- `_positive_events`
    pub positive_events : Node → List Event
    positive_events (leaf e) = e ∷ []
    positive_events (group g ns) =
        let inner = positive_in ns in if condition_op g == "not" then [] else inner

    pub positive_in : Nodes → List Event
    positive_in no_more = []
    positive_in (more n ns) = positive_events n ++ positive_in ns

  -- An inner node with its children.
  pub record Absence : Type 0 where
    pub group : Group
    pub children : Nodes

  unfoldable mutual
    -- `_absence_nodes`
    pub absence_nodes : Node → List Absence
    absence_nodes (leaf e) = []
    absence_nodes (group g ns) =
        let inner = absences_in ns in
        if condition_op g == "not" then record { group = g; children = ns } ∷ [] else inner

    pub absences_in : Nodes → List Absence
    absences_in no_more = []
    absences_in (more n ns) = absence_nodes n ++ absences_in ns

  agrees : Value → Option Value → Bool
  agrees expected none = false
  agrees expected (some v) = same v expected

  -- `check_event_params`
  unfoldable pub check_event_params : Dict Value → Dict Value → Bool
  unfolding agrees
  check_event_params [] payload = true
  check_event_params ((key, expected) ∷ rest) payload =
      agrees expected (get payload key) && check_event_params rest payload
