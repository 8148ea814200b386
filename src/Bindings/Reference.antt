-- ===== src/Bindings/Reference.antt =====
-- `validate_reference_fields`, `validate_binding_path`, `_reference_root` and `_read_reference`.
use notmy_fault.Prelude.{
  ℕ, zero, suc, String, Option, none, some, Bool, true, false, not, List, [], ◌∷◌, ◌==◌, ◌&&◌, ◌||◌,
  if◌then◌else◌,
}
use notmy_fault.Prelude.Dict.{get}
use notmy_fault.Prelude.Texts.{has}
use notmy_fault.Bindings.Value.{
  Value, atom, int, text, list, dict, Values, no_items, item, Fields, no_fields, field, Trigger,
  Step, Context, Reader, get_field, is_given, is_hidden,
}

-- The errors of a reference: "invalid_reference", "failed_binding_source", "private_plugin_data".
pub data ReadError : Type 0 where
  invalid failed_source private_data : ReadError

-- What a reference reads: a value, `_MISSING`, or an error.
pub data Read (A : Type 0) : Type 0 where
  found : Value A → Read A
  missing : Read A
  fails : ReadError → Read A

pub data Segment : Type 0 where
  name : String → Segment
  index : ℕ → Segment

-- `reference.get("on_missing")`: missing or null, one of the three policies, or another value.
pub data Policy : Type 0 where
  unset error_policy skip_policy default_policy unknown : Policy

module _ {A : Type 0} (p : Reader A) where
  unfoldable pub text_policy : String → Policy
  text_policy t =
      if t == "error"
      then error_policy
      else if t == "skip"
      then skip_policy
      else if t == "default"
      then default_policy
      else unknown

  unfoldable pub policy_of : Option (Value A) → Policy
  policy_of none = unset
  policy_of (some (atom a)) = if p.is_null a then unset else unknown
  policy_of (some (int n)) = unknown
  policy_of (some (text t)) = text_policy t
  policy_of (some (list vs)) = unknown
  policy_of (some (dict fs)) = unknown

  unfoldable pub policy : Fields A → Policy
  policy r = policy_of (get_field "on_missing" r)

  unfoldable pub is_known_policy : Policy → Bool → Bool
  is_known_policy unset given = not given
  is_known_policy error_policy given = not given
  is_known_policy skip_policy given = not given
  is_known_policy default_policy given = given
  is_known_policy unknown given = false

  unfoldable pub known_keys : Fields A → Bool
  known_keys no_fields = true
  known_keys (field k v fs) =
      has ("scope" ∷ "node" ∷ "path" ∷ "on_missing" ∷ "default" ∷ []) k && known_keys fs

  -- `validate_reference_fields`: whether it returns.
  unfoldable pub validate_reference_fields : Fields A → Bool
  validate_reference_fields r =
      known_keys r && is_known_policy (policy r) (is_given (get_field "default" r))

  unfoldable pub segment_of : Value A → Option Segment
  segment_of (int n) = some (index n)
  segment_of (text t) =
      if is_hidden t || has ("constructor" ∷ "prototype" ∷ []) t then none else some (name t)
  segment_of (atom a) = none
  segment_of (list vs) = none
  segment_of (dict fs) = none

  unfoldable pub add_segment : Option Segment → Option (List Segment) → Option (List Segment)
  add_segment none path = none
  add_segment (some s) none = none
  add_segment (some s) (some path) = some (s ∷ path)

  unfoldable pub segments : Values A → Option (List Segment)
  segments no_items = some []
  segments (item v vs) = add_segment (segment_of v) (segments vs)

  -- `validate_binding_path` for reference.get("path", []); none where it raises.
  unfoldable pub validate_binding_path : Option (Value A) → Option (List Segment)
  validate_binding_path none = some []
  validate_binding_path (some (list vs)) = segments vs
  validate_binding_path (some (atom a)) = none
  validate_binding_path (some (int n)) = none
  validate_binding_path (some (text t)) = none
  validate_binding_path (some (dict fs)) = none

  unfoldable pub given_or_missing : Option (Value A) → Read A
  given_or_missing none = missing
  given_or_missing (some v) = found v

  unfoldable pub trigger_payload : Option (Trigger A) → Read A
  trigger_payload none = missing
  trigger_payload (some t) = given_or_missing t.payload

  unfoldable pub trigger_config : Option (Trigger A) → Read A
  trigger_config none = missing
  trigger_config (some t) = given_or_missing t.config

  unfoldable pub step_result : Option (Step A) → Read A
  step_result none = missing
  step_result (some s) =
      if has ("failed" ∷ "cancelled" ∷ "timed_out" ∷ []) s.status
      then fails failed_source
      else if s.status == "skipped"
      then missing
      else given_or_missing s.result

  -- The source of a reference that names a node.
  unfoldable pub node_root : Context A → String → String → Read A
  node_root c scope node =
      if node == ""
      then fails invalid
      else if scope == "constant"
      then given_or_missing (get c.constants node)
      else if scope == "variable"
      then given_or_missing (get c.variables node)
      else if scope == "trigger"
      then trigger_payload (get c.triggers node)
      else if scope == "trigger_config"
      then trigger_config (get c.triggers node)
      else if scope == "step"
      then step_result (get c.steps node)
      else fails invalid

  unfoldable pub text_of : Option (Value A) → Option String
  text_of (some (text t)) = some t
  text_of o = none

  unfoldable pub scope_root : Context A → String → Option String → Read A
  scope_root c scope none = if scope == "event" then given_or_missing c.payload else fails invalid
  scope_root c scope (some node) =
      if scope == "event" then given_or_missing c.payload else node_root c scope node

  -- The source, for a scope that is a text; any other one is unknown.
  unfoldable pub reference_source : Context A → Option String → Option String → Read A
  reference_source c none target = fails invalid
  reference_source c (some scope) target = scope_root c scope target

  unfoldable pub get_item : ℕ → Values A → Option (Value A)
  get_item n no_items = none
  get_item zero (item v vs) = some v
  get_item (suc n) (item v vs) = get_item n vs

  unfoldable pub child : Value A → Segment → Option (Value A)
  child (dict fs) (name k) = get_field k fs
  child (list vs) (index n) = get_item n vs
  child v s = none

  unfoldable pub is_private_text : Option (Value A) → Bool
  is_private_text (some (text t)) = p.is_custom t && not (p.is_shared t)
  is_private_text o = false

  -- A value of a plugin's own type that is not shared.
  unfoldable pub is_private : Value A → Bool
  is_private (dict fs) = is_private_text (get_field "$type" fs)
  is_private (atom a) = false
  is_private (int n) = false
  is_private (text t) = false
  is_private (list vs) = false

  unfoldable pub follow : List Segment → Read A → Read A
  follow [] r = r
  follow (s ∷ path) (found v) =
      let next = follow path (given_or_missing (child v s)) in
      if is_private v then fails private_data else next
  follow (s ∷ path) missing = missing
  follow (s ∷ path) (fails e) = fails e

  unfoldable pub follow_valid : Option (List Segment) → Read A → Read A
  follow_valid none r = fails invalid
  follow_valid (some path) r = follow path r

  -- `_read_reference` after `_reference_root`.
  unfoldable pub read_reference : Context A → Fields A → Read A
  read_reference c r =
      if validate_reference_fields r
      then follow_valid (validate_binding_path (get_field "path" r))
          (reference_source c (text_of (get_field "scope" r)) (text_of (get_field "node" r)))
      else fails invalid
