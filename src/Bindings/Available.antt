-- ===== src/Bindings/Available.antt =====
-- `unavailable_references`, `references_available`, `iter_references` and `contains_dynamic_value`.
use notmy_fault.Prelude.{
  String, Option, none, some, Bool, true, false, not, List, [], ◌∷◌, ◌++◌, ◌==◌, ◌||◌,
  if◌then◌else◌,
}
use notmy_fault.Prelude.Dict.{get}
use notmy_fault.Bindings.Value.{
  Value, atom, int, text, list, dict, Values, no_items, item, Fields, no_fields, field, Part, chars,
  path, Step, Context, Reader, get_field, is_literal, is_reference, is_expression, is_typed_value,
}
use notmy_fault.Bindings.Reference.{
  Read, found, missing, fails, Policy, unset, error_policy, skip_policy, default_policy, unknown,
  policy, read_reference, text_of,
}

unfoldable pub has_path : List Part → Bool
has_path [] = false
has_path (chars t ∷ ps) = has_path ps
has_path (path ss ∷ ps) = true

abbrev pub is_known : {B : Type 0} → Option B → Bool
is_known none = false
is_known (some b) = true

module _ {A : Type 0} (p : Reader A) where
  unfoldable mutual
    -- `contains_dynamic_value` with `contains_legacy_template`
    pub contains_dynamic_value : Value A → Bool
    contains_dynamic_value (atom a) = false
    contains_dynamic_value (int n) = false
    contains_dynamic_value (text t) = has_path (p.parts t)
    contains_dynamic_value (list vs) = any_dynamic vs
    contains_dynamic_value (dict fs) =
        let children = any_field_dynamic fs in
        if is_literal fs || is_typed_value p fs
        then false
        else if is_expression fs
        then true
        else children

    pub any_dynamic : Values A → Bool
    any_dynamic no_items = false
    any_dynamic (item v vs) = contains_dynamic_value v || any_dynamic vs

    pub any_field_dynamic : Fields A → Bool
    any_field_dynamic no_fields = false
    any_field_dynamic (field k v fs) = contains_dynamic_value v || any_field_dynamic fs

  unfoldable mutual
    -- `iter_references`, without the places
    pub iter_references : Value A → List (Fields A)
    iter_references (atom a) = []
    iter_references (int n) = []
    iter_references (text t) = []
    iter_references (list vs) = item_references vs
    iter_references (dict fs) =
        let children = field_references fs in
        let own = own_references fs in
        if is_literal fs || is_typed_value p fs
        then []
        else if is_reference fs
        then own
        else children

    pub item_references : Values A → List (Fields A)
    item_references no_items = []
    item_references (item v vs) = iter_references v ++ item_references vs

    pub field_references : Fields A → List (Fields A)
    field_references no_fields = []
    field_references (field k v fs) = iter_references v ++ field_references fs

    pub own_references : Fields A → List (Fields A)
    own_references (field k (dict r) fs) = r ∷ references_at "default" r
    own_references (field k (atom a) fs) = []
    own_references (field k (int n) fs) = []
    own_references (field k (text t) fs) = []
    own_references (field k (list vs) fs) = []
    own_references no_fields = []

    pub references_at : String → Fields A → List (Fields A)
    references_at name no_fields = []
    references_at name (field k v fs) =
        let here = iter_references v in
        let there = references_at name fs in if k == name then here else there

  unfoldable pub one_if : Bool → Fields A → List (Fields A)
  one_if true r = r ∷ []
  one_if false r = []

  unfoldable pub is_ok : Option (Step A) → Bool
  is_ok none = false
  is_ok (some s) = s.status == "ok"

  -- reference.get("node") not in context["triggers"]
  unfoldable pub lacks_trigger : Context A → Option String → Bool
  lacks_trigger c none = true
  lacks_trigger c (some node) = not (is_known (get c.triggers node))

  unfoldable pub lacks_step : Context A → Option String → Bool
  lacks_step c none = true
  lacks_step c (some node) = not (is_ok (get c.steps node))

  -- A reference without a policy: only triggers and steps can be seen not to take part.
  unfoldable pub lacks_source : Context A → Option String → Option String → Bool
  lacks_source c none target = false
  lacks_source c (some scope) target =
      if scope == "trigger" || scope == "trigger_config"
      then lacks_trigger c target
      else if scope == "step"
      then lacks_step c target
      else false

  -- A reference that is missing, by its policy; `default` are those of its default value.
  unfoldable pub missing_references : Policy → Fields A → List (Fields A) → List (Fields A)
  missing_references skip_policy r default = r ∷ []
  missing_references default_policy r default = default
  missing_references error_policy r default = []
  missing_references unset r default = []
  missing_references unknown r default = []

  unfoldable pub read_references : Policy → Fields A → Read A → List (Fields A) → List (Fields A)
  read_references k r (found v) default = []
  read_references k r missing default = missing_references k r default
  read_references k r (fails e) default = []

  unfoldable pub reference_lacks : Context A → Policy → Fields A → List (Fields A) → List (Fields A)
  reference_lacks c unset r default =
      one_if (lacks_source c (text_of p (get_field "scope" r)) (text_of p (get_field "node" r))) r
  reference_lacks c error_policy r default =
      read_references error_policy r (read_reference p c r) default
  reference_lacks c skip_policy r default =
      read_references skip_policy r (read_reference p c r) default
  reference_lacks c default_policy r default =
      read_references default_policy r (read_reference p c r) default
  reference_lacks c unknown r default = read_references unknown r (read_reference p c r) default

  module _ (c : Context A) where
    unfoldable mutual
      -- `unavailable_references`, without the places
      pub unavailable_references : Value A → List (Fields A)
      unavailable_references (atom a) = []
      unavailable_references (int n) = []
      unavailable_references (text t) = []
      unavailable_references (list vs) = unavailable_items vs
      unavailable_references (dict fs) =
          let children = unavailable_fields fs in
          let own = unavailable_own fs in
          if is_literal fs || is_typed_value p fs
          then []
          else if is_reference fs
          then own
          else children

      pub unavailable_items : Values A → List (Fields A)
      unavailable_items no_items = []
      unavailable_items (item v vs) = unavailable_references v ++ unavailable_items vs

      pub unavailable_fields : Fields A → List (Fields A)
      unavailable_fields no_fields = []
      unavailable_fields (field k v fs) = unavailable_references v ++ unavailable_fields fs

      pub unavailable_own : Fields A → List (Fields A)
      unavailable_own (field k (dict r) fs) =
          reference_lacks c (policy p r) r (unavailable_at "default" r)
      unavailable_own (field k (atom a) fs) = []
      unavailable_own (field k (int n) fs) = []
      unavailable_own (field k (text t) fs) = []
      unavailable_own (field k (list vs) fs) = []
      unavailable_own no_fields = []

      pub unavailable_at : String → Fields A → List (Fields A)
      unavailable_at name no_fields = []
      unavailable_at name (field k v fs) =
          let here = unavailable_references v in
          let there = unavailable_at name fs in if k == name then here else there

    abbrev pub is_none : List (Fields A) → Bool
    is_none [] = true
    is_none (r ∷ rs) = false

    -- `references_available`
    unfoldable pub references_available : Value A → Bool
    references_available v = is_none (unavailable_references v)
