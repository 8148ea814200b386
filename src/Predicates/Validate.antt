-- ===== src/Predicates/Validate.antt =====
-- `validate_predicate`.
use notmy_fault.Prelude.{
  String, Option, some, Bool, true, false, List, [], ◌∷◌, ◌++◌, ◌==◌, ◌||◌, if◌then◌else◌,
}
use notmy_fault.Bindings.Value.{
  Value, atom, int, text, list, dict, Values, no_items, item, Fields, no_fields, field, get_field,
  is_given,
}

-- COMPARISON_OPERATORS
pub data Comparison : Type 0 where
  eq ne gt gte lt lte contains is_true is_false : Comparison

-- node.get("op")
pub data Op : Type 0 where
  all_op any_op not_op : Op
  comparison : Comparison → Op
  unknown_op : Op

-- The errors of a node, without the place.
pub data Issue : Type 0 where
  no_object no_children not_one_child unknown_comparison no_left no_right : Issue

unfoldable pub op_of_text : String → Op
op_of_text t =
    if t == "all"
    then all_op
    else if t == "any"
    then any_op
    else if t == "not"
    then not_op
    else if t == "eq"
    then comparison eq
    else if t == "ne"
    then comparison ne
    else if t == "gt"
    then comparison gt
    else if t == "gte"
    then comparison gte
    else if t == "lt"
    then comparison lt
    else if t == "lte"
    then comparison lte
    else if t == "contains"
    then comparison contains
    else if t == "is_true"
    then comparison is_true
    else if t == "is_false"
    then comparison is_false
    else unknown_op

-- op in ("is_true", "is_false")
unfoldable pub is_unary : Comparison → Bool
is_unary is_true = true
is_unary is_false = true
is_unary k = false

unfoldable pub issue_unless : Bool → Issue → List Issue
issue_unless true i = []
issue_unless false i = i ∷ []

module _ {A : Type 0} where
  unfoldable pub op_of : Option (Value A) → Op
  op_of (some (text t)) = op_of_text t
  op_of o = unknown_op

  unfoldable pub operand_issues : Comparison → Fields A → List Issue
  operand_issues k fs =
      issue_unless (is_given (get_field "left" fs)) no_left
      ++ issue_unless (is_unary k || is_given (get_field "right" fs)) no_right

  abbrev pub is_no_item : Values A → Bool
  is_no_item no_items = true
  is_no_item (item v vs) = false

  -- The errors of a node: `one` and `many` are those of its children, as a NOT and as another one.
  unfoldable pub op_issues : Op → Fields A → List Issue → List Issue → List Issue
  op_issues all_op fs one many = many
  op_issues any_op fs one many = many
  op_issues not_op fs one many = one
  op_issues (comparison k) fs one many = operand_issues k fs
  op_issues unknown_op fs one many = unknown_comparison ∷ []

  unfoldable mutual
    pub validate : Value A → List Issue
    validate (dict fs) =
        let one = validate_children true fs in
        let many = validate_children false fs in op_issues (op_of (get_field "op" fs)) fs one many
    validate (atom a) = no_object ∷ []
    validate (int n) = no_object ∷ []
    validate (text t) = no_object ∷ []
    validate (list vs) = no_object ∷ []

    -- node.get("children"), where `is_not` tells of a NOT
    pub validate_children : Bool → Fields A → List Issue
    validate_children is_not no_fields = no_children ∷ []
    validate_children is_not (field k v fs) =
        let here = validate_list is_not v in
        let there = validate_children is_not fs in if k == "children" then here else there

    pub validate_list : Bool → Value A → List Issue
    validate_list is_not (list no_items) = no_children ∷ []
    validate_list is_not (list (item v vs)) =
        let children = validate v ++ validate_items vs in
        if is_not then issue_unless (is_no_item vs) not_one_child ++ children else children
    validate_list is_not (atom a) = no_children ∷ []
    validate_list is_not (int n) = no_children ∷ []
    validate_list is_not (text t) = no_children ∷ []
    validate_list is_not (dict fs) = no_children ∷ []

    pub validate_items : Values A → List Issue
    validate_items no_items = []
    validate_items (item v vs) = validate v ++ validate_items vs
