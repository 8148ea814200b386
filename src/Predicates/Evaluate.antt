-- ===== src/Predicates/Evaluate.antt =====
-- `evaluate_predicate`.
use notmy_fault.Prelude.{
  String, Option, none, some, Bool, true, false, not, List, [], ◌∷◌, ◌==◌, ◌&&◌, if◌then◌else◌,
}
use notmy_fault.Bindings.Value.{
  Value, atom, int, text, list, dict, Values, no_items, item, Fields, no_fields, field, Context,
  Reader, get_field,
}
use notmy_fault.Bindings.Resolve.{Error, Result, ok, error, resolve}
use notmy_fault.Bindings.Available.{references_available}
use notmy_fault.Predicates.Validate.{
  Comparison, eq, ne, contains, is_true, is_false, Op, all_op, any_op, not_op, comparison,
  unknown_op, Issue, no_object, op_of, validate,
}

-- What is raised: the errors of the validation, the two errors of a comparison, an operand whose data
-- took no part in the run, an error of `resolve_value`, or a missing key.
pub data Failure : Type 0 where
  invalid : List Issue → Failure
  no_container no_numbers unavailable key_error : Failure
  unresolved : Error → Failure

pub data Outcome (B : Type 0) : Type 0 where
  returns : B → Outcome B
  raises : Failure → Outcome B

-- What Python's values answer: `bool_of` tells True and False, `is_number` an int, a float or a
-- Decimal that is no bool, `equals` is ==, `in_text` and `in_list` are `in`, and `order` compares two
-- numbers.
pub record Operators (A : Type 0) : Type 0 where
  pub bool_of : A → Option Bool
  pub is_number : A → Bool
  pub equals : Value A → Value A → Bool
  pub in_text : String → String → Bool
  pub in_list : Value A → Values A → Bool
  pub order : Comparison → Value A → Value A → Bool

unfoldable pub is_this : Bool → Option Bool → Bool
is_this b none = false
is_this true (some x) = x
is_this false (some x) = not x

abbrev pub is_some_bool : Option Bool → Bool
is_some_bool none = false
is_some_bool (some x) = true

unfoldable pub is_same : Bool → Bool → Bool
is_same true b = b
is_same false b = not b

-- all(values) and any(values) over the children, one after the other
unfoldable pub and_then : Outcome Bool → Outcome Bool → Outcome Bool
and_then (returns true) rest = rest
and_then (returns false) rest = returns false
and_then (raises e) rest = raises e

unfoldable pub or_else : Outcome Bool → Outcome Bool → Outcome Bool
or_else (returns true) rest = returns true
or_else (returns false) rest = rest
or_else (raises e) rest = raises e

unfoldable pub negate : Outcome Bool → Outcome Bool
negate (returns b) = returns (not b)
negate (raises e) = raises e

unfoldable pub checked : List Issue → Outcome Bool → Outcome Bool
checked [] r = r
checked (i ∷ rest) r = raises (invalid (i ∷ rest))

module _ {A : Type 0} (q : Operators A) where
  -- value is True, value is False
  unfoldable pub is_the_bool : Bool → Value A → Bool
  is_the_bool b (atom a) = is_this b (q.bool_of a)
  is_the_bool b (int n) = false
  is_the_bool b (text t) = false
  is_the_bool b (list vs) = false
  is_the_bool b (dict fs) = false

  -- isinstance(value, bool)
  unfoldable pub is_bool : Value A → Bool
  is_bool (atom a) = is_some_bool (q.bool_of a)
  is_bool (int n) = false
  is_bool (text t) = false
  is_bool (list vs) = false
  is_bool (dict fs) = false

  unfoldable pub is_numeric : Value A → Bool
  is_numeric (atom a) = q.is_number a
  is_numeric (int n) = true
  is_numeric (text t) = false
  is_numeric (list vs) = false
  is_numeric (dict fs) = false

  unfoldable pub equal : Value A → Value A → Bool
  equal l r = q.equals l r && is_same (is_bool l) (is_bool r)

  unfoldable pub contained : Value A → Value A → Outcome Bool
  contained (text t) (text u) = returns (q.in_text u t)
  contained (list vs) r = returns (q.in_list r vs)
  contained l r = raises no_container

  unfoldable pub ordered : Comparison → Value A → Value A → Outcome Bool
  ordered k l r =
      if is_numeric l && is_numeric r then returns (q.order k l r) else raises no_numbers

  unfoldable pub compare_values : Comparison → Value A → Value A → Outcome Bool
  compare_values eq l r = returns (equal l r)
  compare_values ne l r = returns (not (equal l r))
  compare_values contains l r = contained l r
  compare_values k l r = ordered k l r

  unfoldable pub with_right : Comparison → Value A → Outcome (Value A) → Outcome Bool
  with_right is_true l r = returns (is_the_bool true l)
  with_right is_false l r = returns (is_the_bool false l)
  with_right k l (returns r) = compare_values k l r
  with_right k l (raises e) = raises e

  unfoldable pub compare : Comparison → Outcome (Value A) → Outcome (Value A) → Outcome Bool
  compare k (returns l) right = with_right k l right
  compare k (raises e) right = raises e

  module _ (p : Reader A) (c : Context A) where
    unfoldable pub resolved : Result (Value A) → Outcome (Value A)
    resolved (ok v) = returns v
    resolved (error e) = raises (unresolved e)

    unfoldable pub operand_value : Value A → Outcome (Value A)
    operand_value v =
        if references_available p c v then resolved (resolve p c v) else raises unavailable

    -- `operand`
    unfoldable pub operand : Option (Value A) → Outcome (Value A)
    operand none = raises key_error
    operand (some v) = operand_value v

    unfoldable pub by_comparison : Comparison → Fields A → Outcome Bool
    by_comparison k fs = compare k (operand (get_field "left" fs)) (operand (get_field "right" fs))

    unfoldable pub by_op : Op → Fields A → Outcome Bool → Outcome Bool → Outcome Bool → Outcome Bool
    by_op all_op fs every some_one first = every
    by_op any_op fs every some_one first = some_one
    by_op not_op fs every some_one first = negate first
    by_op (comparison k) fs every some_one first = by_comparison k fs
    by_op unknown_op fs every some_one first = raises key_error

    unfoldable mutual
      pub evaluate : Value A → Outcome Bool
      evaluate (dict fs) =
          let every = evaluate_children all_op fs in
          let some_one = evaluate_children any_op fs in
          let first = evaluate_children not_op fs in
          checked (validate (dict fs)) (by_op (op_of (get_field "op" fs)) fs every some_one first)
      evaluate (atom a) = raises (invalid (no_object ∷ []))
      evaluate (int n) = raises (invalid (no_object ∷ []))
      evaluate (text t) = raises (invalid (no_object ∷ []))
      evaluate (list vs) = raises (invalid (no_object ∷ []))

      -- node["children"]
      pub evaluate_children : Op → Fields A → Outcome Bool
      evaluate_children o no_fields = raises key_error
      evaluate_children o (field k v fs) =
          let here = evaluate_list o v in
          let there = evaluate_children o fs in if k == "children" then here else there

      pub evaluate_list : Op → Value A → Outcome Bool
      evaluate_list all_op (list vs) = evaluate_all vs
      evaluate_list any_op (list vs) = evaluate_any vs
      evaluate_list not_op (list (item v vs)) = evaluate v
      evaluate_list o v = raises key_error

      pub evaluate_all : Values A → Outcome Bool
      evaluate_all no_items = returns true
      evaluate_all (item v vs) = and_then (evaluate v) (evaluate_all vs)

      pub evaluate_any : Values A → Outcome Bool
      evaluate_any no_items = returns false
      evaluate_any (item v vs) = or_else (evaluate v) (evaluate_any vs)
