-- ===== src/Predicates/Same.antt =====
-- A valid predicate is evaluated to its meaning.
use notmy_fault.Prelude.{
  sym, ◌≡◌, ◌∙◌, inl, inr, refl, ap, Bool, true, false, List, [], ◌==◌, Bool-cases, ◌∷◌,
}
use notmy_fault.Bindings.Value.{
  Value, atom, int, text, list, dict, Values, no_items, item, Fields, no_fields, field, Context,
  Reader, get_field,
}
use notmy_fault.Bindings.Parts.{append-nil}
use notmy_fault.Predicates.Validate.{
  no_children, Issue, no_object, Op, all_op, any_op, not_op, comparison, unknown_op, op_of,
  op_issues, validate, validate_children, validate_list, validate_items,
}
use notmy_fault.Predicates.Evaluate.{
  Outcome, returns, raises, Operators, and_then, or_else, negate, checked, by_op, evaluate,
  evaluate_children, evaluate_list, evaluate_all, evaluate_any,
}
use notmy_fault.Predicates.Meaning.{
  verdict_at-op, meaning, child_meanings, list_meanings, item_meanings, all_hold, any_holds,
  opposite, verdict_of, no_node, child_list, child_rest, first_child, two_children,
}

and_then-all_hold :
    (o : Outcome Bool) (rest : List (Outcome Bool))
    → and_then o (all_hold rest) ≡ all_hold (o ∷ rest)
unfolding and_then all_hold
and_then-all_hold (returns true) rest = refl
and_then-all_hold (returns false) rest = refl
and_then-all_hold (raises e) rest = refl

or_else-any_holds :
    (o : Outcome Bool) (rest : List (Outcome Bool))
    → or_else o (any_holds rest) ≡ any_holds (o ∷ rest)
unfolding or_else any_holds
or_else-any_holds (returns true) rest = refl
or_else-any_holds (returns false) rest = refl
or_else-any_holds (raises e) rest = refl

negate-opposite : (o : Outcome Bool) → negate o ≡ opposite (o ∷ [])
unfolding negate opposite
negate-opposite (returns true) = refl
negate-opposite (returns false) = refl
negate-opposite (raises e) = refl

module _ {A : Type 0} (q : Operators A) (p : Reader A) (c : Context A) where
  same_op :
      (o : Op) (fs : Fields A) (one many : List Issue) (every some_one first : Outcome Bool)
      (results : List (Outcome Bool))
      → op_issues o fs one many ≡ []
      → (many ≡ [] → every ≡ all_hold results)
      → (many ≡ [] → some_one ≡ any_holds results)
      → (one ≡ [] → negate first ≡ opposite results)
      → by_op q p c o fs every some_one first ≡ verdict_of q p c o fs results
  unfolding by_op op_issues verdict_of
  same_op all_op fs one many e s f rs h x y z = x h
  same_op any_op fs one many e s f rs h x y z = y h
  same_op not_op fs one many e s f rs h x y z = z h
  same_op (comparison k) fs one many e s f rs h x y z = refl
  same_op unknown_op fs one many e s f rs h x y z = refl

  checked_dict :
      (fs : Fields A)
      → validate (dict fs) ≡ []
      → evaluate q p c (dict fs)
        ≡ by_op q p c
            (op_of (get_field "op" fs))
            fs
            (evaluate_children q p c all_op fs)
            (evaluate_children q p c any_op fs)
            (evaluate_children q p c not_op fs)
  unfolding evaluate checked
  checked_dict fs h = rw h refl

  dict_issues :
      (fs : Fields A)
      → validate (dict fs) ≡ []
      → op_issues
          (op_of (get_field "op" fs))
          fs
          (validate_children true fs)
          (validate_children false fs)
        ≡ []
  unfolding validate
  dict_issues fs h = h

  both_same :
      (f : Outcome Bool → Outcome Bool → Outcome Bool) (a a' b b' : Outcome Bool)
      → a ≡ a'
      → b ≡ b'
      → f a b ≡ f a' b'
  both_same f a a' b b' h k = cc

  mutual
    unfolding all_hold any_holds evaluate_children evaluate_list evaluate_all evaluate_any meaning
        child_meanings list_meanings item_meanings validate validate_list validate_items

    same : (v : Value A) → validate v ≡ [] → evaluate q p c v ≡ meaning q p c v
    same (atom a) h = no_node no_object h
    same (int n) h = no_node no_object h
    same (text t) h = no_node no_object h
    same (list vs) h = no_node no_object h
    same (dict fs) h =
        checked_dict fs h
        ∙ same_op (op_of (get_field "op" fs)) fs (validate_children true fs)
            (validate_children false fs) (evaluate_children q p c all_op fs)
            (evaluate_children q p c any_op fs) (evaluate_children q p c not_op fs)
            (child_meanings q p c fs) (dict_issues fs h) (every_child_same fs) (some_child_same fs)
            (only_child_same fs)
        ∙ sym (verdict_at-op q p c (get_field "op" fs) fs (child_meanings q p c fs))

    every_child_same :
        (fs : Fields A)
        → validate_children false fs ≡ []
        → evaluate_children q p c all_op fs ≡ all_hold (child_meanings q p c fs)
    every_child_same no_fields h = no_node no_children h
    every_child_same (field k v fs) h = elim (Bool-cases (k == "children")) [
      | inl e ↦ rw e (every_of_same v (child_list k false v fs h e))
      | inr e ↦ rw e (every_child_same fs (child_rest k false v fs h e))
    ]

    every_of_same :
        (v : Value A)
        → validate_list false v ≡ []
        → evaluate_list q p c all_op v ≡ all_hold (list_meanings q p c v)
    every_of_same (atom a) h = no_node no_children h
    every_of_same (int n) h = no_node no_children h
    every_of_same (text t) h = no_node no_children h
    every_of_same (dict fs) h = no_node no_children h
    every_of_same (list no_items) h = no_node no_children h
    every_of_same (list (item v vs)) h = every_item_same (item v vs) h

    every_item_same :
        (vs : Values A)
        → validate_items vs ≡ []
        → evaluate_all q p c vs ≡ all_hold (item_meanings q p c vs)
    every_item_same no_items h = refl
    every_item_same (item v vs) h =
        let parts = append-nil (validate v) (validate_items vs) h in
        both_same and_then (evaluate q p c v) (meaning q p c v) (evaluate_all q p c vs)
          (all_hold (item_meanings q p c vs)) (same v parts.0) (every_item_same vs parts.1)
        ∙ and_then-all_hold (meaning q p c v) (item_meanings q p c vs)

    some_child_same :
        (fs : Fields A)
        → validate_children false fs ≡ []
        → evaluate_children q p c any_op fs ≡ any_holds (child_meanings q p c fs)
    some_child_same no_fields h = no_node no_children h
    some_child_same (field k v fs) h = elim (Bool-cases (k == "children")) [
      | inl e ↦ rw e (some_of_same v (child_list k false v fs h e))
      | inr e ↦ rw e (some_child_same fs (child_rest k false v fs h e))
    ]

    some_of_same :
        (v : Value A)
        → validate_list false v ≡ []
        → evaluate_list q p c any_op v ≡ any_holds (list_meanings q p c v)
    some_of_same (atom a) h = no_node no_children h
    some_of_same (int n) h = no_node no_children h
    some_of_same (text t) h = no_node no_children h
    some_of_same (dict fs) h = no_node no_children h
    some_of_same (list no_items) h = no_node no_children h
    some_of_same (list (item v vs)) h = some_item_same (item v vs) h

    some_item_same :
        (vs : Values A)
        → validate_items vs ≡ []
        → evaluate_any q p c vs ≡ any_holds (item_meanings q p c vs)
    some_item_same no_items h = refl
    some_item_same (item v vs) h =
        let parts = append-nil (validate v) (validate_items vs) h in
        both_same or_else (evaluate q p c v) (meaning q p c v) (evaluate_any q p c vs)
          (any_holds (item_meanings q p c vs)) (same v parts.0) (some_item_same vs parts.1)
        ∙ or_else-any_holds (meaning q p c v) (item_meanings q p c vs)

    only_child_same :
        (fs : Fields A)
        → validate_children true fs ≡ []
        → negate (evaluate_children q p c not_op fs) ≡ opposite (child_meanings q p c fs)
    only_child_same no_fields h = no_node no_children h
    only_child_same (field k v fs) h = elim (Bool-cases (k == "children")) [
      | inl e ↦ rw e (only_of_same v (child_list k true v fs h e))
      | inr e ↦ rw e (only_child_same fs (child_rest k true v fs h e))
    ]

    only_of_same :
        (v : Value A)
        → validate_list true v ≡ []
        → negate (evaluate_list q p c not_op v) ≡ opposite (list_meanings q p c v)
    only_of_same (atom a) h = no_node no_children h
    only_of_same (int n) h = no_node no_children h
    only_of_same (text t) h = no_node no_children h
    only_of_same (dict fs) h = no_node no_children h
    only_of_same (list no_items) h = no_node no_children h
    only_of_same (list (item v no_items)) h =
        ap negate (same v (first_child v no_items h)) ∙ negate-opposite (meaning q p c v)
    only_of_same (list (item v (item w vs))) h = two_children v w vs h

  -- A predicate without errors (`validate_predicate`) is evaluated to its meaning: an "all" to the
  -- first result of its children, in their order, that is not True, and to True where there is none;
  -- an "any" to the first that is not False, and to False where there is none; a "not" to the opposite
  -- of its only child's; an exception in a child is such a result. A comparison node is compared
  -- alone, as `evaluate_predicate` compares. The validation that it repeats at every node raises nothing.
  pub evaluate-meaning : (v : Value A) → validate v ≡ [] → evaluate q p c v ≡ meaning q p c v
  evaluate-meaning v h = same v h
