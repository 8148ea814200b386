-- ===== src/Predicates/Told.antt =====
-- The failures of a predicate.
use notmy_fault.Prelude.{
  sym, subst, ◌++◌, ◌&&◌, no_true, both_hold, ◌≡◌, ◌∙◌, inl, inr, refl, sym, ap, Bool, true, false,
  List, [], ◌∷◌, ◌==◌, arith, Bool-cases,
}
use notmy_fault.Bindings.Value.{
  Value, atom, int, text, list, dict, Values, no_items, item, Fields, no_fields, field, Context,
  Reader, get_field,
}
use notmy_fault.Bindings.Parts.{append-nil}
use notmy_fault.Predicates.Validate.{
  Op, op_issues, all_op, any_op, not_op, comparison, unknown_op, issue_unless, is_no_item,
  not_one_child, Issue, no_object, no_children, op_of, validate, validate_children, validate_list,
  validate_items,
}
use notmy_fault.Predicates.Evaluate.{returns, raises, Outcome, Operators, checked, evaluate}
use notmy_fault.Predicates.Meaning.{
  verdict_at-op, meaning, child_meanings, list_meanings, item_meanings, all_hold, any_holds,
  opposite, verdict_of, no_node, child_list, child_rest, two_children,
}
use notmy_fault.Predicates.Same.{evaluate-meaning}
use notmy_fault.Predicates.Operands.{is_told, comparison-told}
use notmy_fault.Bindings.Listed.{all}

both_true : {a b : Bool} → a ≡ true → b ≡ true → (a && b) ≡ true
both_true h k = ground arith

abbrev is_single : List (Outcome Bool) → Bool
is_single [] = false
is_single (o ∷ []) = true
is_single (o ∷ o' ∷ rest) = false

all_hold-told : (rs : List (Outcome Bool)) → all is_told rs ≡ true → is_told (all_hold rs) ≡ true
unfolding all_hold
all_hold-told [] h = refl
all_hold-told (returns true ∷ rest) h = all_hold-told rest h
all_hold-told (returns false ∷ rest) h = refl
all_hold-told (raises e ∷ rest) h =
    (both_hold (is_told {B = Bool} (raises e)) (all is_told rest) h).0

any_holds-told : (rs : List (Outcome Bool)) → all is_told rs ≡ true → is_told (any_holds rs) ≡ true
unfolding any_holds
any_holds-told [] h = refl
any_holds-told (returns false ∷ rest) h = any_holds-told rest h
any_holds-told (returns true ∷ rest) h = refl
any_holds-told (raises e ∷ rest) h =
    (both_hold (is_told {B = Bool} (raises e)) (all is_told rest) h).0

opposite-told :
    (rs : List (Outcome Bool))
    → is_single rs ≡ true
    → all is_told rs ≡ true
    → is_told (opposite rs) ≡ true
unfolding opposite
opposite-told [] s h = absurd (no_true s)
opposite-told (returns true ∷ []) s h = refl
opposite-told (returns false ∷ []) s h = refl
opposite-told (raises e ∷ []) s h = (both_hold (is_told {B = Bool} (raises e)) true h).0
opposite-told (o ∷ o' ∷ rest) s h = absurd (no_true s)

verdict-told :
    {A : Type 0} (q : Operators A) (p : Reader A) (c : Context A) (o : Op) (fs : Fields A)
    (one many : List Issue) (rs : List (Outcome Bool))
    → op_issues o fs one many ≡ []
    → (many ≡ [] → all is_told rs ≡ true)
    → (one ≡ [] → all is_told rs ≡ true)
    → (one ≡ [] → is_single rs ≡ true)
    → is_told (verdict_of q p c o fs rs) ≡ true
unfolding verdict_of op_issues
verdict-told q p c all_op fs one many rs h x y z = all_hold-told rs (x h)
verdict-told q p c any_op fs one many rs h x y z = any_holds-told rs (x h)
verdict-told q p c not_op fs one many rs h x y z = opposite-told rs (z h) (y h)
verdict-told q p c (comparison k) fs one many rs h x y z = comparison-told q p c k fs h
verdict-told q p c unknown_op fs one many rs h x y z = ground arith

abbrev pub is_empty : List Issue → Bool
is_empty [] = true
is_empty (i ∷ rest) = false

empty_nil : (issues : List Issue) → is_empty issues ≡ true → issues ≡ []
empty_nil [] h = refl
empty_nil (i ∷ rest) h = ground arith

checked_invalid :
    (issues : List Issue) (r : Outcome Bool)
    → is_empty issues ≡ false
    → is_told (checked issues r) ≡ false
unfolding checked
checked_invalid [] r h = ground arith
checked_invalid (i ∷ rest) r h = refl

module _ {A : Type 0} (q : Operators A) (p : Reader A) (c : Context A) where
  one_item : (v : Value A) → validate_list true v ≡ [] → is_single (list_meanings q p c v) ≡ true
  unfolding list_meanings item_meanings validate_list
  one_item (atom a) h = no_node no_children h
  one_item (int n) h = no_node no_children h
  one_item (text t) h = no_node no_children h
  one_item (dict fs) h = no_node no_children h
  one_item (list no_items) h = no_node no_children h
  one_item (list (item v no_items)) h = refl
  one_item (list (item v (item w vs))) h = two_children v w vs h

  one_child :
      (fs : Fields A) → validate_children true fs ≡ [] → is_single (child_meanings q p c fs) ≡ true
  unfolding child_meanings list_meanings item_meanings validate_list
  one_child no_fields h = no_node no_children h
  one_child (field k v fs) h = elim (Bool-cases (k == "children")) [
    | inl e ↦ rw e (one_item v (child_list k true v fs h e))
    | inr e ↦ rw e (one_child fs (child_rest k true v fs h e))
  ]

  mutual
    unfolding meaning child_meanings list_meanings item_meanings validate validate_children
        validate_list validate_items

    meaning-told : (v : Value A) → validate v ≡ [] → is_told (meaning q p c v) ≡ true
    meaning-told (atom a) h = no_node no_object h
    meaning-told (int n) h = no_node no_object h
    meaning-told (text t) h = no_node no_object h
    meaning-told (list vs) h = no_node no_object h
    meaning-told (dict fs) h =
        subst (λ o. is_told o ≡ true)
          (sym (verdict_at-op q p c (get_field "op" fs) fs (child_meanings q p c fs)))
          (verdict-told q p c (op_of (get_field "op" fs)) fs (validate_children true fs)
            (validate_children false fs) (child_meanings q p c fs) h (children_told false fs)
            (children_told true fs) (one_child fs))

    children_told :
        (b : Bool) (fs : Fields A)
        → validate_children b fs ≡ []
        → all is_told (child_meanings q p c fs) ≡ true
    children_told b no_fields h = no_node no_children h
    children_told b (field k v fs) h = elim (Bool-cases (k == "children")) [
      | inl e ↦ rw e (list_told b v (child_list k b v fs h e))
      | inr e ↦ rw e (children_told b fs (child_rest k b v fs h e))
    ]

    list_told :
        (b : Bool) (v : Value A)
        → validate_list b v ≡ []
        → all is_told (list_meanings q p c v) ≡ true
    list_told b (atom a) h = no_node no_children h
    list_told b (int n) h = no_node no_children h
    list_told b (text t) h = no_node no_children h
    list_told b (dict fs) h = no_node no_children h
    list_told b (list no_items) h = no_node no_children h
    list_told false (list (item v vs)) h = items_told (item v vs) h
    list_told true (list (item v vs)) h =
        items_told (item v vs)
          (append-nil (issue_unless (is_no_item vs) not_one_child) (validate v ++ validate_items vs)
            h).1

    items_told :
        (vs : Values A) → validate_items vs ≡ [] → all is_told (item_meanings q p c vs) ≡ true
    items_told no_items h = refl
    items_told (item v vs) h =
        let parts = append-nil (validate v) (validate_items vs) h in
        both_true (meaning-told v parts.0) (items_told vs parts.1)

  evaluate_invalid :
      (v : Value A) → is_empty (validate v) ≡ false → is_told (evaluate q p c v) ≡ false
  unfolding evaluate checked
  evaluate_invalid (atom a) h = refl
  evaluate_invalid (int n) h = refl
  evaluate_invalid (text t) h = refl
  evaluate_invalid (list vs) h = refl
  evaluate_invalid (dict fs) h = checked_invalid (validate (dict fs)) _ h

  -- Just a predicate without errors (`validate_predicate`) is evaluated to a result or to an error
  -- about its data: a comparison of what cannot be compared, data that took no part in the run, or an
  -- error of `resolve_value`. It never raises a BindingSkip, an error of the validation or one about a
  -- missing key.
  pub evaluate-validate : (v : Value A) → is_told (evaluate q p c v) ≡ is_empty (validate v)
  evaluate-validate v = elim (Bool-cases (is_empty (validate v))) [
    | inl e ↦
        let valid = empty_nil (validate v) e in
        ap (λ r. is_told r) (evaluate-meaning q p c v valid) ∙ meaning-told v valid ∙ sym e
    | inr e ↦ evaluate_invalid v e ∙ sym e
  ]
