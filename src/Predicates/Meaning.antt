-- ===== src/Predicates/Meaning.antt =====
-- What a valid predicate means, without the validation of each node on the way.
use notmy_fault.Prelude.{
  Option, none, some, refl, Bool-cases, inl, inr, String, ◌≡◌, Bool, true, false, [], ◌∷◌, ◌++◌,
  ◌==◌, arith, if◌then◌else◌, List,
}
use notmy_fault.Bindings.Value.{
  Value, atom, int, text, list, dict, Values, no_items, item, Fields, no_fields, field, Context,
  Reader, get_field,
}
use notmy_fault.Bindings.Parts.{append-nil}
use notmy_fault.Predicates.Validate.{
  op_of_text, Issue, op_of, is_no_item, issue_unless, not_one_child, validate, validate_children,
  validate_list, validate_items, Op, all_op, any_op, not_op, comparison, unknown_op,
}
use notmy_fault.Predicates.Evaluate.{
  by_comparison, key_error, Outcome, returns, raises, key_error, Operators,
}

pub no_node : {B : Type 0} {x y : B} (i : Issue) → i ∷ [] ≡ [] → x ≡ y
no_node i h = ground arith

module _ {A : Type 0} where
  pub child_list :
      (k : String) (b : Bool) (v : Value A) (fs : Fields A)
      → validate_children b (field k v fs) ≡ []
      → (k == "children") ≡ true
      → validate_list b v ≡ []
  unfolding validate_children
  child_list k b v fs h e = ground arith

  pub child_rest :
      (k : String) (b : Bool) (v : Value A) (fs : Fields A)
      → validate_children b (field k v fs) ≡ []
      → (k == "children") ≡ false
      → validate_children b fs ≡ []
  unfolding validate_children
  child_rest k b v fs h e = ground arith

  pub first_child :
      (v : Value A) (vs : Values A) → validate_list true (list (item v vs)) ≡ [] → validate v ≡ []
  unfolding validate_list
  first_child v vs h =
      (append-nil (validate v) (validate_items vs)
        (append-nil (issue_unless (is_no_item vs) not_one_child) (validate v ++ validate_items vs)
          h).1).0

  pub two_children :
      {B : Type 0} {x y : B} (v w : Value A) (vs : Values A)
      → validate_list true (list (item v (item w vs))) ≡ []
      → x ≡ y
  unfolding validate_list issue_unless
  two_children v w vs h = ground arith

-- The first of the results that is not True, or True where there is none: the result of an "all".
unfoldable pub all_hold : List (Outcome Bool) → Outcome Bool
all_hold [] = returns true
all_hold (returns true ∷ rest) = all_hold rest
all_hold (returns false ∷ rest) = returns false
all_hold (raises e ∷ rest) = raises e

-- The first of the results that is not False, or False where there is none.
unfoldable pub any_holds : List (Outcome Bool) → Outcome Bool
any_holds [] = returns false
any_holds (returns false ∷ rest) = any_holds rest
any_holds (returns true ∷ rest) = returns true
any_holds (raises e ∷ rest) = raises e

-- The opposite of the only result.
unfoldable pub opposite : List (Outcome Bool) → Outcome Bool
opposite (returns true ∷ []) = returns false
opposite (returns false ∷ []) = returns true
opposite (raises e ∷ []) = raises e
opposite [] = raises key_error
opposite (o ∷ o' ∷ rest) = raises key_error

module _ {A : Type 0} (q : Operators A) (p : Reader A) (c : Context A) where
  unfoldable pub verdict_of : Op → Fields A → List (Outcome Bool) → Outcome Bool
  verdict_of all_op fs results = all_hold results
  verdict_of any_op fs results = any_holds results
  verdict_of not_op fs results = opposite results
  verdict_of (comparison k) fs results = by_comparison q p c k fs
  verdict_of unknown_op fs results = raises key_error

  -- The verdict that the text of the operator asks for; one that is none of the three is compared.
  unfoldable pub verdict_at : Option (Value A) → Fields A → List (Outcome Bool) → Outcome Bool
  verdict_at (some (text t)) fs results =
      if t == "all"
      then all_hold results
      else if t == "any"
      then any_holds results
      else if t == "not"
      then opposite results
      else verdict_of (op_of_text t) fs results
  verdict_at o fs results = raises key_error

  pub verdict_at-op :
      (o : Option (Value A)) (fs : Fields A) (results : List (Outcome Bool))
      → verdict_at o fs results ≡ verdict_of (op_of o) fs results
  unfolding verdict_at op_of op_of_text verdict_of
  verdict_at-op none fs results = refl
  verdict_at-op (some (atom a)) fs results = refl
  verdict_at-op (some (int n)) fs results = refl
  verdict_at-op (some (list vs)) fs results = refl
  verdict_at-op (some (dict fs')) fs results = refl
  verdict_at-op (some (text t)) fs results = elim (Bool-cases (t == "all")) [
    | inl a ↦ rw a refl
    | inr a ↦ elim (Bool-cases (t == "any")) [
      | inl b ↦ rw (a, b) refl
      | inr b ↦ elim (Bool-cases (t == "not")) [
        | inl c ↦ rw (a, b, c) refl
        | inr c ↦ rw (a, b, c) refl
      ]
    ]
  ]

  unfoldable mutual
    pub meaning : Value A → Outcome Bool
    meaning (dict fs) = let results = child_meanings fs in verdict_at (get_field "op" fs) fs results
    meaning (atom a) = raises key_error
    meaning (int n) = raises key_error
    meaning (text t) = raises key_error
    meaning (list vs) = raises key_error

    -- The meanings of the children.
    pub child_meanings : Fields A → List (Outcome Bool)
    child_meanings no_fields = []
    child_meanings (field k v fs) =
        let here = list_meanings v in
        let there = child_meanings fs in if k == "children" then here else there

    pub list_meanings : Value A → List (Outcome Bool)
    list_meanings (list vs) = item_meanings vs
    list_meanings v = []

    pub item_meanings : Values A → List (Outcome Bool)
    item_meanings no_items = []
    item_meanings (item v vs) = meaning v ∷ item_meanings vs
