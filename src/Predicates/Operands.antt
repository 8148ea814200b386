-- ===== src/Predicates/Operands.antt =====
-- What a comparison, and each way to put results together, may raise.
use notmy_fault.Prelude.{
  ◌≡◌, inl, inr, refl, Option, none, some, Bool, true, false, [], ◌&&◌, ◌||◌, arith, Bool-cases,
  no_true,
}
use notmy_fault.Bindings.Value.{
  Value, atom, int, text, list, dict, Fields, Context, Reader, get_field, is_given,
}
use notmy_fault.Bindings.Resolve.{
  skip, missing_value, read_error, data_type, invalid_conversion, invalid_template, type_mismatch,
  Result, ok, error, resolve,
}
use notmy_fault.Bindings.Available.{references_available}
use notmy_fault.Bindings.Parts.{append-nil}
use notmy_fault.Bindings.Skips.{resolve-references_available}
use notmy_fault.Predicates.Validate.{
  Comparison, Issue, eq, ne, gt, gte, lt, lte, contains, is_true, is_false, operand_issues,
  is_unary, issue_unless, no_left, no_right,
}
use notmy_fault.Predicates.Evaluate.{
  Failure, invalid, key_error, unresolved, Outcome, returns, raises, Operators, contained, ordered,
  is_numeric, compare_values, with_right, compare, resolved, operand_value, operand, by_comparison,
}

-- A failure that says what is wrong with the predicate or its data: no error of the validation, no
-- missing key and no BindingSkip.
abbrev is_of_data : Failure → Bool
is_of_data (invalid is) = false
is_of_data key_error = false
is_of_data (unresolved skip) = false
is_of_data f = true

abbrev pub is_told : {B : Type 0} → Outcome B → Bool
is_told (returns b) = true
is_told (raises f) = is_of_data f

module _ {A : Type 0} (q : Operators A) where
  contained-told : (l r : Value A) → is_told (contained q l r) ≡ true
  unfolding contained
  contained-told (text t) (text u) = refl
  contained-told (text t) (atom a) = refl
  contained-told (text t) (int n) = refl
  contained-told (text t) (list vs) = refl
  contained-told (text t) (dict fs) = refl
  contained-told (list vs) r = refl
  contained-told (atom a) r = refl
  contained-told (int n) r = refl
  contained-told (dict fs) r = refl

  ordered-told : (k : Comparison) (l r : Value A) → is_told (ordered q k l r) ≡ true
  unfolding ordered
  ordered-told k l r = elim (Bool-cases (is_numeric q l && is_numeric q r)) [
    | inl e ↦ rw e refl
    | inr e ↦ rw e refl
  ]

  values-told : (k : Comparison) (l r : Value A) → is_told (compare_values q k l r) ≡ true
  unfolding compare_values
  values-told eq l r = refl
  values-told ne l r = refl
  values-told contains l r = contained-told l r
  values-told gt l r = ordered-told gt l r
  values-told gte l r = ordered-told gte l r
  values-told lt l r = ordered-told lt l r
  values-told lte l r = ordered-told lte l r
  values-told is_true l r = ordered-told is_true l r
  values-told is_false l r = ordered-told is_false l r

  right-told :
      (k : Comparison) (l : Value A) (r : Outcome (Value A))
      → (is_unary k ≡ false → is_told r ≡ true)
      → is_told (with_right q k l r) ≡ true
  unfolding with_right is_unary
  right-told is_true l r h = refl
  right-told is_false l r h = refl
  right-told eq l (returns r) h = values-told eq l r
  right-told eq l (raises e) h = h refl
  right-told ne l (returns r) h = values-told ne l r
  right-told ne l (raises e) h = h refl
  right-told gt l (returns r) h = values-told gt l r
  right-told gt l (raises e) h = h refl
  right-told gte l (returns r) h = values-told gte l r
  right-told gte l (raises e) h = h refl
  right-told lt l (returns r) h = values-told lt l r
  right-told lt l (raises e) h = h refl
  right-told lte l (returns r) h = values-told lte l r
  right-told lte l (raises e) h = h refl
  right-told contains l (returns r) h = values-told contains l r
  right-told contains l (raises e) h = h refl

  compare-told :
      (k : Comparison) (l r : Outcome (Value A))
      → is_told l ≡ true
      → (is_unary k ≡ false → is_told r ≡ true)
      → is_told (compare q k l r) ≡ true
  unfolding compare
  compare-told k (returns l) r h f = right-told k l r f
  compare-told k (raises e) r h f = h

  module _ (p : Reader A) (c : Context A) where
    resolved-told : (r : Result (Value A)) → ¬ r ≡ error skip → is_told (resolved q p c r) ≡ true
    unfolding resolved
    resolved-told (ok v) h = refl
    resolved-told (error skip) h = absurd (h refl)
    resolved-told (error missing_value) h = refl
    resolved-told (error (read_error e)) h = refl
    resolved-told (error (data_type t)) h = refl
    resolved-told (error invalid_conversion) h = refl
    resolved-told (error invalid_template) h = refl
    resolved-told (error type_mismatch) h = refl

    operand-told : (o : Option (Value A)) → is_given o ≡ true → is_told (operand q p c o) ≡ true
    unfolding operand operand_value
    operand-told none h = absurd (no_true h)
    operand-told (some v) h = elim (Bool-cases (references_available p c v)) [
      | inl e ↦ rw e (resolved-told (resolve p c v) (resolve-references_available p c v e))
      | inr e ↦ rw e refl
    ]

    issue_none : (b : Bool) (i : Issue) → issue_unless b i ≡ [] → b ≡ true
    unfolding issue_unless
    issue_none b i h = ground arith

    pub comparison-told :
        (k : Comparison) (fs : Fields A)
        → operand_issues k fs ≡ []
        → is_told (by_comparison q p c k fs) ≡ true
    unfolding by_comparison operand_issues
    comparison-told k fs h =
        let issues =
          append-nil (issue_unless (is_given (get_field "left" fs)) no_left)
            (issue_unless (is_unary k || is_given (get_field "right" fs)) no_right) h in
        let left = issue_none (is_given (get_field "left" fs)) no_left issues.0 in
        let right = issue_none (is_unary k || is_given (get_field "right" fs)) no_right issues.1 in
        compare-told k (operand q p c (get_field "left" fs)) (operand q p c (get_field "right" fs))
          (operand-told (get_field "left" fs) left)
          (λ u. operand-told (get_field "right" fs) (ground arith))
