-- ===== src/Bindings/Listed.antt =====
-- Which references are told to be unavailable.
use notmy_fault.Prelude.{
  String, ◌≡◌, inl, inr, refl, Bool, true, false, List, [], ◌∷◌, ◌++◌, ◌==◌, ◌&&◌, ◌||◌, arith,
  Bool-cases, if◌then◌else◌, both_hold,
}
use notmy_fault.Bindings.Value.{
  Value, atom, int, text, list, dict, Values, no_items, item, Fields, no_fields, field, Context,
  Reader, get_field, is_literal, is_reference, is_typed_value,
}
use notmy_fault.Bindings.Reference.{
  Read, found, missing, fails, Policy, unset, error_policy, skip_policy, default_policy, unknown,
  policy, read_reference, text_of,
}
use notmy_fault.Bindings.Available.{
  iter_references, item_references, field_references, own_references, references_at, one_if,
  lacks_source, missing_references, read_references, reference_lacks, unavailable_references,
  unavailable_items, unavailable_fields, unavailable_own, unavailable_at,
}

module _ {B : Type 0} (f : B → Bool) where
  abbrev pub all : List B → Bool
  all [] = true
  all (x ∷ xs) = f x && all xs

  all-append : (xs ys : List B) → all (xs ++ ys) ≡ (all xs && all ys)
  all-append [] ys = refl
  all-append (x ∷ xs) ys = ground (arith, all-append xs ys)

  all_parts : (xs ys : List B) → all (xs ++ ys) ≡ true → (all xs ≡ true) × (all ys ≡ true)
  all_parts xs ys h = both_hold (all xs) (all ys) (ground (arith, all-append xs ys))

  all_join : (xs ys : List B) → all xs ≡ true → all ys ≡ true → all (xs ++ ys) ≡ true
  all_join xs ys h k = ground (arith, all-append xs ys)

  all_way :
      (l r : Bool) (own children own' children' : List B)
      → (r ≡ true → all own ≡ true → all own' ≡ true)
      → (all children ≡ true → all children' ≡ true)
      → all (if l then [] else if r then own else children) ≡ true
      → all (if l then [] else if r then own' else children') ≡ true
  all_way true r o k o' k' x y h = refl
  all_way false true o k o' k' x y h = x refl h
  all_way false false o k o' k' x y h = y h

module _ {A : Type 0} (p : Reader A) (c : Context A) (f : Fields A → Bool) where
  one-all : (b : Bool) (r : Fields A) → f r ≡ true → all f (one_if p b r) ≡ true
  unfolding one_if
  one-all true r h = ground arith
  one-all false r h = refl

  missing-all :
      (k : Policy) (r : Fields A) (d : List (Fields A))
      → f r ≡ true
      → all f d ≡ true
      → all f (missing_references p k r d) ≡ true
  unfolding missing_references
  missing-all unset r d h k = refl
  missing-all error_policy r d h k = refl
  missing-all unknown r d h k = refl
  missing-all skip_policy r d h k = ground arith
  missing-all default_policy r d h k = k

  read-all :
      (k : Policy) (r : Fields A) (x : Read A) (d : List (Fields A))
      → f r ≡ true
      → all f d ≡ true
      → all f (read_references p k r x d) ≡ true
  unfolding read_references
  read-all k r (found w) d h e = refl
  read-all k r missing d h e = missing-all k r d h e
  read-all k r (fails x) d h e = refl

  lacks-all :
      (k : Policy) (r : Fields A) (d : List (Fields A))
      → f r ≡ true
      → all f d ≡ true
      → all f (reference_lacks p c k r d) ≡ true
  unfolding reference_lacks
  lacks-all unset r d h e =
      one-all (lacks_source p c (text_of p (get_field "scope" r)) (text_of p (get_field "node" r)))
        r h
  lacks-all error_policy r d h e = read-all error_policy r (read_reference p c r) d h e
  lacks-all skip_policy r d h e = read-all skip_policy r (read_reference p c r) d h e
  lacks-all default_policy r d h e = read-all default_policy r (read_reference p c r) d h e
  lacks-all unknown r d h e = read-all unknown r (read_reference p c r) d h e

  at_true :
      (k n : String) (v : Value A) (fs : Fields A)
      → all f (references_at p n (field k v fs)) ≡ true
      → (k == n) ≡ true
      → all f (iter_references p v) ≡ true
  unfolding references_at
  at_true k n v fs h e = ground arith

  at_false :
      (k n : String) (v : Value A) (fs : Fields A)
      → all f (references_at p n (field k v fs)) ≡ true
      → (k == n) ≡ false
      → all f (references_at p n fs) ≡ true
  unfolding references_at
  at_false k n v fs h e = ground arith

  mutual
    unfolding iter_references item_references field_references own_references references_at
        unavailable_references unavailable_items unavailable_fields unavailable_own unavailable_at

    listed :
        (v : Value A)
        → all f (iter_references p v) ≡ true
        → all f (unavailable_references p c v) ≡ true
    listed (atom a) h = refl
    listed (int n) h = refl
    listed (text t) h = refl
    listed (list vs) h = listed_items vs h
    listed (dict fs) h =
        all_way f (is_literal fs || is_typed_value p fs) (is_reference fs) (own_references p fs)
          (field_references p fs) (unavailable_own p c fs) (unavailable_fields p c fs)
          (λ r. listed_own fs) (listed_fields fs) h

    listed_items :
        (vs : Values A)
        → all f (item_references p vs) ≡ true
        → all f (unavailable_items p c vs) ≡ true
    listed_items no_items h = refl
    listed_items (item v vs) h =
        let parts = all_parts f (iter_references p v) (item_references p vs) h in
        all_join f (unavailable_references p c v) (unavailable_items p c vs) (listed v parts.0)
          (listed_items vs parts.1)

    listed_fields :
        (fs : Fields A)
        → all f (field_references p fs) ≡ true
        → all f (unavailable_fields p c fs) ≡ true
    listed_fields no_fields h = refl
    listed_fields (field k v fs) h =
        let parts = all_parts f (iter_references p v) (field_references p fs) h in
        all_join f (unavailable_references p c v) (unavailable_fields p c fs) (listed v parts.0)
          (listed_fields fs parts.1)

    listed_own :
        (fs : Fields A) → all f (own_references p fs) ≡ true → all f (unavailable_own p c fs) ≡ true
    listed_own no_fields h = refl
    listed_own (field k (atom a) fs) h = refl
    listed_own (field k (int n) fs) h = refl
    listed_own (field k (text t) fs) h = refl
    listed_own (field k (list vs) fs) h = refl
    listed_own (field k (dict r) fs) h =
        let parts = both_hold (f r) (all f (references_at p "default" r)) h in
        lacks-all (policy p r) r (unavailable_at p c "default" r) parts.0
          (listed_at "default" r parts.1)

    listed_at :
        (n : String) (fs : Fields A)
        → all f (references_at p n fs) ≡ true
        → all f (unavailable_at p c n fs) ≡ true
    listed_at n no_fields h = refl
    listed_at n (field k v fs) h = elim (Bool-cases (k == n)) [
      | inl e ↦ rw e (listed v (at_true k n v fs h e))
      | inr e ↦ rw e (listed_at n fs (at_false k n v fs h e))
    ]

  -- Whatever holds of every reference that `iter_references` finds in a value holds of every one that
  -- `unavailable_references` tells: only references that stand in the value are told, none of a
  -- literal or of a typed value among them.
  pub unavailable_references-iter_references :
      (v : Value A)
      → all f (iter_references p v) ≡ true
      → all f (unavailable_references p c v) ≡ true
  unavailable_references-iter_references v h = listed v h
