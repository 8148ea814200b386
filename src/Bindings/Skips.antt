-- ===== src/Bindings/Skips.antt =====
-- Values whose references are available are resolved without a BindingSkip.
use notmy_fault.Prelude.{
  String, ◌≡◌, ◌∙◌, inl, inr, refl, sym, ap, true, false, List, [], ◌∷◌, ◌==◌, arith, Bool-cases,
  no_true,
}
use notmy_fault.Bindings.Value.{
  Value, atom, int, text, list, dict, Values, no_items, item, Fields, no_fields, field, Context,
  Reader, is_literal, is_reference, is_typed_value,
}
use notmy_fault.Bindings.Reference.{policy}
use notmy_fault.Bindings.Resolve.{
  skip, error, only_text, is_conversion, resolve, resolve_items, resolve_fields, resolve_at,
  resolve_reference, resolve_conversion, resolve_template, resolve_texts,
}
use notmy_fault.Bindings.Available.{
  unavailable_references, unavailable_items, unavailable_fields, unavailable_own, unavailable_at,
  is_none, references_available,
}
use notmy_fault.Bindings.Static.{literal-Constant, dict_literal, dict_typed}
use notmy_fault.Bindings.Parts.{
  is_skip, append-nil, map-skip, prepend-skip, item-skip, field-skip, text-skip, only-skip,
  convert-skip,
}
use notmy_fault.Bindings.Dicts.{
  reference-skip, dict_reference, dict_other, dict_way, conversion_parts,
}

module _ {A : Type 0} (p : Reader A) (c : Context A) where
  at_fields :
      (n : String) (fs : Fields A) → unavailable_fields p c fs ≡ [] → unavailable_at p c n fs ≡ []
  unfolding unavailable_fields unavailable_at
  at_fields n no_fields h = refl
  at_fields n (field k v fs) h =
      let parts = append-nil (unavailable_references p c v) (unavailable_fields p c fs) h in
      elim (Bool-cases (k == n)) [ inl e ↦ rw e parts.0 | inr e ↦ rw e (at_fields n fs parts.1) ]

  -- A malformed conversion has no value to resolve; in a conversion only the fields are looked at.
  conversion_fields :
      (fs : Fields A)
      → is_conversion p fs ≡ true
      → unavailable_references p c (dict fs) ≡ []
      → unavailable_fields p c fs ≡ []
  conversion_fields fs h u =
      let x = conversion_parts p fs h in (dict_way p c fs u x.0 x.1.0).1 x.1.1

  at_head :
      (k n : String) (v : Value A) (fs : Fields A)
      → unavailable_at p c n (field k v fs) ≡ []
      → (k == n) ≡ true
      → unavailable_references p c v ≡ []
  unfolding unavailable_at
  at_head k n v fs h e = ground arith

  at_tail :
      (k n : String) (v : Value A) (fs : Fields A)
      → unavailable_at p c n (field k v fs) ≡ []
      → (k == n) ≡ false
      → unavailable_at p c n fs ≡ []
  unfolding unavailable_at
  at_tail k n v fs h e = ground arith

  mutual
    unfolding unavailable_references unavailable_items unavailable_fields unavailable_own
        unavailable_at resolve resolve_items resolve_fields resolve_at resolve_reference
        resolve_conversion resolve_template resolve_texts

    unskipped : (v : Value A) → unavailable_references p c v ≡ [] → is_skip (resolve p c v) ≡ false
    unskipped (atom a) h = refl
    unskipped (int n) h = refl
    unskipped (text t) h = text-skip p c (p.parts t)
    unskipped (list vs) h = map-skip (λ ws. list ws) (resolve_items p c vs) (unskipped_items vs h)
    unskipped (dict fs) h = elim (Bool-cases (is_literal fs)) [
      | inl l ↦ ap (λ r. is_skip r) (dict_literal p c fs l ∙ (literal-Constant p fs l).1)
      | inr l ↦ elim (Bool-cases (is_typed_value p fs)) [
        | inl t ↦ ap (λ r. is_skip r) (dict_typed p c fs t)
        | inr t ↦ elim (Bool-cases (is_reference fs)) [
          | inl r ↦
              ap (λ x. is_skip x) (dict_reference p c fs r)
              ∙ unskipped_reference fs ((dict_way p c fs h l t).0 r)
          | inr r ↦
              let children = (dict_way p c fs h l t).1 r in
              dict_other p c fs l t r (unskipped_conversion fs children)
                (unskipped_template fs children) (unskipped_fields fs children)
        ]
      ]
    ]

    unskipped_items :
        (vs : Values A) → unavailable_items p c vs ≡ [] → is_skip (resolve_items p c vs) ≡ false
    unskipped_items no_items h = refl
    unskipped_items (item v vs) h =
        let parts = append-nil (unavailable_references p c v) (unavailable_items p c vs) h in
        item-skip p (resolve p c v) (resolve_items p c vs) (unskipped v parts.0)
          (unskipped_items vs parts.1)

    unskipped_fields :
        (fs : Fields A) → unavailable_fields p c fs ≡ [] → is_skip (resolve_fields p c fs) ≡ false
    unskipped_fields no_fields h = refl
    unskipped_fields (field k v fs) h =
        let parts = append-nil (unavailable_references p c v) (unavailable_fields p c fs) h in
        field-skip p k (resolve p c v) (resolve_fields p c fs) (unskipped v parts.0)
          (unskipped_fields fs parts.1)

    unskipped_at :
        (n : String) (fs : Fields A)
        → unavailable_at p c n fs ≡ []
        → is_skip (resolve_at p c n fs) ≡ false
    unskipped_at n no_fields h = refl
    unskipped_at n (field k v fs) h = elim (Bool-cases (k == n)) [
      | inl e ↦ rw e (unskipped v (at_head k n v fs h e))
      | inr e ↦ rw e (unskipped_at n fs (at_tail k n v fs h e))
    ]

    unskipped_reference :
        (fs : Fields A) → unavailable_own p c fs ≡ [] → is_skip (resolve_reference p c fs) ≡ false
    unskipped_reference no_fields h = refl
    unskipped_reference (field k (atom a) fs) h = refl
    unskipped_reference (field k (int n) fs) h = refl
    unskipped_reference (field k (text t) fs) h = refl
    unskipped_reference (field k (list vs) fs) h = refl
    unskipped_reference (field k (dict r) fs) h =
        reference-skip p c (policy p r) r (unavailable_at p c "default" r)
          (resolve_at p c "default" r) h (unskipped_at "default" r)

    unskipped_conversion :
        (fs : Fields A)
        → unavailable_fields p c fs ≡ []
        → is_skip (resolve_conversion p c fs) ≡ false
    unskipped_conversion no_fields h = refl
    unskipped_conversion (field k (atom a) fs) h = refl
    unskipped_conversion (field k (int n) fs) h = refl
    unskipped_conversion (field k (text t) fs) h = refl
    unskipped_conversion (field k (list vs) fs) h = refl
    unskipped_conversion (field k (dict r) fs) h = elim (Bool-cases (is_conversion p r)) [
      | inl e ↦
          let own =
            (append-nil (unavailable_references p c (dict r)) (unavailable_fields p c fs) h).0 in
          let value = unskipped_at "value" r (at_fields "value" r (conversion_fields r e own)) in
          rw e (convert-skip p c r (p.source_of c r) (resolve_at p c "value" r) value)
      | inr e ↦ rw e refl
    ]

    unskipped_template :
        (fs : Fields A) → unavailable_fields p c fs ≡ [] → is_skip (resolve_template p c fs) ≡ false
    unskipped_template no_fields h = refl
    unskipped_template (field k (atom a) fs) h = refl
    unskipped_template (field k (int n) fs) h = refl
    unskipped_template (field k (text t) fs) h = refl
    unskipped_template (field k (dict r) fs) h = refl
    unskipped_template (field k (list vs) fs) h =
        map-skip (λ t. text t) (resolve_texts p c vs)
          (unskipped_texts vs
            (append-nil (unavailable_items p c vs) (unavailable_fields p c fs) h).0)

    unskipped_texts :
        (vs : Values A) → unavailable_items p c vs ≡ [] → is_skip (resolve_texts p c vs) ≡ false
    unskipped_texts no_items h = refl
    unskipped_texts (item v vs) h =
        let parts = append-nil (unavailable_references p c v) (unavailable_items p c vs) h in
        prepend-skip p (only_text p (resolve p c v)) (resolve_texts p c vs)
          (only-skip p (resolve p c v) (unskipped v parts.0)) (unskipped_texts vs parts.1)

  none_empty : (rs : List (Fields A)) → is_none p c rs ≡ true → rs ≡ []
  none_empty [] h = refl
  none_empty (r ∷ rs) h = ground arith

  -- Where every reference of a value is available (`references_available`), resolving it never
  -- raises a BindingSkip.
  pub resolve-references_available :
      (v : Value A) → references_available p c v ≡ true → ¬ (resolve p c v ≡ error skip)
  unfolding references_available
  resolve-references_available v h e =
      no_true
        (sym (unskipped v (none_empty (unavailable_references p c v) h)) ∙ ap (λ r. is_skip r) e)
