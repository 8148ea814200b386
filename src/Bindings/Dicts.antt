-- ===== src/Bindings/Dicts.antt =====
-- Which dicts raise a BindingSkip when they are resolved.
use notmy_fault.Prelude.{
  String, ◌≡◌, ◌∙◌, inl, inr, refl, sym, ap, true, false, List, [], ◌∷◌, ◌==◌, arith, Bool-cases,
  both_hold, no_true,
}
use notmy_fault.Prelude.Texts.{has, eq_text}
use notmy_fault.Bindings.Value.{
  Value, dict, Fields, no_fields, field, Context, Reader, get_field, is_given, is_only, is_literal,
  is_reference, is_typed_value,
}
use notmy_fault.Bindings.Reference.{
  Read, found, missing, fails, Policy, unset, error_policy, skip_policy, default_policy, unknown,
  read_reference,
}
use notmy_fault.Bindings.Resolve.{
  Result, on_missing, resolve_read, conversion_keys, is_conversion, resolve, resolve_fields,
  resolve_reference, resolve_conversion, resolve_template,
}
use notmy_fault.Bindings.Available.{
  missing_references, read_references, reference_lacks, unavailable_references, unavailable_fields,
  unavailable_own,
}
use notmy_fault.Bindings.Parts.{way_of, data-skip, bind-skip, is_skip, map-skip}

module _ {A : Type 0} (p : Reader A) where
  missing-skip :
      (k : Policy) (r : Fields A) (d : List (Fields A)) (v : Result (Value A))
      → missing_references p k r d ≡ []
      → (d ≡ [] → is_skip v ≡ false)
      → is_skip (on_missing p k v) ≡ false
  unfolding missing_references on_missing
  missing-skip unset r d v h f = refl
  missing-skip error_policy r d v h f = refl
  missing-skip unknown r d v h f = refl
  missing-skip skip_policy r d v h f = ground arith
  missing-skip default_policy r d v h f = bind-skip p v (f h)

  read-skip :
      (k : Policy) (r : Fields A) (x : Read A) (d : List (Fields A)) (v : Result (Value A))
      → read_references p k r x d ≡ []
      → (d ≡ [] → is_skip v ≡ false)
      → is_skip (resolve_read p k x v) ≡ false
  unfolding read_references resolve_read
  read-skip k r (found w) d v h f = data-skip p (p.binding_value w)
  read-skip k r missing d v h f = missing-skip k r d v h f
  read-skip k r (fails e) d v h f = refl

  unset-skip : (x : Read A) (v : Result (Value A)) → is_skip (resolve_read p unset x v) ≡ false
  unfolding resolve_read on_missing
  unset-skip (found w) v = data-skip p (p.binding_value w)
  unset-skip missing v = refl
  unset-skip (fails e) v = refl

  pub reference-skip :
      (c : Context A) (k : Policy) (r : Fields A) (d : List (Fields A)) (v : Result (Value A))
      → reference_lacks p c k r d ≡ []
      → (d ≡ [] → is_skip v ≡ false)
      → is_skip (resolve_read p k (read_reference p c r) v) ≡ false
  unfolding reference_lacks
  reference-skip c unset r d v h f = unset-skip (read_reference p c r) v
  reference-skip c error_policy r d v h f = read-skip error_policy r (read_reference p c r) d v h f
  reference-skip c skip_policy r d v h f = read-skip skip_policy r (read_reference p c r) d v h f
  reference-skip c default_policy r d v h f =
      read-skip default_policy r (read_reference p c r) d v h f
  reference-skip c unknown r d v h f = read-skip unknown r (read_reference p c r) d v h f

  pub dict_reference :
      (c : Context A) (fs : Fields A)
      → is_reference fs ≡ true
      → resolve p c (dict fs) ≡ resolve_reference p c fs
  unfolding resolve
  dict_reference c fs h = rw h refl

  pub dict_other :
      (c : Context A) (fs : Fields A)
      → is_literal fs ≡ false
      → is_typed_value p fs ≡ false
      → is_reference fs ≡ false
      → is_skip (resolve_conversion p c fs) ≡ false
      → is_skip (resolve_template p c fs) ≡ false
      → is_skip (resolve_fields p c fs) ≡ false
      → is_skip (resolve p c (dict fs)) ≡ false
  unfolding resolve
  dict_other c fs l t r x y z = elim (Bool-cases (is_only "$convert" fs)) [
    | inl a ↦ rw (l, t, r, a) x
    | inr a ↦ elim (Bool-cases (is_only "$template" fs)) [
      | inl b ↦ rw (l, t, r, a, b) y
      | inr b ↦ rw (l, t, r, a, b) (map-skip (λ gs. dict gs) (resolve_fields p c fs) z)
    ]
  ]

  pub dict_way :
      (c : Context A) (fs : Fields A)
      → unavailable_references p c (dict fs) ≡ []
      → is_literal fs ≡ false
      → is_typed_value p fs ≡ false
      → (is_reference fs ≡ true → unavailable_own p c fs ≡ [])
        × (is_reference fs ≡ false → unavailable_fields p c fs ≡ [])
  unfolding unavailable_references
  dict_way c fs h l t =
      way_of (is_literal fs) (is_typed_value p fs) (is_reference fs) (unavailable_own p c fs)
        (unavailable_fields p c fs) h l t

  given-get :
      (name : String) (fs : Fields A) → is_only name fs ≡ true → is_given (get_field name fs) ≡ true
  unfolding is_only get_field
  given-get name no_fields h = ground arith
  given-get name (field k v no_fields) h = rw h refl
  given-get name (field k v (field k' v' fs)) h = ground arith

  conversion_key :
      (name : String) (fs : Fields A)
      → has ("value" ∷ "to" ∷ "from" ∷ "options" ∷ []) name ≡ false
      → conversion_keys p fs ≡ true
      → is_given (get_field name fs) ≡ false
  unfolding conversion_keys get_field
  conversion_key name no_fields n h = refl
  conversion_key name (field k v fs) n h =
      let known =
        both_hold (has ("value" ∷ "to" ∷ "from" ∷ "options" ∷ []) k) (conversion_keys p fs) h in
      elim (Bool-cases (k == name)) [
        | inl e ↦ absurd (
            no_true (
              sym n
              ∙ ap (has ("value" ∷ "to" ∷ "from" ∷ "options" ∷ [])) (sym (eq_text k name e))
              ∙ known.0))
        | inr e ↦ rw e (conversion_key name fs n known.1)
      ]

  unknown_only :
      (name : String) (fs : Fields A)
      → has ("value" ∷ "to" ∷ "from" ∷ "options" ∷ []) name ≡ false
      → conversion_keys p fs ≡ true
      → is_only name fs ≡ false
  unknown_only name fs n h = elim (Bool-cases (is_only name fs)) [
    | inl e ↦ absurd (no_true (sym (conversion_key name fs n h) ∙ given-get name fs e))
    | inr e ↦ e
  ]

  pub conversion_parts :
      (fs : Fields A)
      → is_conversion p fs ≡ true
      → (is_literal fs ≡ false) × ((is_typed_value p fs ≡ false) × (is_reference fs ≡ false))
  unfolding is_conversion is_literal is_typed_value is_reference has
  conversion_parts fs h =
      let keys = (both_hold _ (conversion_keys p fs) h).1 in
      (
        unknown_only "$literal" fs refl keys,
        (
          ground (arith, conversion_key "data" fs refl keys),
          ground (arith, unknown_only "$ref" fs refl keys),
        ),
      )
