-- ===== src/Registry/Required.antt =====
-- `require_shared` and the references of a schema.
use notmy_fault.Prelude.{
  String, ◌≡◌, ◌∙◌, inl, inr, refl, sym, ap, Option, none, some, Bool, true, List, [], ◌∷◌, ◌++◌,
  arith, eq_iff, Bool-cases, Option-cases, subst, false,
}
use notmy_fault.Prelude.Dict.{Dict, get}
use notmy_fault.Prelude.Texts.{has}
use notmy_fault.Registry.Schema.{
  Schema, schema, Slot, no_schema, nested, Named, no_properties, property, Variants, no_variants,
  variant, Definition, Requirement, met, unknown_type, unavailable_type, private_plugin_data,
  and_require, require_definition, own_reference, references, slot_references, named_references,
  variant_references, require_own, require_shared, require_slot, require_named, require_variants,
}
use notmy_fault.Registry.Check.{checked, check_dependencies}
use notmy_fault.Registry.Marks.{available_of, shape, is_shared_shape, needs_of}
use notmy_fault.Registry.Ends.{uses_shared}

-- What it means to ask for types, one after the other: each must be defined, available and shared, and
-- the first that is not tells the error.
pub data Asks (ds : Dict Definition) : List String → Requirement → Type 0 where
  all_asked : Asks ds [] met
  allowed :
      {r : String} {rs : List String} {e : Requirement} (d : Definition)
      → get ds r ≡ some d
      → d.available ≡ true
      → d.shared ≡ true
      → Asks ds rs e
      → Asks ds (r ∷ rs) e
  undefined : {r : String} {rs : List String} → get ds r ≡ none → Asks ds (r ∷ rs) unknown_type
  unavailable :
      {r : String} {rs : List String} (d : Definition)
      → get ds r ≡ some d
      → d.available ≡ false
      → Asks ds (r ∷ rs) unavailable_type
  private :
      {r : String} {rs : List String} (d : Definition)
      → get ds r ≡ some d
      → d.available ≡ true
      → d.shared ≡ false
      → Asks ds (r ∷ rs) private_plugin_data

-- The first error of the types, one after the other.
abbrev require_all : Dict Definition → List String → Requirement
require_all ds [] = met
require_all ds (r ∷ rs) = and_require (require_definition (get ds r)) (require_all ds rs)

and_assoc :
    (a b c : Requirement) → and_require (and_require a b) c ≡ and_require a (and_require b c)
unfolding and_require
and_assoc met b c = refl
and_assoc unknown_type b c = refl
and_assoc unavailable_type b c = refl
and_assoc private_plugin_data b c = refl

and-met : (a : Requirement) → and_require a met ≡ a
unfolding and_require
and-met met = refl
and-met unknown_type = refl
and-met unavailable_type = refl
and-met private_plugin_data = refl

both_same : (a a' b b' : Requirement) → a ≡ a' → b ≡ b' → and_require a b ≡ and_require a' b'
both_same a a' b b' h k = cc

met_definition :
    (o : Option Definition)
    → available_of o ≡ true
    → is_shared_shape (shape o) ≡ true
    → require_definition o ≡ met
unfolding require_definition
met_definition none h k = ground arith
met_definition (some d) h k = ground arith

module _ (ds : Dict Definition) where
  all-append :
      (xs ys : List String)
      → require_all ds (xs ++ ys) ≡ and_require (require_all ds xs) (require_all ds ys)
  unfolding and_require
  all-append [] ys = refl
  all-append (x ∷ xs) ys =
      ap (and_require (require_definition (get ds x))) (all-append xs ys)
      ∙ sym (and_assoc (require_definition (get ds x)) (require_all ds xs) (require_all ds ys))

  join :
      (a b : Requirement) (xs ys : List String)
      → a ≡ require_all ds xs
      → b ≡ require_all ds ys
      → and_require a b ≡ require_all ds (xs ++ ys)
  join a b xs ys h k =
      both_same a (require_all ds xs) b (require_all ds ys) h k ∙ sym (all-append xs ys)

  all_met :
      (rs : List String)
      → ((r : String) → has rs r ≡ true → require_definition (get ds r) ≡ met)
      → require_all ds rs ≡ met
  unfolding and_require has
  all_met [] f = refl
  all_met (r ∷ rs) f =
      ap (λ a. and_require a (require_all ds rs)) (f r (ground (arith, eq_iff r r)))
      ∙ all_met rs (λ s m. f s (ground arith))

  require_all-Asks : (rs : List String) → Asks ds rs (require_all ds rs)
  unfolding require_definition and_require
  require_all-Asks [] = all_asked
  require_all-Asks (r ∷ rs) = elim (Option-cases (get ds r)) [
    | inl h ↦ rw h (undefined h)
    | inr (d, h) ↦ elim (Bool-cases d.available) [
      | inr off ↦ rw (h, off) (unavailable d h off)
      | inl on ↦ elim (Bool-cases d.shared) [
        | inr own ↦ rw (h, on, own) (private d h on own)
        | inl common ↦ rw (h, on, common) (allowed d h on common (require_all-Asks rs))
      ]
    ]
  ]

  module _ (is_custom : String → Bool) where
    own_same :
        (kind : String)
        → require_own is_custom ds kind ≡ require_all ds (own_reference is_custom kind)
    unfolding require_own own_reference
    own_same kind = elim (Bool-cases (is_custom kind)) [
      | inl h ↦ rw h (sym (and-met (require_definition (get ds kind))))
      | inr h ↦ rw h refl
    ]

    mutual
      unfolding references slot_references named_references variant_references require_shared
          require_slot require_named require_variants

      same : (s : Schema) → require_shared is_custom ds s ≡ require_all ds (references is_custom s)
      same (schema kind items additional named variants) =
          join _ _ (own_reference is_custom kind) _ (own_same kind) (
            join _ _ (slot_references is_custom items) _ (slot_same items) (
              join _ _ (slot_references is_custom additional) _ (slot_same additional) (
                join _ _ (named_references is_custom named) (variant_references is_custom variants)
                  (named_same named) (variants_same variants))))

      slot_same :
          (s : Slot) → require_slot is_custom ds s ≡ require_all ds (slot_references is_custom s)
      slot_same no_schema = refl
      slot_same (nested s) = same s

      named_same :
          (n : Named) → require_named is_custom ds n ≡ require_all ds (named_references is_custom n)
      named_same no_properties = refl
      named_same (property name s rest) =
          join _ _ (references is_custom s) (named_references is_custom rest) (same s)
            (named_same rest)

      variants_same :
          (v : Variants)
          → require_variants is_custom ds v ≡ require_all ds (variant_references is_custom v)
      variants_same no_variants = refl
      variants_same (variant s rest) =
          join _ _ (references is_custom s) (variant_references is_custom rest) (same s)
            (variants_same rest)

    -- `require_shared` of a schema asks for the types that `references` finds in it, in this order: it
    -- returns where each of them is defined, available and shared; else it raises the error of the first
    -- one that is not: an unknown type, an unavailable one, or one that is private to a plugin.
    pub require_shared-Asks :
        (s : Schema) → Asks ds (references is_custom s) (require_shared is_custom ds s)
    require_shared-Asks s =
        subst (Asks ds (references is_custom s)) (sym (same s))
          (require_all-Asks (references is_custom s))

module _ (is_custom : String → Bool) where
  -- After `_check_dependencies`, `require_shared` returns for the schema of every type that is
  -- available and shared.
  pub check_dependencies-require_shared :
      (ds out : Dict Definition)
      → check_dependencies is_custom ds ≡ checked out
      → (k : String) (d : Definition) → get out k ≡ some d
      → d.available ≡ true
      → d.shared ≡ true
      → require_shared is_custom out d.form ≡ met
  check_dependencies-require_shared ds out h k d e a s =
      same out is_custom d.form
      ∙ all_met out (references is_custom d.form) (λ r m.
        let x =
          uses_shared is_custom ds out h k r (ap available_of e ∙ a)
            (ap (λ o. is_shared_shape (shape o)) e ∙ s)
            (ap (λ o. has (needs_of is_custom (shape o)) r) e ∙ m) in
        met_definition (get out r) x.0 x.1)
