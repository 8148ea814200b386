-- ===== src/Registry/First.antt =====
-- The first loop of `_check_dependencies`, over all definitions.
use notmy_fault.Prelude.{
  String, ◌≡◌, ◌∙◌, ◌⊎◌, subst, inl, inr, refl, sym, ap, Option, none, some, Bool, true, false, [],
  ◌∷◌, ◌==◌, arith, if◌then◌else◌, no_true,
}
use notmy_fault.Prelude.Dict.{Dict, get}
use notmy_fault.Prelude.Texts.{has}
use notmy_fault.Registry.Schema.{Definition, references}
use notmy_fault.Registry.Check.{check_references, keep, needs, check_all}
use notmy_fault.Registry.Marks.{
  available_of, shape, is_some_shape, is_shared_shape, needs_of, needs_at, Broken, unavailable,
  uses, IsMarked, IsClosed,
}
use notmy_fault.Registry.Targets.{IsFirst, references-IsFirst, some_eq}

shapeless : (o : Option Definition) → shape o ≡ none → available_of o ≡ false
shapeless none h = refl
shapeless (some d) h = ground arith

both_equal :
    (d e : Definition) → (e.form ≡ d.form) × (e.shared ≡ d.shared) → shape (some e) ≡ shape (some d)
both_equal d e h = cc

module _ (is_custom : String → Bool) (ds : Dict Definition) where
  keep-get :
      (k j : String) (d : Definition) (rest out : Dict Definition) (o : Option Definition)
      (p : Option (Dict Definition))
      → keep k o p ≡ some out
      → (d' : Definition) × ((rest' : Dict Definition) × ((o ≡ some d')
            × ((p ≡ some rest') × (out ≡ (k, d') ∷ rest'))))
  unfolding keep
  keep-get k j d rest out none p h = ground arith
  keep-get k j d rest out (some x) none h = ground arith
  keep-get k j d rest out (some x) (some y) h = (x, (y, (refl, (refl, ground arith))))

  -- What stands at a name before the loop and after it.
  abbrev At : Option Definition → Option Definition → Type 0
  At o q =
      ((o ≡ none) × (q ≡ none))
      ⊎ ((d : Definition) × ((e : Definition) × ((o ≡ some d)
              × ((q ≡ some e) × IsFirst ds (needs is_custom d) d e))))

  At-head :
      (b : Bool) (d d' : Definition) (o q : Option Definition)
      → check_references ds (needs is_custom d) (some d) ≡ some d'
      → At o q
      → At (if b then some d else o) (if b then some d' else q)
  At-head true d d' o q x y =
      inr (d, (d', (refl, (refl, references-IsFirst ds (needs is_custom d) d d' x))))
  At-head false d d' o q x y = y

  check_all-At :
      (rest out : Dict Definition)
      → check_all is_custom ds rest ≡ some out
      → (j : String) → At (get rest j) (get out j)
  unfolding check_all get
  check_all-At [] out h j = inl (refl, ap (λ o. get o j) (sym (some_eq [] out h)))
  check_all-At ((k, d) ∷ rest) out h j =
      let (d', (rest', (x, (y, z)))) =
        keep-get k j d rest out (check_references ds (needs is_custom d) (some d))
          (check_all is_custom ds rest) h in
      subst (λ o. At (get ((k, d) ∷ rest) j) (get o j)) (sym z)
        (At-head (k == j) d d' (get rest j) (get rest' j) x (check_all-At rest rest' y j))

  At-kept : (o q : Option Definition) → At o q → shape q ≡ shape o
  At-kept o q (inl (x, y)) = ap shape y ∙ ap shape (sym x)
  At-kept o q (inr (d, (e, (x, (y, f))))) = ap shape y ∙ both_equal d e f.same ∙ sym (ap shape x)

  At-reasoned :
      (j : String) (q : Option Definition)
      → At (get ds j) q
      → available_of q ≡ false
      → Broken is_custom ds j
  At-reasoned j q (inl (x, y)) h = unavailable j (ap available_of x)
  At-reasoned j q (inr (d, (e, (x, (y, f))))) h = elim (f.reasoned (ap available_of (sym y) ∙ h)) [
    | inl n ↦ unavailable j (ap available_of x ∙ n)
    | inr (r, (m, n)) ↦
        uses j r (ap (λ o. has (needs_of is_custom (shape o)) r) x ∙ m)
          (unavailable r (shapeless (get ds r) n))
  ]

  At-lowered : (o q : Option Definition) → At o q → available_of q ≡ true → available_of o ≡ true
  At-lowered o q (inl (x, y)) h = absurd (no_true (ap available_of (sym y) ∙ h))
  At-lowered o q (inr (d, (e, (x, (y, f))))) h =
      ap available_of x ∙ f.lowered (ap available_of (sym y) ∙ h)

  At-present :
      (o q : Option Definition) (r : String)
      → At o q
      → available_of q ≡ true
      → has (needs_of is_custom (shape q)) r ≡ true
      → is_some_shape (shape (get ds r)) ≡ true
  At-present o q r (inl (x, y)) h m = absurd (no_true (ap available_of (sym y) ∙ h))
  At-present o q r (inr (d, (e, (x, (y, f))))) h m = f.present (ap available_of (sym y) ∙ h) r (
      ap (λ s. has (references is_custom s) r) (sym f.same.0)
      ∙ ap (λ i. has (needs_of is_custom (shape i)) r) (sym y)
      ∙ m)

  At-shared :
      (o q : Option Definition) (r : String)
      → At o q
      → is_shared_shape (shape q) ≡ true
      → has (needs_of is_custom (shape q)) r ≡ true
      → is_some_shape (shape (get ds r)) ≡ true
      → is_shared_shape (shape (get ds r)) ≡ true
  At-shared o q r (inl (x, y)) h m z =
      absurd (no_true (ap (λ i. is_shared_shape (shape i)) (sym y) ∙ h))
  At-shared o q r (inr (d, (e, (x, (y, f))))) h m z =
      f.shared_only (ap (λ i. is_shared_shape (shape i)) (sym y) ∙ h) r
        (ap (λ s. has (references is_custom s) r) (sym f.same.0)
          ∙ ap (λ i. has (needs_of is_custom (shape i)) r) (sym y)
          ∙ m)
        z

  module _ (out : Dict Definition) (h : check_all is_custom ds ds ≡ some out) where
    pub first-IsMarked : IsMarked is_custom ds out
    first-IsMarked = record {
      kept = λ j. At-kept (get ds j) (get out j) (check_all-At ds out h j);
      reasoned = λ j. At-reasoned j (get out j) (check_all-At ds out h j);
      lowered = λ j. At-lowered (get ds j) (get out j) (check_all-At ds out h j);
    }

    -- A type that is available after the loop uses only types that are there.
    pub first-IsClosed : IsClosed is_custom out
    first-IsClosed k r a m =
        ap is_some_shape (first-IsMarked.kept r)
        ∙ At-present (get ds k) (get out k) r (check_all-At ds out h k) a m

    -- A shared type uses no private one.
    pub first-shared :
        (k r : String)
        → is_shared_shape (shape (get out k)) ≡ true
        → has (needs_at is_custom out k) r ≡ true
        → is_some_shape (shape (get out r)) ≡ true
        → is_shared_shape (shape (get out r)) ≡ true
    first-shared k r a m z =
        let same = first-IsMarked.kept r in
        ap is_shared_shape same
        ∙ At-shared (get ds k) (get out k) r (check_all-At ds out h k) a m
            (ap is_some_shape (sym same) ∙ z)
