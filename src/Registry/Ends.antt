-- ===== src/Registry/Ends.antt =====
-- The end of `_check_dependencies`.
use notmy_fault.Prelude.{
  ℕ, zero, suc, ◌<◌, String, ◌≡◌, ◌∙◌, ◌⊎◌, inl, inr, refl, sym, ap, subst, Option, none, some,
  Bool, true, false, [], ◌∷◌, length, arith, Bool-cases, Option-cases, no_true,
}
use notmy_fault.Prelude.Dict.{Dict, get, keys}
use notmy_fault.Prelude.Texts.{has}
use notmy_fault.Registry.Schema.{Definition}
use notmy_fault.Registry.Check.{
  round, checked, private_data, while_changed, loop, rounds, check_all, check_dependencies,
}
use notmy_fault.Registry.Marks.{
  available_of, is_available, shape, is_some_shape, is_shared_shape, needs_of, needs_at, Broken,
  IsStable, Broken-unavailable,
}
use notmy_fault.Registry.First.{first-IsMarked, first-IsClosed, first-shared}
use notmy_fault.Registry.Rounds.{count, count-length, IsGood, Swept, still, changes, sweep-Swept}

keys-get : (ds : Dict Definition) (k : String) → has (keys ds) k ≡ false → get ds k ≡ none
unfolding get has
keys-get [] k h = refl
keys-get ((j, d) ∷ ds) k h = ground (arith, keys-get ds k)

checked_eq : (a b : Dict Definition) → checked a ≡ checked b → a ≡ b
checked_eq a b h = ground arith

not_raised : (out : Dict Definition) → ¬ (private_data ≡ checked out)
not_raised out h = ground arith

module _ (is_custom : String → Bool) where
  -- The definitions in which a round finds nothing to change.
  record IsEnd (a b : Dict Definition) : Type 0 where
    good : IsGood is_custom a b
    stable : (k : String) → IsStable is_custom b k

  known-IsStable :
      (b : Dict Definition)
      → ((k : String) → has (keys b) k ≡ true → IsStable is_custom b k)
      → (k : String) → IsStable is_custom b k
  known-IsStable b f k = elim (Bool-cases (has (keys b) k)) [
    | inl h ↦ f k h
    | inr h ↦ λ r u m. absurd (no_true (ap available_of (sym (keys-get b k h)) ∙ u))
  ]

  while-IsEnd :
      (a b : Dict Definition) (fuel : ℕ) (o : Option (Dict Definition × Bool))
      → Swept is_custom a b (keys b) false o
      → IsGood is_custom a b
      → ((b' : Dict Definition)
          → IsGood is_custom a b'
          → count b' < count b
          → (out : Dict Definition) × ((loop is_custom fuel b' ≡ checked out) × IsEnd a out))
      → (out : Dict Definition) × ((while_changed (λ next. loop is_custom fuel next) o
            ≡ checked out)
          × IsEnd a out)
  unfolding while_changed
  while-IsEnd a b fuel _ (still f) g next =
      (b, (refl, record { good = g; stable = known-IsStable b f }))
  while-IsEnd a b fuel _ (changes _ b' g' l r) g next = next b' g' (ground arith)

  loop-IsEnd :
      (a : Dict Definition) (fuel : ℕ) (b : Dict Definition)
      → IsGood is_custom a b
      → count b < fuel
      → (out : Dict Definition) × ((loop is_custom fuel b ≡ checked out) × IsEnd a out)
  unfolding loop round
  loop-IsEnd a zero b g h = ground arith
  loop-IsEnd a (suc fuel) b g h =
      while-IsEnd a b fuel (round is_custom b) (sweep-Swept is_custom a b (keys b) false g) g
        (λ b' g' l. loop-IsEnd a fuel b' g' (omega (arith, l, h)))

  first-IsGood :
      (ds first : Dict Definition)
      → check_all is_custom ds ds ≡ some first
      → IsGood is_custom ds first
  first-IsGood ds first h = record {
    marked = first-IsMarked is_custom ds first h;
    closed = first-IsClosed is_custom ds first h;
  }

  rounds-IsEnd :
      (ds first : Dict Definition)
      → check_all is_custom ds ds ≡ some first
      → (out : Dict Definition) × ((check_dependencies is_custom ds ≡ checked out) × IsEnd ds out)
  unfolding check_dependencies rounds
  rounds-IsEnd ds first h =
      let (out, (e, x)) =
        loop-IsEnd ds (suc (length first)) first (first-IsGood ds first h)
          (omega (arith, count-length first)) in
      (out, (ap (λ o. rounds is_custom o) h ∙ e, x))

  -- `_check_dependencies` ends: with the checked definitions, or with the error that a shared type uses
  -- a private one. Its while loop stops within one round for each definition and one more, and it
  -- never looks up a type that is missing, which would be a KeyError.
  pub check_dependencies_ends :
      (ds : Dict Definition)
      → ((out : Dict Definition) × (check_dependencies is_custom ds ≡ checked out))
        ⊎ (check_dependencies is_custom ds ≡ private_data)
  unfolding check_dependencies rounds
  check_dependencies_ends ds = elim (Option-cases (check_all is_custom ds ds)) [
    | inl n ↦ inr (ap (λ o. rounds is_custom o) n)
    | inr (first, h) ↦ let (out, (e, x)) = rounds-IsEnd ds first h in inl (out, e)
  ]

  raised_or_IsEnd :
      (ds out : Dict Definition)
      → check_dependencies is_custom ds ≡ checked out
      → (first : Dict Definition) × ((check_all is_custom ds ds ≡ some first) × IsEnd ds out)
  unfolding check_dependencies rounds
  raised_or_IsEnd ds out h = elim (Option-cases (check_all is_custom ds ds)) [
    | inl n ↦ absurd (not_raised out (ap (λ o. rounds is_custom o) (sym n) ∙ h))
    | inr (first, f) ↦
        let (out', (e, x)) = rounds-IsEnd ds first f in
        (first, (f, subst (IsEnd ds) (checked_eq out' out (sym e ∙ h)) x))
  ]

  -- After `_check_dependencies` a type is not available just where it was not available to begin with,
  -- is missing, or uses such a type, directly or through other types.
  pub check_dependencies-Broken :
      (ds out : Dict Definition)
      → check_dependencies is_custom ds ≡ checked out
      → (k : String)
      → (Broken is_custom ds k → is_available out k ≡ false)
        × (is_available out k ≡ false → Broken is_custom ds k)
  check_dependencies-Broken ds out h k =
      let x = (raised_or_IsEnd ds out h).1.1 in
      (Broken-unavailable is_custom ds out (x.good).marked x.stable k, (x.good).marked.reasoned k)

  -- A type that is available and shared after `_check_dependencies` uses only such types.
  pub uses_shared :
      (ds out : Dict Definition)
      → check_dependencies is_custom ds ≡ checked out
      → (k r : String) → is_available out k ≡ true
      → is_shared_shape (shape (get out k)) ≡ true
      → has (needs_at is_custom out k) r ≡ true
      → (is_available out r ≡ true) × (is_shared_shape (shape (get out r)) ≡ true)
  uses_shared ds out h k r a s m =
      let (first, (f, x)) = raised_or_IsEnd ds out h in
      let same = λ (j : String).
        (x.good).marked.kept j ∙ sym ((first-IsMarked is_custom ds first f).kept j) in
      (
        x.stable k r a m,
        ap is_shared_shape (same r)
            ∙ first-shared is_custom ds first f k r (ap is_shared_shape (sym (same k)) ∙ s)
                (ap (λ o. has (needs_of is_custom o) r) (sym (same k)) ∙ m)
                (ap is_some_shape (sym (same r)) ∙ (x.good).closed k r a m),
      )
