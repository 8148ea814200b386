-- ===== src/Bus/Masks.antt =====
-- `_mask_event_payload`.
use notmy_fault.Prelude.{
  String, ◌≡◌, ◌⊎◌, inl, inr, refl, none, some, Bool, true, false, List, [], ◌∷◌, ◌==◌, arith,
  eq_iff, Bool-cases, if◌then◌else◌,
}
use notmy_fault.Prelude.Dict.{Dict, get}
use notmy_fault.Prelude.Texts.{has}

module _ {V : Type 0} where
  -- The fields with these names become "***", which is `stars`.
  unfoldable pub mask_fields : V → List String → Dict V → Dict V
  mask_fields stars names [] = []
  mask_fields stars names ((name, v) ∷ payload) =
      let rest = mask_fields stars names payload in
      if has names name then (name, stars) ∷ rest else (name, v) ∷ rest

  -- None of the fields with these names is shown in the clear.
  abbrev pub Hidden : V → List String → Dict V → Type 0
  Hidden stars names payload =
      (name : String)
      → has names name ≡ true
      → (get payload name ≡ none) ⊎ (get payload name ≡ some stars)

  mask_step :
      (b : Bool) (stars v : V) (names : List String) (j : String) (rest : Dict V)
      → has names j ≡ b
      → Hidden stars names rest
      → Hidden stars names (if b then (j, stars) ∷ rest else (j, v) ∷ rest)
  unfolding get
  mask_step true stars v names j rest e h name n = elim (Bool-cases (j == name)) [
    | inl d ↦ inr (rw d refl)
    | inr d ↦ rw d (h name n)
  ]
  mask_step false stars v names j rest e h name n = elim (Bool-cases (j == name)) [
    | inl d ↦ absurd (ground (arith, eq_iff j name))
    | inr d ↦ rw d (h name n)
  ]

  pub mask_fields-Hidden :
      (stars : V) (names : List String) (payload : Dict V)
      → Hidden stars names (mask_fields stars names payload)
  unfolding mask_fields get
  mask_fields-Hidden stars names [] = λ name n. inl refl
  mask_fields-Hidden stars names ((j, v) ∷ payload) =
      mask_step (has names j) stars v names j (mask_fields stars names payload) refl
        (mask_fields-Hidden stars names payload)

  pub empty-Hidden : (stars : V) (names : List String) → Hidden stars names []
  unfolding get
  empty-Hidden stars names name n = inl refl
