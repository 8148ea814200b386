-- ===== src/Diagnostics/Newest.antt =====
-- A list that keeps its newest entries.
use notmy_fault.Prelude.{
  ℕ, zero, suc, ◌+◌, ◌-◌, ◌≤◌, ◌≡◌, ◌∙◌, refl, sym, ap, inl, inr, List, [], ◌∷◌, ◌++◌, length,
  length-append, ltb, arith, Bool-cases, leb, if◌then◌else◌, subst,
}
use notmy_fault.Diagnostics.State.{drop, trim, record_in}

module _ {ℓ} {A : Type ℓ} where
  -- The longest end of the list with at most `limit` entries: its newest ones.
  unfoldable pub newest_of : ℕ → List A → List A
  newest_of limit [] = []
  newest_of limit (x ∷ xs) =
      let rest = newest_of limit xs in if leb (length xs + 1) limit then x ∷ xs else rest

  drop-append : (n : ℕ) (xs ys : List A) → n ≤ length xs → drop n xs ++ ys ≡ drop n (xs ++ ys)
  unfolding drop
  drop-append zero xs ys h = refl
  drop-append (suc n) [] ys h = ground arith
  drop-append (suc n) (x ∷ xs) ys h = drop-append n xs ys (omega (arith, h))

  drop-nil : (n : ℕ) → drop {A = A} n [] ≡ []
  unfolding drop
  drop-nil zero = refl
  drop-nil (suc n) = refl

  drop-drop : (m n : ℕ) (xs : List A) → drop m (drop n xs) ≡ drop (n + m) xs
  unfolding drop
  drop-drop m zero xs = let e : m ≡ 0 + m = omega arith in ap (λ k. drop k xs) e
  drop-drop m (suc n) [] = drop-nil m ∙ sym (drop-nil (suc n + m))
  drop-drop m (suc n) (x ∷ xs) =
      let e : suc (n + m) ≡ suc n + m = omega arith in
      drop-drop m n xs ∙ ap (λ k. drop k (x ∷ xs)) e

  length-drop : (n : ℕ) (xs : List A) → length (drop n xs) ≡ length xs - n
  unfolding drop
  length-drop zero xs = omega arith
  length-drop (suc n) [] = omega arith
  length-drop (suc n) (x ∷ xs) = omega (arith, length-drop n xs)

  trim-drop : (n : ℕ) (xs : List A) → trim n xs ≡ drop (length xs - n) xs
  unfolding trim drop
  trim-drop n xs = elim (Bool-cases (ltb n (length xs))) [
    | inl h ↦ rw h refl
    | inr h ↦ rw h (let e : 0 ≡ length xs - n = ground arith in ap (λ k. drop k xs) e)
  ]

  length-trim : (n : ℕ) (xs : List A) → length (trim n xs) ≤ n
  length-trim n xs = rw (trim-drop n xs) (omega (arith, length-drop (length xs - n) xs))

  -- What is dropped early would be dropped later.
  record_in-trim : (n : ℕ) (xs : List A) (x : A) → record_in n (trim n xs) x ≡ trim n (xs ++ x ∷ [])
  unfolding record_in
  record_in-trim n xs x =
      let early = trim-drop n xs in
      let k = length xs - n in
      ap (λ l. trim n (l ++ x ∷ [])) early
      ∙ ap (λ l. trim n l) (drop-append k xs (x ∷ []) (omega arith))
      ∙ trim-drop n (drop k (xs ++ x ∷ []))
      ∙ drop-drop (length (drop k (xs ++ x ∷ [])) - n) k (xs ++ x ∷ [])
      ∙ ap (λ i. drop i (xs ++ x ∷ []))
          (omega (arith, length-drop k (xs ++ x ∷ []), length-append xs (x ∷ [])))
      ∙ sym (trim-drop n (xs ++ x ∷ []))

  drop-newest_of : (n : ℕ) (xs : List A) → drop (length xs - n) xs ≡ newest_of n xs
  unfolding drop newest_of
  drop-newest_of n [] = drop-nil (0 - n)
  drop-newest_of n (x ∷ xs) = elim (Bool-cases (leb (length xs + 1) n)) [
    | inl h ↦ let e : length (x ∷ xs) - n ≡ 0 = ground arith in rw h (ap (λ k. drop k (x ∷ xs)) e)
    | inr h ↦
        let e : length (x ∷ xs) - n ≡ suc (length xs - n) = ground arith in
        rw h (ap (λ k. drop k (x ∷ xs)) e ∙ drop-newest_of n xs)
  ]

  pub trim-newest_of : (n : ℕ) (xs : List A) → trim n xs ≡ newest_of n xs
  trim-newest_of n xs = trim-drop n xs ∙ drop-newest_of n xs

  -- A new entry at the end of the newest ones.
  pub record_in-newest_of :
      (n : ℕ) (xs : List A) (x : A) → record_in n (newest_of n xs) x ≡ newest_of n (xs ++ x ∷ [])
  record_in-newest_of n xs x =
      ap (λ l. record_in n l x) (sym (trim-newest_of n xs))
      ∙ record_in-trim n xs x
      ∙ trim-newest_of n (xs ++ x ∷ [])

  pub length-newest_of : (n : ℕ) (xs : List A) → length (newest_of n xs) ≤ n
  length-newest_of n xs = subst (λ l. length l ≤ n) (trim-newest_of n xs) (length-trim n xs)
