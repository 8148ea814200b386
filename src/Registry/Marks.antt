-- ===== src/Registry/Marks.antt =====
-- Types that are not available, and what a mark does to the definitions.
use notmy_fault.Prelude.{
  String, ◌≡◌, ◌∙◌, ◌⊎◌, subst, inl, inr, refl, sym, ap, Option, none, some, Bool, true, false, not,
  List, [], ◌∷◌, ◌==◌, ◌&&◌, arith, eq_iff, Bool-cases,
}
use notmy_fault.Prelude.Dict.{Dict, get, put, get-put}
use notmy_fault.Prelude.Texts.{has, eq_text}
use notmy_fault.Registry.Schema.{Schema, Reason, Definition, references}
use notmy_fault.Registry.Check.{Look, clear, blocked, lost, mark, look_at, look}

abbrev pub available_of : Option Definition → Bool
available_of none = false
available_of (some d) = d.available

abbrev pub is_available : Dict Definition → String → Bool
is_available ds k = available_of (get ds k)

-- What a mark leaves as it is.
abbrev pub shape : Option Definition → Option (Schema × Bool)
shape none = none
shape (some d) = some (d.form, d.shared)

abbrev pub is_some_shape : Option (Schema × Bool) → Bool
is_some_shape none = false
is_some_shape (some x) = true

abbrev pub is_shared_shape : Option (Schema × Bool) → Bool
is_shared_shape none = false
is_shared_shape (some (s, b)) = b

module _ (is_custom : String → Bool) where
  abbrev pub needs_of : Option (Schema × Bool) → List String
  needs_of none = []
  needs_of (some (s, b)) = references is_custom s

  abbrev pub needs_at : Dict Definition → String → List String
  needs_at ds k = needs_of (shape (get ds k))

  -- The types that an available type uses are there.
  abbrev pub IsClosed : Dict Definition → Type 0
  IsClosed b =
      (k r : String)
      → is_available b k ≡ true
      → has (needs_at b k) r ≡ true
      → is_some_shape (shape (get b r)) ≡ true

  -- A type that is available uses only available ones.
  abbrev pub IsStable : Dict Definition → String → Type 0
  IsStable b k =
      (r : String) → is_available b k ≡ true → has (needs_at b k) r ≡ true → is_available b r ≡ true

  -- A type that is missing or not available, or that uses such a type.
  pub data Broken (ds : Dict Definition) : String → Type 0 where
    unavailable : (k : String) → is_available ds k ≡ false → Broken ds k
    uses : (k r : String) → has (needs_at ds k) r ≡ true → Broken ds r → Broken ds k

  -- `b` comes from `a` by marks, each on a type that is broken.
  pub record IsMarked (a b : Dict Definition) : Type 0 where
    pub kept : (k : String) → shape (get b k) ≡ shape (get a k)
    pub reasoned : (k : String) → is_available b k ≡ false → Broken a k
    pub lowered : (k : String) → is_available b k ≡ true → is_available a k ≡ true

here : (s r : String) (rs : List String) → s ≡ r → has (s ∷ rs) r ≡ true
unfolding has
here s r rs e = ground (arith, eq_iff s r)

there : (s r : String) (rs : List String) → has rs r ≡ true → has (s ∷ rs) r ≡ true
unfolding has
there s r rs h = ground arith

pub shape-mark :
    (b : Dict Definition) (k j : String) (d : Definition) (e : Reason)
    → get b k ≡ some d
    → shape (get (put b k (mark d e)) j) ≡ shape (get b j)
unfolding mark
shape-mark b k j d e h = elim (Bool-cases (k == j)) [
  | inl x ↦
      rw (get-put b k (mark d e) j, x)
        (sym (ap shape h) ∙ ap (λ i. shape (get b i)) (eq_text k j x))
  | inr x ↦ rw (get-put b k (mark d e) j, x) refl
]

pub available-mark :
    (b : Dict Definition) (k j : String) (d : Definition) (e : Reason)
    → is_available (put b k (mark d e)) j ≡ (not (k == j) && is_available b j)
unfolding mark
available-mark b k j d e = elim (Bool-cases (k == j)) [
  | inl x ↦ rw (get-put b k (mark d e) j, x) refl
  | inr x ↦ rw (get-put b k (mark d e) j, x) refl
]

look_at-blocked :
    (o : Option Definition) (s : String) (rest : Look) (r : String)
    → look_at o s rest ≡ blocked r
    → ((s ≡ r) × (available_of o ≡ false)) ⊎ (rest ≡ blocked r)
unfolding look_at
look_at-blocked none s rest r h = ground arith
look_at-blocked (some t) s rest r h = ground arith

look_at-lost :
    (o : Option Definition) (s : String) (rest : Look) (r : String)
    → look_at o s rest ≡ lost r
    → ((s ≡ r) × (shape o ≡ none)) ⊎ (rest ≡ lost r)
unfolding look_at
look_at-lost none s rest r h = ground arith
look_at-lost (some t) s rest r h = ground arith

look_at-clear :
    (o : Option Definition) (s : String) (rest : Look)
    → look_at o s rest ≡ clear
    → (available_of o ≡ true) × (rest ≡ clear)
unfolding look_at
look_at-clear none s rest h = ground arith
look_at-clear (some t) s rest h = ground arith

pub look-blocked :
    (ds : Dict Definition) (rs : List String) (r : String)
    → look ds rs ≡ blocked r
    → (has rs r ≡ true) × (is_available ds r ≡ false)
unfolding look has
look-blocked ds [] r h = ground arith
look-blocked ds (s ∷ rs) r h = elim (look_at-blocked (get ds s) s (look ds rs) r h) [
  | inl (e, n) ↦ (here s r rs e, ap (λ i. is_available ds i) (sym e) ∙ n)
  | inr t ↦ let (m, n) = look-blocked ds rs r t in (there s r rs m, n)
]

pub look-lost :
    (ds : Dict Definition) (rs : List String) (r : String)
    → look ds rs ≡ lost r
    → (has rs r ≡ true) × (shape (get ds r) ≡ none)
unfolding look has
look-lost ds [] r h = ground arith
look-lost ds (s ∷ rs) r h = elim (look_at-lost (get ds s) s (look ds rs) r h) [
  | inl (e, n) ↦ (here s r rs e, ap (λ i. shape (get ds i)) (sym e) ∙ n)
  | inr t ↦ let (m, n) = look-lost ds rs r t in (there s r rs m, n)
]

pub look-clear :
    (ds : Dict Definition) (rs : List String) (r : String)
    → look ds rs ≡ clear
    → has rs r ≡ true
    → is_available ds r ≡ true
unfolding look has
look-clear ds [] r h m = ground arith
look-clear ds (s ∷ rs) r h m =
    let x = look_at-clear (get ds s) s (look ds rs) h in
    elim (Bool-cases (s == r)) [
      | inl e ↦ ap (λ i. is_available ds i) (sym (eq_text s r e)) ∙ x.0
      | inr e ↦ look-clear ds rs r x.1 (ground arith)
    ]

module _ (is_custom : String → Bool) where
  pub IsMarked-mark :
      (a b : Dict Definition) (k : String) (d : Definition) (e : Reason)
      → get b k ≡ some d
      → Broken is_custom a k
      → IsMarked is_custom a b
      → IsMarked is_custom a (put b k (mark d e))
  IsMarked-mark a b k d e h broken m = record {
    kept = λ j. shape-mark b k j d e h ∙ m.kept j;
    reasoned = λ j f. elim (Bool-cases (k == j)) [
      | inl x ↦ subst (Broken is_custom a) (eq_text k j x) broken
      | inr x ↦ m.reasoned j (ground (arith, available-mark b k j d e))
    ];
    lowered = λ j t. m.lowered j (ground (arith, available-mark b k j d e));
  }

  -- Where a round finds nothing to change, just the broken types are not available.
  pub Broken-unavailable :
      (a b : Dict Definition)
      → IsMarked is_custom a b
      → ((j : String) → IsStable is_custom b j)
      → (k : String) → Broken is_custom a k
      → is_available b k ≡ false
  Broken-unavailable a b m closed k (unavailable j h) = elim (Bool-cases (is_available b k)) [
    | inl t ↦ t ∙ sym (m.lowered k t) ∙ h
    | inr f ↦ f
  ]
  Broken-unavailable a b m closed k (uses j r n h) = elim (Bool-cases (is_available b k)) [
    | inl t ↦
        t
        ∙ sym (closed k r t (ap (λ o. has (needs_of is_custom o) r) (m.kept k) ∙ n))
        ∙ Broken-unavailable a b m closed r h
    | inr f ↦ f
  ]
