-- ===== src/Registry/Rounds.antt =====
-- The rounds of the while loop of `_check_dependencies`.
use notmy_fault.Prelude.{
  ℕ, ◌+◌, ◌≤◌, ◌<◌, String, ◌≡◌, ◌∙◌, ◌⊎◌, inl, inr, refl, sym, ap, subst, Option, none, some, Bool,
  true, false, not, List, [], ◌∷◌, length, ◌==◌, arith, Bool-cases, if◌then◌else◌, no_true,
  both_hold,
}
use notmy_fault.Prelude.Dict.{Dict, get, put}
use notmy_fault.Prelude.Texts.{has, eq_text}
use notmy_fault.Registry.Schema.{Reason, depends_on, Definition}
use notmy_fault.Registry.Check.{
  Look, clear, blocked, lost, mark, look, apply_look, needs, visit_if, visit_found, visit,
  or_changed, sweep,
}
use notmy_fault.Registry.Marks.{
  available_of, is_available, shape, is_some_shape, needs_of, uses, IsMarked, IsClosed, IsStable,
  shape-mark, available-mark, look-blocked, look-lost, look-clear, IsMarked-mark,
}

-- How many definitions are available.
abbrev pub count : Dict Definition → ℕ
count [] = 0
count ((k, d) ∷ ds) = (if d.available then 1 else 0) + count ds

pub count-length : (ds : Dict Definition) → count ds ≤ length ds
count-length [] = omega arith
count-length ((k, d) ∷ ds) = ground (arith, count-length ds)

find_head :
    (b : Bool) (c d : Definition) (o : Option Definition)
    → (if b then some c else o) ≡ some d
    → b ≡ true
    → c.available ≡ d.available
find_head true c d o h x = ap available_of h
find_head false c d o h x = ground arith

find_rest :
    (b : Bool) (c d : Definition) (o : Option Definition)
    → (if b then some c else o) ≡ some d
    → b ≡ false
    → o ≡ some d
find_rest b c d o h x = ground arith

count-mark :
    (ds : Dict Definition) (k : String) (d : Definition) (e : Reason)
    → get ds k ≡ some d
    → d.available ≡ true
    → count (put ds k (mark d e)) < count ds
unfolding get put mark
count-mark [] k d e h a = ground arith
count-mark ((j, c) ∷ ds) k d e h a = elim (Bool-cases (j == k)) [
  | inl x ↦ let same = find_head (j == k) c d (get ds k) h x ∙ a in rw (x, same) (omega arith)
  | inr x ↦
      let rest = count-mark ds k d e (find_rest (j == k) c d (get ds k) h x) a in
      rw x (omega (arith, rest))
]

module _ (is_custom : String → Bool) where
  -- The definitions on the way, and what a visit and a round do to them.
  pub record IsGood (a b : Dict Definition) : Type 0 where
    pub marked : IsMarked is_custom a b
    pub closed : IsClosed is_custom b

  IsGood-mark :
      (a b : Dict Definition) (k r : String) (d : Definition)
      → get b k ≡ some d
      → d.available ≡ true
      → look b (needs is_custom d) ≡ blocked r
      → IsGood a b
      → IsGood a (put b k (mark d (depends_on r)))
  IsGood-mark a b k r d h t x g = record {
    marked =
        let found = look-blocked b (needs is_custom d) r x in
        let needed =
          ap (λ o. has (needs_of is_custom o) r) (sym (g.marked.kept k))
          ∙ ap (λ o. has (needs_of is_custom (shape o)) r) h
          ∙ found.0 in
        IsMarked-mark is_custom a b k d (depends_on r) h
          (uses k r needed (g.marked.reasoned r found.1)) g.marked;
    closed = λ j i u m.
        let marked = put b k (mark d (depends_on r)) in
        let need =
          ap (λ o. has (needs_of is_custom o) i) (sym (shape-mark b k j d (depends_on r) h)) ∙ m in
        ap is_some_shape (shape-mark b k i d (depends_on r) h)
        ∙ g.closed j i
            (both_hold (not (k == j)) (is_available b j)
              (sym (available-mark b k j d (depends_on r)) ∙ u)).1
            need;
  }

  data Visited (a b : Dict Definition) (k : String) : Option (Dict Definition × Bool) → Type 0 where
    left : IsStable is_custom b k → Visited a b k (some (b, false))
    lowers :
        (b' : Dict Definition) → IsGood a b' → count b' < count b → Visited a b k (some (b', true))

  look-Visited :
      (a b : Dict Definition) (k : String) (d : Definition) (l : Look)
      → get b k ≡ some d
      → d.available ≡ true
      → look b (needs is_custom d) ≡ l
      → IsGood a b
      → Visited a b k (apply_look b k d l)
  unfolding apply_look
  look-Visited a b k d clear h t x g = left (λ r u m.
      look-clear b (needs is_custom d) r x
        (ap (λ o. has (needs_of is_custom (shape o)) r) (sym h) ∙ m))
  look-Visited a b k d (blocked r) h t x g =
      lowers (put b k (mark d (depends_on r))) (IsGood-mark a b k r d h t x g)
        (count-mark b k d (depends_on r) h t)
  look-Visited a b k d (lost r) h t x g =
      let gone = look-lost b (needs is_custom d) r x in
      let need = ap (λ o. has (needs_of is_custom (shape o)) r) h ∙ gone.0 in
      absurd (no_true (ap is_some_shape (sym gone.1) ∙ g.closed k r (ap available_of h ∙ t) need))

  if-Visited :
      (a b : Dict Definition) (k : String) (d : Definition) (t : Bool)
      → get b k ≡ some d
      → d.available ≡ t
      → IsGood a b
      → Visited a b k (visit_if t b k d (look b (needs is_custom d)))
  unfolding visit_if
  if-Visited a b k d true h t g = look-Visited a b k d (look b (needs is_custom d)) h t refl g
  if-Visited a b k d false h t g =
      left (λ r u m. absurd (no_true (sym (ap available_of h ∙ t) ∙ u)))

  found-Visited :
      (a b : Dict Definition) (k : String) (o : Option Definition)
      → get b k ≡ o
      → IsGood a b
      → Visited a b k (visit_found is_custom b k o)
  unfolding visit_found
  found-Visited a b k none h g = left (λ r u m. absurd (no_true (ap available_of (sym h) ∙ u)))
  found-Visited a b k (some d) h g = if-Visited a b k d d.available h refl g

  -- What the rest of a round gives, from `b` and what it found so far.
  pub data Swept (a b : Dict Definition) (ks : List String)
      : Bool → Option (Dict Definition × Bool) → Type 0 where
    still :
        ((k : String) → has ks k ≡ true → IsStable is_custom b k)
        → Swept a b ks false (some (b, false))
    changes :
        (c : Bool) (b' : Dict Definition)
        → IsGood a b'
        → count b' ≤ count b
        → (c ≡ true) ⊎ (count b' < count b)
        → Swept a b ks c (some (b', true))

  -- Either nothing was found so far and the visit leaves all, or a change is known.
  after_left :
      (a b : Dict Definition) (k : String) (ks : List String) (c : Bool)
      (o : Option (Dict Definition × Bool))
      → IsStable is_custom b k
      → Swept a b ks c o
      → Swept a b (k ∷ ks) c o
  unfolding has
  after_left a b k ks false _ h (still f) = still (λ j m. elim (Bool-cases (k == j)) [
    | inl x ↦ subst (IsStable is_custom b) (eq_text k j x) h
    | inr x ↦ f j (ground arith)
  ])
  after_left a b k ks c _ h (changes _ b' g l r) = changes c b' g l r

  after_lowered :
      (a b b' : Dict Definition) (k : String) (ks : List String) (c : Bool)
      (o : Option (Dict Definition × Bool))
      → count b' < count b
      → Swept a b' ks true o
      → Swept a b (k ∷ ks) c o
  after_lowered a b b' k ks c _ h (changes true b'' g l r) =
      changes c b'' g (omega (arith, h, l)) (inr (omega (arith, h, l)))

  step-Swept :
      (a b : Dict Definition) (k : String) (ks : List String) (c : Bool)
      (v : Option (Dict Definition × Bool))
      → Visited a b k v
      → IsGood a b
      → ((b' : Dict Definition) (c' : Bool)
          → IsGood a b'
          → Swept a b' ks c' (sweep is_custom ks (some (b', c'))))
      → Swept a b (k ∷ ks) c (sweep is_custom ks (or_changed c v))
  unfolding or_changed
  step-Swept a b k ks true _ (left h) g next =
      after_left a b k ks true (sweep is_custom ks (some (b, true))) h (next b true g)
  step-Swept a b k ks false _ (left h) g next =
      after_left a b k ks false (sweep is_custom ks (some (b, false))) h (next b false g)
  step-Swept a b k ks true _ (lowers b' g' h) g next =
      after_lowered a b b' k ks true (sweep is_custom ks (some (b', true))) h (next b' true g')
  step-Swept a b k ks false _ (lowers b' g' h) g next =
      after_lowered a b b' k ks false (sweep is_custom ks (some (b', true))) h (next b' true g')

  pub sweep-Swept :
      (a b : Dict Definition) (ks : List String) (c : Bool)
      → IsGood a b
      → Swept a b ks c (sweep is_custom ks (some (b, c)))
  unfolding sweep has visit
  sweep-Swept a b [] true g = changes true b g (omega arith) (inl refl)
  sweep-Swept a b [] false g = still (λ k h r. absurd (no_true h))
  sweep-Swept a b (k ∷ ks) c g =
      step-Swept a b k ks c (visit is_custom b k) (found-Visited a b k (get b k) refl g) g
        (λ b' c' g'. sweep-Swept a b' ks c' g')
