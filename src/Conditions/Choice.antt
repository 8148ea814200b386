-- ===== src/Conditions/Choice.antt =====
-- The child that an "any" node takes.
use notmy_fault.Prelude.{
  ◌≤◌, Option-cases, leb, ℕ, ◌≡◌, ◌⊎◌, refl, sym, subst, Option, none, some, Bool, true, false,
  List, [], ◌∷◌, ◌==◌, arith, All, Bool-cases, inl, inr, if◌then◌else◌,
}
use notmy_fault.Prelude.Dict.{Dict}
use notmy_fault.Conditions.Tree.{Python, Group, Node, group, Nodes, no_more, more, condition_op}
use notmy_fault.Conditions.Window.{All-weaken, latest_time_lem, has_times}
use notmy_fault.Conditions.Evaluate.{
  Signature, latest_time, is_later, matches, latest, any_of, Seen, combine, evaluate, evaluate_all,
}

not_later : (a b c : Option ℕ) → is_later a b ≡ false → is_later b c ≡ false → is_later a c ≡ false
unfolding is_later
not_later none b c h k = refl
not_later (some t) none c h k = ground (arith, h)
not_later (some t) (some u) none h k = ground (arith, k)
not_later (some t) (some u) (some v) h k = ground arith

not_later_self : (a : Option ℕ) → is_later a a ≡ false
unfolding is_later
not_later_self none = refl
not_later_self (some t) = ground arith

later_asym : (a b : Option ℕ) → is_later a b ≡ true → is_later b a ≡ false
unfolding is_later
later_asym none b h = ground (arith, h)
later_asym (some t) none h = refl
later_asym (some t) (some u) h = ground arith

latest-next :
    (best x : Signature) (xs : List Signature) (b : Bool)
    → is_later (latest_time x) (latest_time best) ≡ b
    → latest best (x ∷ xs) ≡ latest (if b then x else best) xs
unfolding latest
latest-next best x xs b h = rw h refl

-- Nothing in the list is later than `s`, nor is `best`.
abbrev AllBefore : Signature → List Signature → Signature → Type 0
AllBefore best xs s =
    (is_later (latest_time best) (latest_time s) ≡ false)
    × All (λ t. is_later (latest_time t) (latest_time s) ≡ false) xs

latest_lem : (best : Signature) (xs : List Signature) → AllBefore best xs (latest best xs)
latest_lem best [] = (unfold latest in not_later_self (latest_time best), tt)
latest_lem best (x ∷ xs) = elim (Bool-cases (is_later (latest_time x) (latest_time best))) [
  | inl h ↦
      let (k, ks) = latest_lem x xs in
      subst (AllBefore best (x ∷ xs)) (sym (latest-next best x xs true h)) (
        not_later (latest_time best) (latest_time x) (latest_time (latest x xs))
            (later_asym (latest_time x) (latest_time best) h) k,
        (k, ks),
      )
  | inr h ↦
      let (k, ks) = latest_lem best xs in
      subst (AllBefore best (x ∷ xs)) (sym (latest-next best x xs false h))
        (k, (not_later (latest_time x) (latest_time best) (latest_time (latest best xs)) h k, ks))
]

-- One of the events is at that time or later.
abbrev pub IsAsLate : ℕ → Signature → Type 0
IsAsLate u [] = ⊥
IsAsLate u (x ∷ xs) = (u ≤ x.1) ⊎ IsAsLate u xs

latest_time-IsAsLate : (s : Signature) (m u : ℕ) → latest_time s ≡ some m → u ≤ m → IsAsLate u s
unfolding latest_time
latest_time-IsAsLate [] m u h k = ground arith
latest_time-IsAsLate (x ∷ xs) m u h k = elim (Option-cases (latest_time xs)) [
  | inl n ↦ inl (ground arith)
  | inr (v, n) ↦ elim (Bool-cases (leb u x.1)) [
    | inl b ↦ inl (ground arith)
    | inr b ↦ inr (latest_time-IsAsLate xs v u n (ground arith))
  ]
]

-- A signature with a last event at `t` is no later than one whose last event is at `t` or later.
not_later-IsAsLate :
    (t s : Signature) (v : ℕ)
    → latest_time t ≡ some v
    → is_later (latest_time t) (latest_time s) ≡ false
    → All (λ y. IsAsLate y.1 s) t
unfolding is_later
not_later-IsAsLate t s v e h = elim (Option-cases (latest_time s)) [
  | inl n ↦ ground arith
  | inr (m, n) ↦
      let k : v ≤ m = ground (arith, e, n, h) in
      All-weaken t (λ y a. latest_time-IsAsLate s m y.1 n (omega arith))
        (latest_time_lem t v v e (omega arith))
]

-- Where the child is fulfilled, each of its events has one in the signature that is no earlier.
abbrev pub IsBest : Signature → Bool × Signature → Type 0
IsBest s x = x.0 ≡ true → All (λ y. IsAsLate y.1 s) x.1

best_of_no_later :
    (t s : Signature)
    → is_later (latest_time t) (latest_time s) ≡ false
    → All (λ y. IsAsLate y.1 s) t
best_of_no_later [] s h = tt
best_of_no_later (x ∷ xs) s h =
    let (v, u, e, k) = has_times x xs in not_later-IsAsLate (x ∷ xs) s v e h

matches-IsBest :
    (states : List (Bool × Signature)) (s : Signature)
    → All (λ t. is_later (latest_time t) (latest_time s) ≡ false) (matches states)
    → All (IsBest s) states
unfolding matches
matches-IsBest [] s h = tt
matches-IsBest ((true, t) ∷ xs) s h = ((λ _. best_of_no_later t s h.0), matches-IsBest xs s h.1)
matches-IsBest ((false, t) ∷ xs) s h = ((λ e. ground arith), matches-IsBest xs s h)

any-IsBest : (states : List (Bool × Signature)) → All (IsBest (any_of (matches states)).1) states
any-IsBest states = matches-IsBest states (any_of (matches states)).1 (chosen (matches states))
  where
    chosen :
        (xs : List Signature)
        → All (λ t. is_later (latest_time t) (latest_time (any_of xs).1) ≡ false) xs
    chosen [] = tt
    chosen (x ∷ xs) = unfold any_of in latest_lem x xs

-- The combination of one of the children that are fulfilled.
abbrev pub IsTaken : Signature → List (Bool × Signature) → Type 0
IsTaken s [] = ⊥
IsTaken s (x ∷ xs) = ((x.0 ≡ true) × (x.1 ≡ s)) ⊎ IsTaken s xs

abbrev IsOne : Signature → List Signature → Type 0
IsOne s [] = ⊥
IsOne s (x ∷ xs) = (x ≡ s) ⊎ IsOne s xs

latest-IsOne : (best : Signature) (xs : List Signature) → IsOne (latest best xs) (best ∷ xs)
latest-IsOne best [] = unfold latest in inl refl
latest-IsOne best (x ∷ xs) = elim (Bool-cases (is_later (latest_time x) (latest_time best))) [
  | inl h ↦
      subst (λ s. IsOne s (best ∷ x ∷ xs)) (sym (latest-next best x xs true h))
        (inr (latest-IsOne x xs))
  | inr h ↦
      subst (λ s. IsOne s (best ∷ x ∷ xs)) (sym (latest-next best x xs false h))
        (elim (latest-IsOne best xs) [ inl k ↦ inl k | inr k ↦ inr (inr k) ])
]

matches-IsTaken :
    (states : List (Bool × Signature)) (s : Signature) → IsOne s (matches states) → IsTaken s states
unfolding matches
matches-IsTaken [] s h = h
matches-IsTaken ((true, t) ∷ xs) s (inl h) = inl (refl, h)
matches-IsTaken ((true, t) ∷ xs) s (inr h) = inr (matches-IsTaken xs s h)
matches-IsTaken ((false, t) ∷ xs) s h = inr (matches-IsTaken xs s h)

all_hold : (xs : List (Bool × Signature)) → All (λ x. x.0 ≡ true → true ≡ true) xs
all_hold [] = tt
all_hold (x ∷ xs) = ((λ h. refl), all_hold xs)

matches-found :
    (states : List (Bool × Signature))
    → All (λ x. x.0 ≡ true → (any_of (matches states)).0 ≡ true) states
unfolding any_of matches
matches-found [] = tt
matches-found ((true, t) ∷ xs) = ((λ h. refl), all_hold xs)
matches-found ((false, t) ∷ xs) = ((λ h. ground arith), matches-found xs)

-- How an "any" node chooses among its children: it is fulfilled where one of them is, and then with
-- the combination of one that is, which is as late as that of each.
pub record IsChoice (r : Bool × Signature) (states : List (Bool × Signature)) : Type 0 where
  pub best : All (IsBest r.1) states
  pub taken : r.0 ≡ true → IsTaken r.1 states
  pub found : All (λ x. x.0 ≡ true → r.0 ≡ true) states

any_of-IsTaken : (xs : List Signature) → (any_of xs).0 ≡ true → IsOne (any_of xs).1 xs
unfolding any_of
any_of-IsTaken [] h = ground arith
any_of-IsTaken (x ∷ xs) h = latest-IsOne x xs

any_of-IsChoice : (states : List (Bool × Signature)) → IsChoice (any_of (matches states)) states
any_of-IsChoice states = record {
  best = any-IsBest states;
  taken = λ h. matches-IsTaken states _ (any_of-IsTaken (matches states) h);
  found = matches-found states;
}

module _ (P : Python) (seen : Dict (Seen P)) where
  combine_any :
      (g : Group P) (n : Node P) (ns : Nodes P) (states : List (Bool × Signature))
      → (condition_op P g == "not") ≡ false
      → (condition_op P g == "all") ≡ false
      → any_of (matches states) ≡ combine P g (more n ns) states seen
  unfolding combine
  combine_any g n ns states h k = rw (h, k) refl

  -- An "any" node (each operator but "all" and "not" counts as one) is fulfilled exactly if one of its
  -- children is, and then with the combination of a fulfilled child, than which no other fulfilled
  -- child has a later one: each event of theirs has one in it that is no earlier.
  pub evaluate-IsChoice :
      (g : Group P) (ns : Nodes P)
      → (condition_op P g == "not") ≡ false
      → (condition_op P g == "all") ≡ false
      → IsChoice (evaluate P (group g ns) seen) (evaluate_all P ns seen)
  unfolding evaluate combine
  evaluate-IsChoice g no_more h k = record { best = tt; taken = λ e. ground arith; found = tt }
  evaluate-IsChoice g (more n ns) h k =
      let states = evaluate_all P (more n ns) seen in
      subst (λ r. IsChoice r states) (combine_any g n ns states h k) (any_of-IsChoice states)
