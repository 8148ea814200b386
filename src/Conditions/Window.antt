-- ===== src/Conditions/Window.antt =====
-- The time window of an "all" node.
use Prim.Native.Nat.{min}
use notmy_fault.Prelude.{
  ℕ, ◌+◌, ◌≤◌, String, ◌≡◌, refl, none, some, Bool, true, List, [], ◌∷◌, ◌&&◌, arith, max, All,
  Option-cases, Bool-cases, inl, inr,
}
use notmy_fault.Prelude.Int.{pos}
use notmy_fault.Prelude.Dict.{Dict}
use notmy_fault.Conditions.Tree.{Python, seconds, Group, group, Nodes, no_more, more, condition_op}
use notmy_fault.Conditions.Evaluate.{
  Signature, latest_time, earliest_time, in_window, all_ok, signatures, Seen, all_of, combine,
  evaluate, evaluate_all,
}
use notmy_fault.Conditions.Backed.{IsSort}

-- Any two items are at most `limit` apart.
abbrev pub IsClose : ℕ → Signature → Type 0
IsClose limit sig = All (λ x. All (λ y. x.1 ≤ y.1 + limit) sig) sig

pub All-weaken :
    {P Q : String × ℕ → Type 0} (xs : Signature)
    → ((x : String × ℕ) → P x → Q x)
    → All P xs
    → All Q xs
All-weaken [] f h = tt
All-weaken (x ∷ xs) f h = (f x h.0, All-weaken xs f h.1)

no_latest : (xs : Signature) (u : ℕ) → latest_time xs ≡ none → All (λ x. x.1 ≤ u) xs
unfolding latest_time
no_latest [] u h = tt
no_latest (x ∷ xs) u h = elim (Option-cases (latest_time xs)) [
  | inl n ↦ ground arith
  | inr (v, n) ↦ ground arith
]

pub latest_time_lem :
    (sig : Signature) (t u : ℕ) → latest_time sig ≡ some t → t ≤ u → All (λ x. x.1 ≤ u) sig
unfolding latest_time
latest_time_lem [] t u h k = tt
latest_time_lem (x ∷ xs) t u h k = elim (Option-cases (latest_time xs)) [
  | inl n ↦ (ground arith, no_latest xs u n)
  | inr (v, n) ↦ (ground arith, latest_time_lem xs v u n (ground arith))
]

no_earliest : (xs : Signature) (u : ℕ) → earliest_time xs ≡ none → All (λ x. u ≤ x.1) xs
unfolding earliest_time
no_earliest [] u h = tt
no_earliest (x ∷ xs) u h = elim (Option-cases (earliest_time xs)) [
  | inl n ↦ ground arith
  | inr (v, n) ↦ ground arith
]

earliest_time_lem :
    (sig : Signature) (t u : ℕ) → earliest_time sig ≡ some t → u ≤ t → All (λ x. u ≤ x.1) sig
unfolding earliest_time
earliest_time_lem [] t u h k = tt
earliest_time_lem (x ∷ xs) t u h k = elim (Option-cases (earliest_time xs)) [
  | inl n ↦ (ground arith, no_earliest xs u n)
  | inr (v, n) ↦ (ground arith, earliest_time_lem xs v u n (ground arith))
]

pub has_times :
    (x : String × ℕ) (xs : Signature)
    → (t : ℕ) × (u : ℕ) × (latest_time (x ∷ xs) ≡ some t) × (earliest_time (x ∷ xs) ≡ some u)
unfolding latest_time earliest_time
has_times x [] = (x.1, x.1, refl, refl)
has_times x (y ∷ ys) =
    let (t, u, h, k) = has_times y ys in (max x.1 t, min x.1 u, rw h refl, rw k refl)

spread :
    (limit : ℕ) (sig : Signature) (t u : ℕ)
    → latest_time sig ≡ some t
    → earliest_time sig ≡ some u
    → in_window (seconds (pos limit)) sig ≡ true
    → t ≤ u + limit
unfolding in_window
spread limit sig t u h k l = ground (arith, h, k)

in_window-IsClose :
    (limit : ℕ) (sig : Signature) → in_window (seconds (pos limit)) sig ≡ true → IsClose limit sig
in_window-IsClose limit [] h = tt
in_window-IsClose limit (x ∷ xs) h =
    let (t, u, k, l) = has_times x xs in
    let near : t ≤ u + limit = spread limit (x ∷ xs) t u k l h in
    All-weaken (x ∷ xs)
      (λ y m.
        All-weaken (x ∷ xs) (λ z n. omega arith) (earliest_time_lem (x ∷ xs) u u l (omega arith)))
      (latest_time_lem (x ∷ xs) t t k (omega arith))

module _ (P : Python) (seen : Dict (Seen P)) where
  open P use {sort}

  all_of-IsClose :
      IsSort sort
      → (limit : ℕ) (states : List (Bool × Signature))
      → IsClose limit (all_of P (seconds (pos limit)) states).1
  unfolding all_of
  all_of-IsClose k limit states =
      elim (Bool-cases (all_ok states && in_window (seconds (pos limit)) (signatures states))) [
        | inr h ↦ rw h tt
        | inl h ↦
            let sig = signatures states in
            let near = in_window-IsClose limit sig (ground (arith, h)) in
            rw h (
              k (λ x. All (λ y. x.1 ≤ y.1 + limit) (sort sig)) sig
                (All-weaken sig (λ x m. k (λ y. x.1 ≤ y.1 + limit) sig m) near))
      ]

  -- A combination that an "all" node with `within_seconds` finds lies within that time: any two of
  -- its events are at most so far apart.
  pub evaluate-IsClose :
      IsSort sort
      → (g : Group P) (ns : Nodes P) (limit : ℕ) → condition_op P g ≡ "all"
      → g.within_seconds ≡ seconds (pos limit)
      → IsClose limit (evaluate P (group g ns) seen).1
  unfolding evaluate combine
  evaluate-IsClose k g no_more limit h w = tt
  evaluate-IsClose k g (more n ns) limit h w =
      rw (h, w) (all_of-IsClose k limit (evaluate P n seen ∷ evaluate_all P ns seen))
