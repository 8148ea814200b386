-- ===== src/Conditions/Backed.antt =====
-- What the signature of a fulfilled condition says of the events that were seen.
use notmy_fault.Prelude.{
  ℕ, String, ◌≡◌, refl, Option, none, some, Bool, true, false, List, [], ◌∷◌, ◌==◌, ◌&&◌, All,
  All-append, Option-cases, Bool-cases, inl, inr,
}
use notmy_fault.Prelude.Dict.{Dict, get}
use notmy_fault.Conditions.Tree.{
  Python, Window, Group, Node, leaf, group, Nodes, no_more, more, condition_op, event_key, not_key,
  event_of,
}
use notmy_fault.Conditions.Evaluate.{
  Signature, latest_time, is_later, in_window, all_ok, signatures, matches, latest, any_of, Seen,
  of_entry, all_of, combine, evaluate, evaluate_all,
}

-- sorted(...) adds no item: what holds of all items of the list holds of those of the result.
abbrev pub IsSort : (List (String × ℕ) → List (String × ℕ)) → Type 1
IsSort sort = (Q : String × ℕ → Type 0) (xs : List (String × ℕ)) → All Q xs → All Q (sort xs)

module _ (P : Python) where
  open P use {sort}

  abbrev pub time_of : Option (Seen P) → Option ℕ
  time_of none = none
  time_of (some e) = some e.timestamp

  -- The event of the item's key was seen, at the item's time.
  abbrev pub IsSeen : Dict (Seen P) → String × ℕ → Type 0
  IsSeen seen x = time_of (get seen x.0) ≡ some x.1

  of_entry_seen :
      (seen : Dict (Seen P)) (key : String) → All (IsSeen seen) (of_entry P key (get seen key)).1
  unfolding of_entry
  of_entry_seen seen key = elim (Option-cases (get seen key)) [
    | inl h ↦ rw h tt
    | inr (e, h) ↦ rw h (rw h refl, tt)
  ]

  module _ (seen : Dict (Seen P)) where
    AllSeen : List (Bool × Signature) → Type 0
    AllSeen states = All (λ x. All (IsSeen seen) x.1) states

    signatures_seen :
        (states : List (Bool × Signature)) → AllSeen states → All (IsSeen seen) (signatures states)
    unfolding signatures AllSeen
    signatures_seen [] h = tt
    signatures_seen (x ∷ xs) h =
        All-append (IsSeen seen) x.1 (signatures xs) h.0 (signatures_seen xs h.1)

    matches_seen :
        (states : List (Bool × Signature))
        → AllSeen states
        → All (λ s. All (IsSeen seen) s) (matches states)
    unfolding matches AllSeen
    matches_seen [] h = tt
    matches_seen ((true, s) ∷ xs) h = (h.0, matches_seen xs h.1)
    matches_seen ((false, s) ∷ xs) h = matches_seen xs h.1

    latest_seen :
        (best : Signature) (xs : List Signature)
        → All (IsSeen seen) best
        → All (λ s. All (IsSeen seen) s) xs
        → All (IsSeen seen) (latest best xs)
    unfolding latest
    latest_seen best [] b h = b
    latest_seen best (x ∷ xs) b h =
        elim (Bool-cases (is_later (latest_time x) (latest_time best))) [
          | inl k ↦ rw k (latest_seen x xs h.0 h.1)
          | inr k ↦ rw k (latest_seen best xs b h.1)
        ]

    any_of_seen :
        (xs : List Signature) → All (λ s. All (IsSeen seen) s) xs → All (IsSeen seen) (any_of xs).1
    unfolding any_of
    any_of_seen [] h = tt
    any_of_seen (x ∷ xs) h = latest_seen x xs h.0 h.1

    all_of_seen :
        IsSort sort
        → (w : Window) (states : List (Bool × Signature)) → AllSeen states
        → All (IsSeen seen) (all_of P w states).1
    unfolding all_of
    all_of_seen k w states h =
        elim (Bool-cases (all_ok states && in_window w (signatures states))) [
          | inl c ↦ rw c (k (IsSeen seen) (signatures states) (signatures_seen states h))
          | inr c ↦ rw c tt
        ]

    combine_seen :
        IsSort sort
        → (g : Group P) (ns : Nodes P) (states : List (Bool × Signature)) → AllSeen states
        → All (IsSeen seen) (combine P g ns states seen).1
    unfolding combine
    combine_seen k g no_more states h = tt
    combine_seen k g (more n ns) states h = elim (Bool-cases (condition_op P g == "not")) [
      | inl c ↦ rw c (of_entry_seen seen (not_key P (event_of P n)))
      | inr c ↦ rw c (elim (Bool-cases (condition_op P g == "all")) [
        | inl d ↦ rw d (all_of_seen k g.within_seconds states h)
        | inr d ↦ rw d (any_of_seen (matches states) (matches_seen states h))
      ])
    ]

    mutual
      unfolding evaluate AllSeen

      pub evaluate_seen : IsSort sort → (n : Node P) → All (IsSeen seen) (evaluate P n seen).1
      evaluate_seen k (leaf e) = of_entry_seen seen (event_key P e)
      evaluate_seen k (group g ns) =
          combine_seen k g ns (evaluate_all P ns seen) (evaluate_all_seen k ns)

      evaluate_all_seen : IsSort sort → (ns : Nodes P) → AllSeen (evaluate_all P ns seen)
      evaluate_all_seen k no_more = tt
      evaluate_all_seen k (more n ns) = (evaluate_seen k n, evaluate_all_seen k ns)

  -- Every item of the combination that `_evaluate` finds stands for an event that the rule has seen:
  -- its key is remembered, with the item's time.
  pub evaluate-IsSeen :
      IsSort sort → (seen : Dict (Seen P)) (n : Node P) → All (IsSeen seen) (evaluate P n seen).1
  evaluate-IsSeen k seen n = evaluate_seen seen k n
