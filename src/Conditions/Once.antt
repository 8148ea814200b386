-- ===== src/Conditions/Once.antt =====
-- A combination of events fires once: it is not found again, and its events are used up when it is
-- handed out.
use notmy_fault.Prelude.{
  ℕ, String, ◌≡◌, refl, none, some, Bool, true, false, not, [], ◌∷◌, ◌||◌, arith, All, Bool-cases,
  inl, inr, eq_iff,
}
use notmy_fault.Prelude.Dict.{Dict, get, remove, get-put, get-remove}
use notmy_fault.Scheduler.Config.{or_else}
use notmy_fault.Conditions.Tree.{Python, Node}
use notmy_fault.Conditions.Evaluate.{Signature, Seen, evaluate}
use notmy_fault.Conditions.Runtime.{
  eq_signature, Runtime, is_fired, record_found, record_match, forget, keep_seen, take_last_match,
}

eq_signature_self : (s : Signature) → eq_signature s s ≡ true
unfolding eq_signature
eq_signature_self [] = refl
eq_signature_self ((k, t) ∷ s) = ground (arith, eq_iff k k, eq_signature_self s)

module _ (P : Python) where
  abbrev pub seen_of : String → Runtime P → Dict (Seen P)
  seen_of rule r = or_else (get r.seen rule) []

  record_found-seen :
      (rule : String) (seen : Dict (Seen P)) (f : Bool × Signature) (r : Runtime P)
      → (record_found P rule seen f r).1.seen ≡ r.seen
  unfolding record_found
  record_found-seen rule seen f r = elim (Bool-cases (not f.0 || is_fired (get r.fired rule) f.1)) [
    | inl h ↦ rw h refl
    | inr h ↦ rw h refl
  ]

  record_found_again :
      (rule : String) (seen : Dict (Seen P)) (f : Bool × Signature) (r : Runtime P)
      → (record_found P rule seen f (record_found P rule seen f r).1).0 ≡ false
  unfolding record_found is_fired
  record_found_again rule seen f r =
      elim (Bool-cases (not f.0 || is_fired (get r.fired rule) f.1)) [
        | inl h ↦ rw (h, h) refl
        | inr h ↦
            ground (arith, get-put r.fired rule f.1 rule, eq_iff rule rule, eq_signature_self f.1)
      ]

  -- While no event comes in, a combination is found at most once: a second look at the same rule
  -- finds nothing new, whatever the first one found.
  pub record_match_once :
      (rule : String) (node : Node P) (r : Runtime P)
      → (record_match P rule node (record_match P rule node r).1).0 ≡ false
  unfolding record_match
  record_match_once rule node r =
      let seen = or_else (get r.seen rule) [] in
      rw (record_found-seen rule seen (evaluate P node seen) r)
        (record_found_again rule seen (evaluate P node seen) r)

  record_found-fired :
      (rule : String) (seen : Dict (Seen P)) (f : Bool × Signature) (r : Runtime P)
      → (record_found P rule seen f r).0 ≡ true
      → get (record_found P rule seen f r).1.fired rule ≡ some f.1
  unfolding record_found
  record_found-fired rule seen f r h =
      elim (Bool-cases (not f.0 || is_fired (get r.fired rule) f.1)) [
        | inl k ↦ ground arith
        | inr k ↦ ground (arith, get-put r.fired rule f.1 rule, eq_iff rule rule)
      ]

  abbrev pub IsGone : Dict (Seen P) → String × ℕ → Type 0
  IsGone seen x = get seen x.0 ≡ none

  forget_keeps :
      (seen : Dict (Seen P)) (sig : Signature) (key : String)
      → get seen key ≡ none
      → get (forget P seen sig) key ≡ none
  unfolding forget
  forget_keeps seen [] key h = h
  forget_keeps seen ((j, t) ∷ sig) key h =
      forget_keeps (remove seen j) sig key (ground (arith, get-remove seen j key, eq_iff j key))

  forget-IsGone : (seen : Dict (Seen P)) (sig : Signature) → All (IsGone (forget P seen sig)) sig
  unfolding forget
  forget-IsGone seen [] = tt
  forget-IsGone seen ((j, t) ∷ sig) = (
    forget_keeps (remove seen j) sig j (ground (arith, get-remove seen j j, eq_iff j j)),
    forget-IsGone (remove seen j) sig,
  )

  keep_seen-get :
      (all : Dict (Dict (Seen P))) (rule : String) (left : Dict (Seen P))
      → or_else (get (keep_seen P all rule left) rule) [] ≡ left
  unfolding keep_seen
  keep_seen-get all rule [] = ground (arith, get-remove all rule rule, eq_iff rule rule)
  keep_seen-get all rule (x ∷ xs) = ground (arith, get-put all rule (x ∷ xs) rule, eq_iff rule rule)

  record_found_used :
      (rule : String) (f : Bool × Signature) (r : Runtime P)
      → (record_found P rule (seen_of rule r) f r).0 ≡ true
      → All
          (IsGone
            (seen_of rule (take_last_match P rule (record_found P rule (seen_of rule r) f r).1).1))
          f.1
  unfolding take_last_match
  record_found_used rule f r h =
      let s = (record_found P rule (or_else (get r.seen rule) []) f r).1 in
      rw (record_found-fired rule (or_else (get r.seen rule) []) f r h) (
        rw (keep_seen-get s.seen rule (forget P (or_else (get s.seen rule) []) f.1))
          (forget-IsGone (or_else (get s.seen rule) []) f.1))

  -- When a combination is found and handed out (`take_last_match`), every event of it is used up: the
  -- rule no longer remembers it.
  pub take_uses_up :
      (rule : String) (node : Node P) (r : Runtime P)
      → (record_match P rule node r).0 ≡ true
      → All
          (IsGone (seen_of rule (take_last_match P rule (record_match P rule node r).1).1))
          (evaluate P node (seen_of rule r)).1
  unfolding record_match
  take_uses_up rule node r h =
      record_found_used rule (evaluate P node (or_else (get r.seen rule) [])) r h
