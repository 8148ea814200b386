-- ===== src/Scheduler/Members.antt =====
-- Reads of a dict of lists after the writes that the scheduler makes.
use notmy_fault.Prelude.{
  ◌≤◌, String, ◌≡◌, refl, ap, Option, none, some, Bool, true, false, List, [], ◌==◌, arith,
  if◌then◌else◌, inl, inr, Option-cases, length, eq_iff,
}
use notmy_fault.Prelude.Dict.{Dict, get, put, remove, get-put, get-remove}
use notmy_fault.Prelude.Texts.{discard, length-discard-le}
use notmy_fault.Scheduler.Config.{or_else}
use notmy_fault.Scheduler.State.{members, discard_in}
use notmy_fault.Scheduler.Submit.{set_default}

module _ {ℓ} {A : Type ℓ} where
  members-if :
      (b : Bool) (v : List A) (o : Option (List A))
      → or_else (if b then some v else o) [] ≡ (if b then v else or_else o [])
  members-if true v o = refl
  members-if false v o = refl

  members-if_none :
      (b : Bool) (o : Option (List A))
      → or_else (if b then none else o) [] ≡ (if b then [] else or_else o [])
  members-if_none true o = refl
  members-if_none false o = refl

  pub members-put :
      (d : Dict (List A)) (k : String) (v : List A) (j : String)
      → members (put d k v) j ≡ (if k == j then v else members d j)
  members-put d k v j = rw get-put (members-if (k == j) v (get d j))

  pub members-remove :
      (d : Dict (List A)) (k j : String)
      → members (remove d k) j ≡ (if k == j then [] else members d j)
  members-remove d k j = rw get-remove (members-if_none (k == j) (get d j))

  pub members-none : (d : Dict (List A)) (k : String) → get d k ≡ none → members d k ≡ []
  members-none d k h = ap (λ (o : Option (List A)). or_else o []) h

  pub members-some :
      (d : Dict (List A)) (k : String) (v : List A) → get d k ≡ some v → members d k ≡ v
  members-some d k v h = ap (λ (o : Option (List A)). or_else o []) h

  pub members-set_default :
      (d : Dict (List A)) (k j : String) → members (set_default d k) j ≡ members d j
  members-set_default d k j = elim (Option-cases (get d k)) [
    | inr (v, found) ↦ rw (found, set_default)
    | inl new ↦
        rw (new, set_default)
          (ground (arith, members-put d k [] j, members-none d k new, eq_iff k j))
  ]

pub members-discard_in :
    (d : Dict (List String)) (k x j : String)
    → members (discard_in d k x) j ≡ (if k == j then discard (members d j) x else members d j)
unfolding discard_in discard
members-discard_in d k x j = elim (Option-cases (get d k)) [
  | inl new ↦ rw (new, discard_in) (ground (arith, members-none d k new, eq_iff k j))
  | inr (v, found) ↦
      rw (found, discard_in)
        (ground (arith, members-put d k (discard v x) j, members-some d k v found, eq_iff k j))
]

pub length-discard_in-le :
    (d : Dict (List String)) (k x j : String)
    → length (members (discard_in d k x) j) ≤ length (members d j)
length-discard_in-le d k x j =
    rw members-discard_in (ground (arith, length-discard-le (members d j) x))
