-- ===== src/Supervisor/Registered.antt =====
-- Live threads and the dicts that name them.
use notmy_fault.Prelude.{
  ℕ, String, ◌≡◌, ◌∙◌, inl, inr, refl, sym, subst, Option, some, Bool, true, false, List, [], ◌∷◌,
  ◌++◌, eqb, ◌||◌, ◌==◌, arith, eq_iff, All, Bool-cases,
}
use notmy_fault.Prelude.Dict.{Dict, get, put, remove, get-put, get-remove}
use notmy_fault.Prelude.Texts.{has}
use notmy_fault.Supervisor.State.{lives, survivors, values_of, is_set}
use notmy_fault.Supervisor.Stop.{alive_ids}

-- The dict has each live thread under the instance that it works for.
abbrev pub Registered : Dict ℕ → List (ℕ × String) → Type 0
Registered d alive = All (λ e. get d e.1 ≡ some e.0) alive

-- No live thread works for the instance.
abbrev pub Free : String → List (ℕ × String) → Type 0
Free id alive = All (λ e. (id == e.1) ≡ false) alive

-- What holds of all live threads holds of those that are left.
pub survivors-All :
    (Q : ℕ × String → Type 0) (dies : ℕ → Bool) (alive : List (ℕ × String))
    → All Q alive
    → All Q (survivors dies alive)
unfolding survivors
survivors-All Q dies [] h = tt
survivors-All Q dies (e ∷ alive) h = elim (Bool-cases (dies e.0)) [
  | inl d ↦ rw d (survivors-All Q dies alive h.1)
  | inr d ↦ rw d (h.0, survivors-All Q dies alive h.1)
]

pub put-Registered :
    (d : Dict ℕ) (id : String) (n : ℕ) (alive : List (ℕ × String))
    → Free id alive
    → Registered d alive
    → Registered (put d id n) alive
put-Registered d id n [] f r = tt
put-Registered d id n (e ∷ alive) f r =
    (get-put d id n e.1 ∙ rw (f.0) (r.0), put-Registered d id n alive f.1 r.1)

pub remove-Registered :
    (d : Dict ℕ) (id : String) (alive : List (ℕ × String))
    → Free id alive
    → Registered d alive
    → Registered (remove d id) alive
remove-Registered d id [] f r = tt
remove-Registered d id (e ∷ alive) f r =
    (get-remove d id e.1 ∙ rw (f.0) (r.0), remove-Registered d id alive f.1 r.1)

pub get-put_own : (d : Dict ℕ) (id : String) (n : ℕ) → get (put d id n) id ≡ some n
get-put_own d id n = ground (arith, get-put d id n id, eq_iff id id)

lives-weaken :
    (n : ℕ) (e : ℕ × String) (alive : List (ℕ × String))
    → lives n alive ≡ true
    → lives n (e ∷ alive) ≡ true
unfolding lives
lives-weaken n e alive h = ground arith

Live-weaken :
    (whole part : List (ℕ × String)) (e : ℕ × String)
    → All (λ x. lives x.0 whole ≡ true) part
    → All (λ x. lives x.0 (e ∷ whole) ≡ true) part
Live-weaken whole [] e h = tt
Live-weaken whole (x ∷ part) e h = (lives-weaken x.0 e whole h.0, Live-weaken whole part e h.1)

lives-head : (e : ℕ × String) (alive : List (ℕ × String)) → lives e.0 (e ∷ alive) ≡ true
unfolding lives
lives-head e alive = ground arith

pub All-live : (alive : List (ℕ × String)) → All (λ x. lives x.0 alive ≡ true) alive
All-live [] = tt
All-live (e ∷ alive) = (lives-head e alive, Live-weaken alive alive e (All-live alive))

-- The instance's entry is not one of a live thread.
abbrev pub Idle : Option ℕ → List (ℕ × String) → Type 0
Idle o alive = (n : ℕ) → o ≡ some n → lives n alive ≡ false

other_instance :
    (d : Dict ℕ) (id : String) (whole : List (ℕ × String)) (e : ℕ × String)
    → Idle (get d id) whole
    → get d e.1 ≡ some e.0
    → lives e.0 whole ≡ true
    → (id == e.1) ≡ false
other_instance d id whole e i g l = elim (Bool-cases (id == e.1)) [
  | inl h ↦ ground (arith, eq_iff id e.1, i e.0)
  | inr h ↦ h
]

pub Idle-Free :
    (d : Dict ℕ) (id : String) (whole part : List (ℕ × String))
    → Idle (get d id) whole
    → All (λ x. lives x.0 whole ≡ true) part
    → Registered d part
    → Free id part
Idle-Free d id whole [] i l r = tt
Idle-Free d id whole (e ∷ part) i l r =
    (other_instance d id whole e i r.0 l.0, Idle-Free d id whole part i l.1 r.1)

pub some_number : (m n : ℕ) → some m ≡ some n → m ≡ n
some_number m n h = ground arith

head_has : (a b : Bool) → a ≡ true → (a || b) ≡ true
head_has a b h = ground arith

tail_has : (a b : Bool) → b ≡ true → (a || b) ≡ true
tail_has a b h = ground arith

-- The instances of live threads are found among the threads.
pub alive_ids-has :
    (alive : List (ℕ × String)) (d : Dict ℕ) (id : String) (n : ℕ)
    → get d id ≡ some n
    → lives n alive ≡ true
    → has (alive_ids alive d) id ≡ true
unfolding alive_ids get has
alive_ids-has alive [] id n g l = ground arith
alive_ids-has alive ((j, m) ∷ d) id n g l = elim (Bool-cases (j == id)) [
  | inl e ↦
      let same = some_number m n (sym (rw e refl) ∙ g) in
      rw (subst (λ k. lives k alive ≡ true) (sym same) l)
        (head_has (j == id) (has (alive_ids alive d) id) e)
  | inr e ↦
      let rest = alive_ids-has alive d id n (sym (rw e refl) ∙ g) l in
      elim (Bool-cases (lives m alive)) [
        | inl k ↦ rw k (tail_has (j == id) (has (alive_ids alive d) id) rest)
        | inr k ↦ rw k rest
      ]
]

pub values_of-is_set :
    (d : Dict ℕ) (id : String) (n : ℕ) → get d id ≡ some n → is_set n (values_of d) ≡ true
unfolding get is_set values_of
values_of-is_set [] id n g = ground arith
values_of-is_set ((j, m) ∷ d) id n g = elim (Bool-cases (j == id)) [
  | inl e ↦ let same = some_number m n (sym (rw e refl) ∙ g) in ground arith
  | inr e ↦
      tail_has (eqb m n) (is_set n (values_of d)) (values_of-is_set d id n (sym (rw e refl) ∙ g))
]

pub is_set-append_left : (n : ℕ) (ms ks : List ℕ) → is_set n ms ≡ true → is_set n (ms ++ ks) ≡ true
unfolding is_set
is_set-append_left n [] ks h = ground arith
is_set-append_left n (m ∷ ms) ks h = elim (Bool-cases (eqb m n)) [
  | inl e ↦ rw e refl
  | inr e ↦ rw e (is_set-append_left n ms ks (sym (rw e refl) ∙ h))
]
