-- ===== src/Supervisor/Told.antt =====
-- The instances that `stop` finds alive, and the threads that are not among them.
use notmy_fault.Prelude.{
  ℕ, String, ◌≡◌, ◌∙◌, refl, sym, ap, subst, Option, none, some, Bool, true, false, not, List, [],
  ◌∷◌, ◌++◌, eqb, ◌&&◌, arith, eq_iff, All, if◌then◌else◌,
}
use notmy_fault.Prelude.Dict.{Dict, get}
use notmy_fault.Prelude.Texts.{has}
use notmy_fault.Supervisor.State.{lives, values_of, is_set}
use notmy_fault.Supervisor.Stop.{alive_ids, is_same, is_empty}
use notmy_fault.Supervisor.Registered.{
  Registered, Idle, alive_ids-has, values_of-is_set, is_set-append_left, some_number,
}

-- The instance is not among those of live threads only where its thread is not alive.
abbrev pub Told : List (ℕ × String) → List String → String × ℕ → Type 0
Told alive ids t = has ids t.0 ≡ false → lives t.1 alive ≡ false

Told-weaken :
    (alive : List (ℕ × String)) (ids : List String) (id : String) (d : Dict ℕ)
    → All (Told alive ids) d
    → All (Told alive (id ∷ ids)) d
unfolding has
Told-weaken alive ids id [] h = tt
Told-weaken alive ids id (t ∷ d) h = (λ e. h.0 (ground arith), Told-weaken alive ids id d h.1)

head_told :
    (alive : List (ℕ × String)) (ids : List String) (id : String) (n : ℕ)
    → has (id ∷ ids) id ≡ false
    → lives n alive ≡ false
unfolding has
head_told alive ids id n h = ground (arith, eq_iff id id)

Told-step :
    (b : Bool) (alive : List (ℕ × String)) (ids : List String) (id : String) (n : ℕ) (d : Dict ℕ)
    → lives n alive ≡ b
    → All (Told alive ids) d
    → All (Told alive (if b then id ∷ ids else ids)) ((id, n) ∷ d)
Told-step true alive ids id n d e h = (head_told alive ids id n, Told-weaken alive ids id d h)
Told-step false alive ids id n d e h = (λ k. e, h)

pub alive_ids-Told :
    (alive : List (ℕ × String)) (d : Dict ℕ) → All (Told alive (alive_ids alive d)) d
unfolding alive_ids
alive_ids-Told alive [] = tt
alive_ids-Told alive ((id, n) ∷ d) =
    Told-step (lives n alive) alive (alive_ids alive d) id n d refl (alive_ids-Told alive d)

number_eq : (m n : ℕ) → eqb m n ≡ true → m ≡ n
number_eq m n h = ground arith

drop_parts : (a b : Bool) → (not a && b) ≡ true → (a ≡ false) × (b ≡ true)
drop_parts a b h = ground arith

pub dropped-Idle :
    (o : Option ℕ) (n : ℕ) (ids : List String) (id : String) (alive : List (ℕ × String))
    → Told alive ids (id, n)
    → (not (has ids id) && is_same o n) ≡ true
    → Idle o alive
unfolding is_same
dropped-Idle none n ids id alive t h k e = ground arith
dropped-Idle (some m) n ids id alive t h k e =
    let parts = drop_parts (has ids id) (eqb m n) h in
    subst (λ x. lives x alive ≡ false) (sym (number_eq m n parts.1) ∙ some_number m k e) (t parts.0)

pub Registered-signalled :
    (d : Dict ℕ) (more : List ℕ) (alive : List (ℕ × String))
    → Registered d alive
    → All (λ e. is_set e.0 (values_of d ++ more) ≡ true) alive
Registered-signalled d more [] h = tt
Registered-signalled d more (e ∷ alive) h = (
  is_set-append_left e.0 (values_of d) more (values_of-is_set d e.1 e.0 h.0),
  Registered-signalled d more alive h.1,
)

empty_has : (ids : List String) (id : String) → is_empty ids ≡ true → has ids id ≡ false
unfolding has
empty_has [] id h = refl
empty_has (x ∷ ids) id h = ground arith

apart : (b : Bool) → b ≡ false → ¬ b ≡ true
apart b h k = ground arith

pub none_alive :
    (threads : Dict ℕ) (whole part : List (ℕ × String))
    → is_empty (alive_ids whole threads) ≡ true
    → All (λ x. lives x.0 whole ≡ true) part
    → Registered threads part
    → part ≡ []
none_alive threads whole [] h l r = refl
none_alive threads whole (e ∷ part) h l r =
    let ids = alive_ids whole threads in
    absurd (apart (has ids e.1) (empty_has ids e.1 h) (alive_ids-has whole threads e.1 e.0 r.0 l.0))

get-nothing : (k : String) (n : ℕ) → ¬ get [] k ≡ some n
unfolding get
get-nothing k n h = ground arith

pub empty_alive :
    (d : Dict ℕ) (alive : List (ℕ × String)) → d ≡ [] → Registered d alive → alive ≡ []
empty_alive d [] e r = refl
empty_alive d (x ∷ alive) e r = absurd (get-nothing x.1 x.0 (ap (λ c. get c x.1) (sym e) ∙ r.0))
