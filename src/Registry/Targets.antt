-- ===== src/Registry/Targets.antt =====
-- The first loop of `_check_dependencies`, over the dependencies of one definition.
use notmy_fault.Prelude.{
  String, ◌≡◌, ◌∙◌, ◌⊎◌, inl, inr, refl, sym, ap, none, some, Bool, true, false, not, List, [], ◌∷◌,
  ◌==◌, ◌&&◌, arith, eq_iff, Bool-cases, Option-cases, no_true,
}
use notmy_fault.Prelude.Dict.{Dict, get}
use notmy_fault.Prelude.Texts.{has, eq_text}
use notmy_fault.Registry.Schema.{lacks, Definition}
use notmy_fault.Registry.Check.{mark, check_target, check_references}
use notmy_fault.Registry.Marks.{shape, is_some_shape, is_shared_shape}

-- What the loop over the dependencies `rs` makes of a definition.
pub record IsFirst (ds : Dict Definition) (rs : List String) (d e : Definition) : Type 0 where
  pub same : (e.form ≡ d.form) × (e.shared ≡ d.shared)
  pub lowered : e.available ≡ true → d.available ≡ true
  pub present :
      e.available ≡ true → (r : String) → has rs r ≡ true → is_some_shape (shape (get ds r)) ≡ true
  pub reasoned :
      e.available ≡ false
      → (d.available ≡ false) ⊎ ((r : String) × ((has rs r ≡ true) × (shape (get ds r) ≡ none)))
  pub shared_only :
      e.shared ≡ true
      → (r : String) → has rs r ≡ true
      → is_some_shape (shape (get ds r)) ≡ true
      → is_shared_shape (shape (get ds r)) ≡ true

references-none :
    (ds : Dict Definition) (rs : List String) (e : Definition)
    → ¬ (check_references ds rs none ≡ some e)
unfolding check_references
references-none ds [] e h = ground arith
references-none ds (r ∷ rs) e h = ground arith

has_rest :
    (s r : String) (rs : List String) → has (s ∷ rs) r ≡ true → (s == r) ≡ false → has rs r ≡ true
unfolding has
has_rest s r rs h e = ground arith

has_first : (s r : String) (rs : List String) → s ≡ r → has (s ∷ rs) r ≡ true
unfolding has
has_first s r rs e = ground (arith, eq_iff s r)

has_later : (s r : String) (rs : List String) → has rs r ≡ true → has (s ∷ rs) r ≡ true
unfolding has
has_later s r rs h = ground arith

both_shared : (b c : Bool) → (b && not c) ≡ false → b ≡ true → c ≡ true
both_shared b c h k = ground arith

missing-IsFirst :
    (ds : Dict Definition) (s : String) (rs : List String) (d e : Definition)
    → get ds s ≡ none
    → IsFirst ds rs (mark d (lacks s)) e
    → IsFirst ds (s ∷ rs) d e
unfolding mark
missing-IsFirst ds s rs d e n x = record {
  same = x.same;
  lowered = λ t. absurd (no_true (x.lowered t));
  present = λ t. absurd (no_true (x.lowered t));
  reasoned = λ f. inr (s, (has_first s s rs refl, ap shape n));
  shared_only = λ h r m t. elim (Bool-cases (s == r)) [
    | inl y ↦ absurd (
        no_true (
          ap (λ o. is_some_shape (shape o)) (sym n)
          ∙ ap (λ i. is_some_shape (shape (get ds i))) (eq_text s r y)
          ∙ t))
    | inr y ↦ x.shared_only h r (has_rest s r rs m y) t
  ];
}

found-IsFirst :
    (ds : Dict Definition) (s : String) (rs : List String) (d e t : Definition)
    → get ds s ≡ some t
    → (d.shared && not t.shared) ≡ false
    → IsFirst ds rs d e
    → IsFirst ds (s ∷ rs) d e
found-IsFirst ds s rs d e t n b x = record {
  same = x.same;
  lowered = x.lowered;
  present = λ h r m. elim (Bool-cases (s == r)) [
    | inl y ↦
        ap (λ i. is_some_shape (shape (get ds i))) (sym (eq_text s r y))
        ∙ ap (λ o. is_some_shape (shape o)) n
    | inr y ↦ x.present h r (has_rest s r rs m y)
  ];
  reasoned = λ f. elim (x.reasoned f) [
    | inl y ↦ inl y
    | inr (r, (m, y)) ↦ inr (r, (has_later s r rs m, y))
  ];
  shared_only = λ h r m z. elim (Bool-cases (s == r)) [
    | inl y ↦
        ap (λ i. is_shared_shape (shape (get ds i))) (sym (eq_text s r y))
        ∙ ap (λ o. is_shared_shape (shape o)) n
        ∙ both_shared d.shared t.shared b (sym x.same.1 ∙ h)
    | inr y ↦ x.shared_only h r (has_rest s r rs m y) z
  ];
}

target_raises :
    (d t : Definition) (s : String)
    → (d.shared && not t.shared) ≡ true
    → check_target d s (some t) ≡ none
unfolding check_target
target_raises d t s h = rw h refl

target_stays :
    (d t : Definition) (s : String)
    → (d.shared && not t.shared) ≡ false
    → check_target d s (some t) ≡ some d
unfolding check_target
target_stays d t s h = rw h refl

pub some_eq : {B : Type 0} (d e : B) → some d ≡ some e → d ≡ e
some_eq d e h = ground arith

pub references-IsFirst :
    (ds : Dict Definition) (rs : List String) (d e : Definition)
    → check_references ds rs (some d) ≡ some e
    → IsFirst ds rs d e
unfolding check_references check_target has
references-IsFirst ds [] d e h =
    let same = some_eq d e h in
    record {
      same = (ap (λ x. x.form) (sym same), ap (λ x. x.shared) (sym same));
      lowered = λ t. ap (λ x. x.available) same ∙ t;
      present = λ t r m. ground arith;
      reasoned = λ f. inl (ap (λ x. x.available) same ∙ f);
      shared_only = λ t r m z. ground arith;
    }
references-IsFirst ds (s ∷ rs) d e h = elim (Option-cases (get ds s)) [
  | inl n ↦ missing-IsFirst ds s rs d e n (
      references-IsFirst ds rs (mark d (lacks s)) e
        (ap (λ o. check_references ds rs (check_target d s o)) (sym n) ∙ h))
  | inr (t, x) ↦ elim (Bool-cases (d.shared && not t.shared)) [
    | inl b ↦ absurd (
        references-none ds rs e (
          ap (λ o. check_references ds rs o) (sym (target_raises d t s b))
          ∙ ap (λ o. check_references ds rs (check_target d s o)) (sym x)
          ∙ h))
    | inr b ↦ found-IsFirst ds s rs d e t x b (
        references-IsFirst ds rs d e (
          ap (λ o. check_references ds rs o) (sym (target_stays d t s b))
          ∙ ap (λ o. check_references ds rs (check_target d s o)) (sym x)
          ∙ h))
  ]
]
