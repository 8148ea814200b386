-- ===== src/Bindings/Static.antt =====
-- Values without a reference.
use Prim.Native.String.{◌++◌ as ◌<>◌}
use notmy_fault.Prelude.{
  String, ◌≡◌, ◌∙◌, inl, inr, refl, sym, ap, none, some, Bool, true, false, List, [], ◌∷◌, ◌==◌,
  ◌||◌, arith, eq_iff, Bool-cases, if◌then◌else◌, both_hold, no_true,
}
use notmy_fault.Bindings.Value.{
  Value, atom, int, text, list, dict, Values, no_items, item, Fields, no_fields, field, Part, chars,
  path, Context, Reader, get_field, is_given, is_only, is_literal, is_reference, is_expression,
  is_custom_value, is_typed_value,
}
use notmy_fault.Bindings.Resolve.{
  ok, map_result, part_text, prepend, substitute, resolve_text, add_item, add_field, literal_of,
  resolve, resolve_items, resolve_fields,
}
use notmy_fault.Bindings.Available.{
  has_path, contains_dynamic_value, any_dynamic, any_field_dynamic,
}

pub either_false : (a b : Bool) → (a || b) ≡ false → (a ≡ false) × (b ≡ false)
either_false a b h = ground arith

one_key : (k : String) → (k == "data") ≡ true → (k == "$type") ≡ false
one_key k h = ground (arith, eq_iff k "data", eq_iff k "$type", eq_iff "data" "$type")

dynamic_parts :
    (l t e ch : Bool)
    → (if l || t then false else if e then true else ch) ≡ false
    → l ≡ false
    → t ≡ false
    → (e ≡ false) × (ch ≡ false)
dynamic_parts l t e ch h x y = ground arith

module _ {A : Type 0} where
  given_here : (b : Bool) (v : Value A) → is_given (if b then some v else none) ≡ true → b ≡ true
  given_here true v h = refl
  given_here false v h = absurd (no_true h)

  custom_here :
      (p : Reader A) (b : Bool) (v : Value A)
      → is_custom_value p (if b then some v else none) ≡ true
      → b ≡ true
  unfolding is_custom_value
  custom_here p true v h = refl
  custom_here p false v h = absurd (no_true h)

  pub not_other :
      (a b : String) (fs : Fields A) → (a == b) ≡ false → is_only a fs ≡ true → is_only b fs ≡ false
  unfolding is_only
  not_other a b no_fields n h = refl
  not_other a b (field k v no_fields) n h = ground (arith, eq_iff a b, eq_iff k a, eq_iff k b)
  not_other a b (field k v (field k' v' fs)) n h = refl

  -- A typed value has two keys.
  pub typed_only :
      (p : Reader A) (name : String) (fs : Fields A)
      → is_typed_value p fs ≡ true
      → is_only name fs ≡ false
  unfolding is_only is_typed_value get_field is_custom_value
  typed_only p name no_fields h = refl
  typed_only p name (field k v no_fields) h =
      let parts =
        both_hold (is_given (if k == "data" then some v else none))
          (is_custom_value p (if k == "$type" then some v else none)) h in
      let first = given_here (k == "data") v parts.0 in
      absurd (no_true (sym (one_key k first) ∙ custom_here p (k == "$type") v parts.1))
  typed_only p name (field k v (field k' v' fs)) h = refl

  expression_parts :
      (fs : Fields A)
      → is_expression fs ≡ false
      → (is_only "$ref" fs ≡ false)
        × ((is_only "$convert" fs ≡ false) × (is_only "$template" fs ≡ false))
  unfolding is_expression
  expression_parts fs h = ground arith

  only_reference : (fs : Fields A) → is_only "$ref" fs ≡ false → is_reference fs ≡ false
  unfolding is_reference
  only_reference fs h = rw h refl

  pub literal-Constant :
      (p : Reader A) (fs : Fields A)
      → is_literal fs ≡ true
      → (w : Value A) × (literal_of p fs ≡ ok w)
  unfolding is_literal is_only literal_of
  literal-Constant p no_fields h = ground arith
  literal-Constant p (field k v fs) h = (v, refl)

module _ {A : Type 0} (p : Reader A) where
  -- The value is resolved, to one and the same value in every context.
  abbrev pub Constant : Value A → Type 0
  Constant v = (w : Value A) × ((c : Context A) → resolve p c v ≡ ok w)

  substitute-chars :
      (ps : List Part)
      → has_path ps ≡ false
      → (t : String) × ((c : Context A) → substitute p c ps ≡ ok t)
  unfolding has_path substitute part_text prepend
  substitute-chars [] h = ("", λ c. refl)
  substitute-chars (chars t ∷ ps) h =
      let (u, e) = substitute-chars ps h in (t <> u, λ c. ap (prepend p (ok t)) (e c))
  substitute-chars (path ss ∷ ps) h = ground arith

  text-Constant :
      (ps : List Part)
      → has_path ps ≡ false
      → (w : Value A) × ((c : Context A) → resolve_text p c ps ≡ ok w)
  unfolding resolve_text has_path map_result
  text-Constant [] h =
      let (t, e) = substitute-chars [] h in (text t, λ c. ap (map_result (λ t. text t)) (e c))
  text-Constant (chars u ∷ ps) h =
      let (t, e) = substitute-chars (chars u ∷ ps) h in
      (text t, λ c. ap (map_result (λ t. text t)) (e c))
  text-Constant (path ss ∷ ps) h = ground arith

  pub dict_plain :
      (c : Context A) (fs : Fields A)
      → is_expression fs ≡ false
      → is_literal fs ≡ false
      → is_typed_value p fs ≡ false
      → resolve p c (dict fs) ≡ map_result (λ gs. dict gs) (resolve_fields p c fs)
  unfolding resolve
  dict_plain c fs h l t =
      let e = expression_parts fs h in rw (only_reference fs e.0, l, t, e.1.0, e.1.1) refl

  pub dict_literal :
      (c : Context A) (fs : Fields A)
      → is_literal fs ≡ true
      → resolve p c (dict fs) ≡ literal_of p fs
  unfolding resolve is_literal
  dict_literal c fs l = rw (only_reference fs (not_other "$literal" "$ref" fs refl l), l) refl

  pub dict_typed :
      (c : Context A) (fs : Fields A)
      → is_typed_value p fs ≡ true
      → resolve p c (dict fs) ≡ ok (dict fs)
  unfolding resolve is_literal
  dict_typed c fs t =
      rw (only_reference fs (typed_only p "$ref" fs t), typed_only p "$literal" fs t, t) refl

  dict_dynamic :
      (fs : Fields A)
      → contains_dynamic_value p (dict fs) ≡ false
      → is_literal fs ≡ false
      → is_typed_value p fs ≡ false
      → (is_expression fs ≡ false) × (any_field_dynamic p fs ≡ false)
  unfolding contains_dynamic_value
  dict_dynamic fs h l t =
      dynamic_parts (is_literal fs) (is_typed_value p fs) (is_expression fs)
        (any_field_dynamic p fs) h l t

  mutual
    unfolding contains_dynamic_value resolve map_result add_item add_field

    static : (v : Value A) → contains_dynamic_value p v ≡ false → Constant v
    static (atom a) h = (atom a, λ c. refl)
    static (int n) h = (int n, λ c. refl)
    static (text t) h = text-Constant (p.parts t) h
    static (list vs) h =
        let (ws, e) = static_items vs h in (list ws, λ c. ap (map_result (λ xs. list xs)) (e c))
    static (dict fs) h = elim (Bool-cases (is_literal fs)) [
      | inl l ↦ let (w, e) = literal-Constant p fs l in (w, λ c. dict_literal c fs l ∙ e)
      | inr l ↦ elim (Bool-cases (is_typed_value p fs)) [
        | inl t ↦ (dict fs, λ c. dict_typed c fs t)
        | inr t ↦
            let x = dict_dynamic fs h l t in
            let (gs, e) = static_fields fs x.1 in
            (dict gs, λ c. dict_plain c fs x.0 l t ∙ ap (map_result (λ xs. dict xs)) (e c))
      ]
    ]

    static_items :
        (vs : Values A)
        → any_dynamic p vs ≡ false
        → (ws : Values A) × ((c : Context A) → resolve_items p c vs ≡ ok ws)
    static_items no_items h = (no_items, λ c. refl)
    static_items (item v vs) h =
        let parts = either_false (contains_dynamic_value p v) (any_dynamic p vs) h in
        let (w, e) = static v parts.0 in
        let (ws, es) = static_items vs parts.1 in
        (
          item w ws,
          λ c. ap (λ r. add_item p r (resolve_items p c vs)) (e c) ∙ ap (add_item p (ok w)) (es c),
        )

    static_fields :
        (fs : Fields A)
        → any_field_dynamic p fs ≡ false
        → (gs : Fields A) × ((c : Context A) → resolve_fields p c fs ≡ ok gs)
    static_fields no_fields h = (no_fields, λ c. refl)
    static_fields (field k v fs) h =
        let parts = either_false (contains_dynamic_value p v) (any_field_dynamic p fs) h in
        let (w, e) = static v parts.0 in
        let (gs, es) = static_fields fs parts.1 in
        (
          field k w gs,
          λ c.
              ap (λ r. add_field p k r (resolve_fields p c fs)) (e c)
              ∙ ap (add_field p k (ok w)) (es c),
        )

  -- A value without a dynamic part (`contains_dynamic_value`) is resolved without an error, and to
  -- one and the same value whatever the data of the run is.
  pub resolve_static :
      (v : Value A)
      → contains_dynamic_value p v ≡ false
      → (w : Value A) × ((c : Context A) → resolve p c v ≡ ok w)
  resolve_static v h = static v h
