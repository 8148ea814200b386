-- ===== src/Bindings/Parts.antt =====
-- Which calls of `resolve_value` raise a BindingSkip, one branch at a time.
use notmy_fault.Prelude.{
  String, ◌≡◌, refl, sym, Option, none, some, Bool, true, false, List, [], ◌∷◌, ◌++◌, ◌||◌, arith,
  if◌then◌else◌, no_true,
}
use notmy_fault.Bindings.Value.{
  Value, atom, int, text, list, dict, Values, Fields, Part, chars, path, Context, Reader,
}
use notmy_fault.Bindings.Resolve.{
  Error, read_error, missing_value, skip, data_type, invalid_conversion, invalid_template,
  type_mismatch, Result, ok, error, map_result, data_result, or_missing, part_text, prepend,
  substitute, resolve_text, add_item, add_field, only_text, then_bind, then_convert, convert_from,
  lookup_legacy,
}

-- Whether a call raised a BindingSkip.
abbrev is_skip_error : Error → Bool
is_skip_error skip = true
is_skip_error (read_error e) = false
is_skip_error missing_value = false
is_skip_error (data_type t) = false
is_skip_error invalid_conversion = false
is_skip_error invalid_template = false
is_skip_error type_mismatch = false

abbrev pub is_skip : {B : Type 0} → Result B → Bool
is_skip (error e) = is_skip_error e
is_skip (ok b) = false

pub append-nil : {B : Type 0} (xs ys : List B) → xs ++ ys ≡ [] → (xs ≡ []) × (ys ≡ [])
append-nil [] ys h = (refl, h)
append-nil (x ∷ xs) ys h = ground arith

-- The four ways of a dict, and what the available references of one mean.
pub way_of :
    {B : Type 0} (l t r : Bool) (own children : List B)
    → (if l || t then [] else if r then own else children) ≡ []
    → l ≡ false
    → t ≡ false
    → (r ≡ true → own ≡ []) × (r ≡ false → children ≡ [])
way_of false false true own children h x y = (λ e. h, λ e. absurd (no_true (sym e)))
way_of false false false own children h x y = (λ e. absurd (no_true e), λ e. h)
way_of true t r own children h x y = absurd (no_true (sym x))
way_of false true r own children h x y = absurd (no_true (sym y))

pub map-skip :
    {B C : Type 0} (f : B → C) (r : Result B) → is_skip r ≡ false → is_skip (map_result f r) ≡ false
unfolding map_result
map-skip f (ok b) h = refl
map-skip f (error e) h = h

module _ {A : Type 0} (p : Reader A) where
  pub data-skip : (x : String × Option (Value A)) → is_skip (data_result p x) ≡ false
  unfolding data_result
  data-skip (code, none) = refl
  data-skip (code, some v) = refl

  pub prepend-skip :
      (r s : Result String)
      → is_skip r ≡ false
      → is_skip s ≡ false
      → is_skip (prepend p r s) ≡ false
  unfolding prepend
  prepend-skip (error e) s h k = h
  prepend-skip (ok t) (error e) h k = k
  prepend-skip (ok t) (ok u) h k = refl

  pub item-skip :
      (r : Result (Value A)) (s : Result (Values A))
      → is_skip r ≡ false
      → is_skip s ≡ false
      → is_skip (add_item p r s) ≡ false
  unfolding add_item
  item-skip (error e) s h k = h
  item-skip (ok t) (error e) h k = k
  item-skip (ok t) (ok u) h k = refl

  pub field-skip :
      (n : String) (r : Result (Value A)) (s : Result (Fields A))
      → is_skip r ≡ false
      → is_skip s ≡ false
      → is_skip (add_field p n r s) ≡ false
  unfolding add_field
  field-skip n (error e) s h k = h
  field-skip n (ok t) (error e) h k = k
  field-skip n (ok t) (ok u) h k = refl

  or-skip : (o : Option (Value A)) → is_skip (or_missing p o) ≡ false
  unfolding or_missing
  or-skip none = refl
  or-skip (some v) = refl

  part-skip : (c : Context A) (part : Part) → is_skip (part_text p c part) ≡ false
  unfolding part_text
  part-skip c (chars t) = refl
  part-skip c (path ss) =
      map-skip p.to_text (or_missing p (lookup_legacy p c ss)) (or-skip (lookup_legacy p c ss))

  substitute-skip : (c : Context A) (ps : List Part) → is_skip (substitute p c ps) ≡ false
  unfolding substitute
  substitute-skip c [] = refl
  substitute-skip c (part ∷ ps) =
      prepend-skip (part_text p c part) (substitute p c ps) (part-skip c part)
        (substitute-skip c ps)

  pub text-skip : (c : Context A) (ps : List Part) → is_skip (resolve_text p c ps) ≡ false
  unfolding resolve_text
  text-skip c [] = map-skip (λ t. text t) (substitute p c []) (substitute-skip c [])
  text-skip c (chars t ∷ ps) =
      map-skip (λ u. text u) (substitute p c (chars t ∷ ps)) (substitute-skip c (chars t ∷ ps))
  text-skip c (path ss ∷ []) = or-skip (lookup_legacy p c ss)
  text-skip c (path ss ∷ x ∷ ps) =
      map-skip (λ u. text u) (substitute p c (path ss ∷ x ∷ ps))
        (substitute-skip c (path ss ∷ x ∷ ps))

  pub only-skip : (r : Result (Value A)) → is_skip r ≡ false → is_skip (only_text p r) ≡ false
  unfolding only_text
  only-skip (ok (text t)) h = refl
  only-skip (ok (atom a)) h = refl
  only-skip (ok (int n)) h = refl
  only-skip (ok (list vs)) h = refl
  only-skip (ok (dict fs)) h = refl
  only-skip (error e) h = h

  pub bind-skip : (r : Result (Value A)) → is_skip r ≡ false → is_skip (then_bind p r) ≡ false
  unfolding then_bind
  bind-skip (ok v) h = data-skip (p.binding_value v)
  bind-skip (error e) h = h

  pub convert-skip :
      (c : Context A) (fs : Fields A) (o : Option String) (r : Result (Value A))
      → is_skip r ≡ false
      → is_skip (convert_from p c fs o r) ≡ false
  unfolding convert_from then_convert
  convert-skip c fs (some t) r h = refl
  convert-skip c fs none (ok v) h = data-skip (p.convert c fs v)
  convert-skip c fs none (error e) h = h
