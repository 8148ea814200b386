-- ===== src/Bindings/Resolve.antt =====
-- `resolve_value` with `resolve_reference`.
use Prim.Native.Char.{Char, code}
use Prim.Native.String.{[] as empty, ◌∷◌ as ◌<∷>◌, ◌++◌ as ◌<>◌}
use notmy_fault.Prelude.{
  ℕ, leb, eqb, String, Option, none, some, Bool, true, false, not, List, [], ◌∷◌, ◌==◌, ◌&&◌, ◌||◌,
  if◌then◌else◌,
}
use notmy_fault.Prelude.Texts.{has}
use notmy_fault.Bindings.Value.{
  Value, atom, int, text, list, dict, Values, no_items, item, Fields, no_fields, field, Part, chars,
  path, Context, Reader, get_field, is_given, is_only, is_literal, is_reference, is_typed_value,
  is_hidden,
}
use notmy_fault.Bindings.Reference.{
  ReadError, Read, found, missing, fails, Policy, unset, error_policy, skip_policy, default_policy,
  unknown, policy, read_reference,
}

-- The errors: those of a reference, data that is missing, `BindingSkip`, a DataTypeError with its
-- code, and a malformed "$convert" or "$template", or one whose part is no text.
pub data Error : Type 0 where
  read_error : ReadError → Error
  missing_value skip : Error
  data_type : String → Error
  invalid_conversion invalid_template type_mismatch : Error

pub data Result (B : Type 0) : Type 0 where
  ok : B → Result B
  error : Error → Result B

unfoldable pub map_result : {B C : Type 0} → (B → C) → Result B → Result C
map_result f (ok b) = ok (f b)
map_result f (error e) = error e

abbrev is_between : ℕ → ℕ → Char → Bool
is_between low high c = leb low (code c) && leb (code c) high

unfoldable pub is_letter : Char → Bool
is_letter c = is_between 97 122 c || is_between 65 90 c || eqb (code c) 95

unfoldable pub all_word : String → Bool
all_word empty = true
all_word (c <∷> s) = (is_letter c || is_between 48 57 c) && all_word s

-- `_SEGMENT_RE.fullmatch`
unfoldable pub is_segment : String → Bool
is_segment empty = false
is_segment (c <∷> s) = is_letter c && all_word s

-- A walk over a legacy path: only dicts are entered, by segments that do not begin with "_".
unfoldable pub lookup_in : {A : Type 0} → List String → Option (Value A) → Option (Value A)
lookup_in [] o = o
lookup_in (s ∷ ss) (some (dict fs)) =
    if not (is_segment s) || is_hidden s then none else lookup_in ss (get_field s fs)
lookup_in (s ∷ ss) o = none

module _ {A : Type 0} (p : Reader A) where
  -- What a call that may raise a DataTypeError gives.
  unfoldable pub data_result : String × Option (Value A) → Result (Value A)
  data_result (code, none) = error (data_type code)
  data_result (code, some v) = ok v

  -- `_lookup_legacy`
  unfoldable pub lookup_legacy : Context A → List String → Option (Value A)
  lookup_legacy c segments = lookup_in segments (some c.root)

  unfoldable pub or_missing : Option (Value A) → Result (Value A)
  or_missing none = error missing_value
  or_missing (some v) = ok v

  unfoldable pub part_text : Context A → Part → Result String
  part_text c (chars t) = ok t
  part_text c (path ss) = map_result p.to_text (or_missing (lookup_legacy c ss))

  unfoldable pub prepend : Result String → Result String → Result String
  prepend (error e) rest = error e
  prepend (ok t) (error e) = error e
  prepend (ok t) (ok u) = ok (t <> u)

  unfoldable pub substitute : Context A → List Part → Result String
  substitute c [] = ok ""
  substitute c (part ∷ ps) = prepend (part_text c part) (substitute c ps)

  -- A text: where one match is the whole of it, the value it names, else the text with its matches
  -- replaced.
  unfoldable pub resolve_text : Context A → List Part → Result (Value A)
  resolve_text c (path ss ∷ []) = or_missing (lookup_legacy c ss)
  resolve_text c ps = map_result (λ t. text t) (substitute c ps)

  unfoldable pub add_item : Result (Value A) → Result (Values A) → Result (Values A)
  add_item (error e) vs = error e
  add_item (ok v) (error e) = error e
  add_item (ok v) (ok vs) = ok (item v vs)

  unfoldable pub add_field : String → Result (Value A) → Result (Fields A) → Result (Fields A)
  add_field k (error e) fs = error e
  add_field k (ok v) (error e) = error e
  add_field k (ok v) (ok fs) = ok (field k v fs)

  -- A part of a "$template" must be a text.
  unfoldable pub only_text : Result (Value A) → Result String
  only_text (ok (text t)) = ok t
  only_text (ok v) = error type_mismatch
  only_text (error e) = error e

  unfoldable pub then_bind : Result (Value A) → Result (Value A)
  then_bind (ok v) = data_result (p.binding_value v)
  then_bind (error e) = error e

  unfoldable pub on_missing : Policy → Result (Value A) → Result (Value A)
  on_missing skip_policy default = error skip
  on_missing default_policy default = then_bind default
  on_missing unset default = error missing_value
  on_missing error_policy default = error missing_value
  on_missing unknown default = error missing_value

  -- `resolve_reference`, where `default` is the resolved default value.
  unfoldable pub resolve_read : Policy → Read A → Result (Value A) → Result (Value A)
  resolve_read k (found v) default = data_result (p.binding_value v)
  resolve_read k missing default = on_missing k default
  resolve_read k (fails e) default = error (read_error e)

  unfoldable pub conversion_keys : Fields A → Bool
  conversion_keys no_fields = true
  conversion_keys (field k v fs) =
      has ("value" ∷ "to" ∷ "from" ∷ "options" ∷ []) k && conversion_keys fs

  unfoldable pub is_conversion : Fields A → Bool
  is_conversion fs =
      is_given (get_field "value" fs) && is_given (get_field "to" fs) && conversion_keys fs

  unfoldable pub then_convert : Context A → Fields A → Result (Value A) → Result (Value A)
  then_convert c fs (ok v) = data_result (p.convert c fs v)
  then_convert c fs (error e) = error e

  -- The source type is found before the value is resolved.
  unfoldable pub convert_from :
      Context A → Fields A → Option String → Result (Value A) → Result (Value A)
  convert_from c fs (some code) value = error (data_type code)
  convert_from c fs none value = then_convert c fs value

  unfoldable pub literal_of : Fields A → Result (Value A)
  literal_of no_fields = error missing_value
  literal_of (field k v fs) = ok v

  module _ (c : Context A) where
    unfoldable mutual
      -- `resolve_value`
      pub resolve : Value A → Result (Value A)
      resolve (atom a) = ok (atom a)
      resolve (int n) = ok (int n)
      resolve (text t) = resolve_text c (p.parts t)
      resolve (list vs) = map_result (λ ws. list ws) (resolve_items vs)
      resolve (dict fs) =
          let plain = map_result (λ gs. dict gs) (resolve_fields fs) in
          let reference = resolve_reference fs in
          let conversion = resolve_conversion fs in
          let template = resolve_template fs in
          if is_reference fs
          then reference
          else if is_literal fs
          then literal_of fs
          else if is_typed_value p fs
          then ok (dict fs)
          else if is_only "$convert" fs
          then conversion
          else if is_only "$template" fs
          then template
          else plain

      pub resolve_items : Values A → Result (Values A)
      resolve_items no_items = ok no_items
      resolve_items (item v vs) = add_item (resolve v) (resolve_items vs)

      pub resolve_fields : Fields A → Result (Fields A)
      resolve_fields no_fields = ok no_fields
      resolve_fields (field k v fs) = add_field k (resolve v) (resolve_fields fs)

      -- The entry of a name, resolved.
      pub resolve_at : String → Fields A → Result (Value A)
      resolve_at name no_fields = error missing_value
      resolve_at name (field k v fs) =
          let here = resolve v in
          let there = resolve_at name fs in if k == name then here else there

      -- {"$ref": r}
      pub resolve_reference : Fields A → Result (Value A)
      resolve_reference (field k (dict r) fs) =
          resolve_read (policy p r) (read_reference p c r) (resolve_at "default" r)
      resolve_reference (field k (atom a) fs) = error missing_value
      resolve_reference (field k (int n) fs) = error missing_value
      resolve_reference (field k (text t) fs) = error missing_value
      resolve_reference (field k (list vs) fs) = error missing_value
      resolve_reference no_fields = error missing_value

      -- {"$convert": conversion}
      pub resolve_conversion : Fields A → Result (Value A)
      resolve_conversion (field k (dict r) fs) =
          let value = resolve_at "value" r in
          if is_conversion r
          then convert_from c r (p.source_of c r) value
          else error invalid_conversion
      resolve_conversion (field k (atom a) fs) = error invalid_conversion
      resolve_conversion (field k (int n) fs) = error invalid_conversion
      resolve_conversion (field k (text t) fs) = error invalid_conversion
      resolve_conversion (field k (list vs) fs) = error invalid_conversion
      resolve_conversion no_fields = error invalid_conversion

      -- {"$template": parts}
      pub resolve_template : Fields A → Result (Value A)
      resolve_template (field k (list vs) fs) = map_result (λ t. text t) (resolve_texts vs)
      resolve_template (field k (atom a) fs) = error invalid_template
      resolve_template (field k (int n) fs) = error invalid_template
      resolve_template (field k (text t) fs) = error invalid_template
      resolve_template (field k (dict r) fs) = error invalid_template
      resolve_template no_fields = error invalid_template

      pub resolve_texts : Values A → Result String
      resolve_texts no_items = ok ""
      resolve_texts (item v vs) = prepend (only_text (resolve v)) (resolve_texts vs)
