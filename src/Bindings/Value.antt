-- ===== src/Bindings/Value.antt =====
-- Values of a rule's parameters, the kinds of expression among them, and the data of a run.
use Prim.Native.Char.{code}
use Prim.Native.String.{[] as empty, ◌∷◌ as ◌<∷>◌}
use notmy_fault.Prelude.{
  ℕ, String, Option, none, some, Bool, true, false, List, ◌==◌, ◌&&◌, ◌||◌, eqb, if◌then◌else◌,
}
use notmy_fault.Prelude.Dict.{Dict}

-- An integer that is not negative stands apart, since a path may hold it; `A` are the other atoms,
-- such as null, the booleans and the other numbers. A dict is a list of pairs with a key once at most.
mutual
  pub data Value (A : Type 0) : Type 0 where
    atom : A → Value A
    int : ℕ → Value A
    text : String → Value A
    list : Values A → Value A
    dict : Fields A → Value A

  pub data Values (A : Type 0) : Type 0 where
    no_items : Values A
    item : Value A → Values A → Values A

  pub data Fields (A : Type 0) : Type 0 where
    no_fields : Fields A
    field : String → Value A → Fields A → Fields A

-- A piece of a text as the pattern of `_LEGACY_TEMPLATE` cuts it: what stands between its matches, or
-- a match with the segments of its path.
pub data Part : Type 0 where
  chars : String → Part
  path : List String → Part

-- context["triggers"][node]
pub record Trigger (A : Type 0) : Type 0 where
  pub payload : Option (Value A)
  pub config : Option (Value A)

-- context["steps"][node]
pub record Step (A : Type 0) : Type 0 where
  pub status : String
  pub result : Option (Value A)

-- What the bindings read of a run's context. `root` is the whole of it, for the old templates.
pub record Context (A : Type 0) : Type 0 where
  pub payload : Option (Value A)
  pub constants : Dict (Value A)
  pub variables : Dict (Value A)
  pub triggers : Dict (Trigger A)
  pub steps : Dict (Step A)
  pub root : Value A

-- What Python, the type registry and the conversions answer: `is_custom` is `is_custom_type`,
-- `is_shared` that a type is known and its binding shared, `parts` cuts a text, `to_text` is str,
-- `binding_value` is the registry's, `source_of` and `convert` are what `$convert` calls. Where one of
-- these raises a DataTypeError, its code is the text; other exceptions of theirs are not modelled.
pub record Reader (A : Type 0) : Type 0 where
  pub is_null : A → Bool
  pub is_custom : String → Bool
  pub is_shared : String → Bool
  pub parts : String → List Part
  pub to_text : Value A → String
  pub binding_value : Value A → String × Option (Value A)
  pub source_of : Context A → Fields A → Option String
  pub convert : Context A → Fields A → Value A → String × Option (Value A)

-- text.startswith("_")
unfoldable pub is_hidden : String → Bool
is_hidden empty = false
is_hidden (c <∷> s) = eqb (code c) 95

module _ {A : Type 0} where
  unfoldable pub get_field : String → Fields A → Option (Value A)
  get_field name no_fields = none
  get_field name (field k v fs) = if k == name then some v else get_field name fs

  abbrev pub is_given : Option (Value A) → Bool
  is_given none = false
  is_given (some v) = true

  -- set(value) == {name}
  unfoldable pub is_only : String → Fields A → Bool
  is_only name no_fields = false
  is_only name (field k v no_fields) = k == name
  is_only name (field k v (field k' v' fs)) = false

  abbrev pub is_dict_first : Fields A → Bool
  is_dict_first (field k (dict r) fs) = true
  is_dict_first fs = false

  -- `is_literal`
  unfoldable pub is_literal : Fields A → Bool
  is_literal fs = is_only "$literal" fs

  -- `is_reference`
  unfoldable pub is_reference : Fields A → Bool
  is_reference fs = is_only "$ref" fs && is_dict_first fs

  -- `is_expression`
  unfoldable pub is_expression : Fields A → Bool
  is_expression fs =
      is_only "$ref" fs || is_only "$literal" fs || is_only "$convert" fs || is_only "$template" fs

  unfoldable pub is_custom_value : Reader A → Option (Value A) → Bool
  is_custom_value p (some (text t)) = p.is_custom t
  is_custom_value p o = false

  -- `is_typed_value`
  unfoldable pub is_typed_value : Reader A → Fields A → Bool
  is_typed_value p fs = is_given (get_field "data" fs) && is_custom_value p (get_field "$type" fs)
