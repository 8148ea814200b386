-- ===== src/Registry/Schema.antt =====
-- The definitions of data types, and the types that a schema refers to.
use notmy_fault.Prelude.{String, Option, none, some, Bool, not, List, [], ◌∷◌, ◌++◌, if◌then◌else◌}
use notmy_fault.Prelude.Dict.{Dict, get}

-- A schema as `normalize_type` gives it: the type, "items", "additional_properties" where it is a
-- schema, "properties" and "variants". Its other entries play no part here.
mutual
  pub data Schema : Type 0 where
    schema : String → Slot → Slot → Named → Variants → Schema

  pub data Slot : Type 0 where
    no_schema : Slot
    nested : Schema → Slot

  pub data Named : Type 0 where
    no_properties : Named
    property : String → Schema → Named → Named

  pub data Variants : Type 0 where
    no_variants : Variants
    variant : Schema → Variants → Variants

-- Why a type is not available: a type that is missing, or one that is not available.
pub data Reason : Type 0 where
  lacks depends_on : String → Reason

-- `shared` tells that "binding" is "shared", else it is "private".
pub record Definition : Type 0 where
  pub shared : Bool
  pub available : Bool
  pub form : Schema
  pub error : Option Reason

-- What `require_shared` does: it returns, or raises the error of the name.
pub data Requirement : Type 0 where
  met unknown_type unavailable_type private_plugin_data : Requirement

unfoldable pub and_require : Requirement → Requirement → Requirement
and_require met rest = rest
and_require e rest = e

unfoldable pub require_definition : Option Definition → Requirement
require_definition none = unknown_type
require_definition (some d) =
    if not d.available then unavailable_type else if d.shared then met else private_plugin_data

-- `is_custom` is `is_custom_type`.
module _ (is_custom : String → Bool) where
  unfoldable pub own_reference : String → List String
  own_reference kind = if is_custom kind then kind ∷ [] else []

  unfoldable mutual
    -- `references`
    pub references : Schema → List String
    references (schema kind items additional named variants) =
        own_reference kind
        ++ (slot_references items
            ++ (slot_references additional
                ++ (named_references named ++ variant_references variants)))

    pub slot_references : Slot → List String
    slot_references no_schema = []
    slot_references (nested s) = references s

    pub named_references : Named → List String
    named_references no_properties = []
    named_references (property name s rest) = references s ++ named_references rest

    pub variant_references : Variants → List String
    variant_references no_variants = []
    variant_references (variant s rest) = references s ++ variant_references rest

  module _ (ds : Dict Definition) where
    unfoldable pub require_own : String → Requirement
    require_own kind = if is_custom kind then require_definition (get ds kind) else met

    unfoldable mutual
      -- `require_shared` of a normalized schema
      pub require_shared : Schema → Requirement
      require_shared (schema kind items additional named variants) =
          and_require (require_own kind) (
            and_require (require_slot items) (
              and_require (require_slot additional)
                (and_require (require_named named) (require_variants variants))))

      pub require_slot : Slot → Requirement
      require_slot no_schema = met
      require_slot (nested s) = require_shared s

      pub require_named : Named → Requirement
      require_named no_properties = met
      require_named (property name s rest) = and_require (require_shared s) (require_named rest)

      pub require_variants : Variants → Requirement
      require_variants no_variants = met
      require_variants (variant s rest) = and_require (require_shared s) (require_variants rest)
