-- ===== src/Registry/Tests.antt =====
-- Tests of the registry, and an example of each theorem about it.
use notmy_fault.Prelude.{String, ◌≡◌, refl, ◌⊎◌, none, some, Bool, true, false, not, [], ◌∷◌, ◌==◌}
use notmy_fault.Prelude.Dict.{Dict, get, put}
use notmy_fault.Registry.Schema.{
  Schema, schema, no_schema, nested, no_properties, no_variants, lacks, depends_on, Definition, met,
  own_reference, references, slot_references, named_references, variant_references, require_shared,
}
use notmy_fault.Registry.Check.{
  mark, look_at, look, apply_look, visit_if, check_target, check_references, keep, or_changed,
  while_changed, check_all, visit_found, visit, sweep, round, loop, rounds, checked, private_data,
  check_dependencies,
}
use notmy_fault.Registry.Marks.{Broken, is_available}
use notmy_fault.Registry.Ends.{check_dependencies_ends, check_dependencies-Broken}
use notmy_fault.Registry.Required.{Asks, require_shared-Asks, check_dependencies-require_shared}

abbrev is_custom : String → Bool
is_custom t = not (t == "array")

-- An array of values of the type.
abbrev array_of : String → Schema
array_of t =
    schema "array" (nested (schema t no_schema no_schema no_properties no_variants)) no_schema
      no_properties no_variants

abbrev text_schema : Schema
text_schema = schema "array" no_schema no_schema no_properties no_variants

abbrev defined : Bool → Schema → Definition
defined b s = record { shared = b; available = true; form = s; error = none }

-- A list of points, points, and two types of which the second one is missing.
abbrev definitions : Dict Definition
definitions =
    ("points", defined true (array_of "point"))
    ∷ ("lines", defined false (array_of "paths"))
    ∷ ("paths", defined false (array_of "curve"))
    ∷ ("point", defined true text_schema)
    ∷ []

abbrev checked_definitions : Dict Definition
checked_definitions =
    ("points", defined true (array_of "point"))
    ∷ (
      "lines",
      record {
        shared = false;
        available = false;
        form = array_of "paths";
        error = some (depends_on "paths");
      },
    )
    ∷ (
      "paths",
      record {
        shared = false;
        available = false;
        form = array_of "curve";
        error = some (lacks "curve");
      },
    )
    ∷ ("point", defined true text_schema)
    ∷ []

checked_types : check_dependencies is_custom definitions ≡ checked checked_definitions
unfolding check_dependencies rounds loop round sweep visit visit_found check_all while_changed
    or_changed keep check_references check_target visit_if apply_look look look_at mark references
    own_reference slot_references named_references variant_references get put
checked_types = refl

check_dependencies_ends_example :
    ((out : Dict Definition) × (check_dependencies is_custom definitions ≡ checked out))
    ⊎ (check_dependencies is_custom definitions ≡ private_data)
check_dependencies_ends_example = check_dependencies_ends is_custom definitions

check_dependencies-Broken_example :
    (Broken is_custom definitions "lines" → is_available checked_definitions "lines" ≡ false)
    × (is_available checked_definitions "lines" ≡ false → Broken is_custom definitions "lines")
check_dependencies-Broken_example =
    check_dependencies-Broken is_custom definitions checked_definitions checked_types "lines"

require_shared-Asks_example :
    Asks checked_definitions
      (references is_custom (array_of "lines"))
      (require_shared is_custom checked_definitions (array_of "lines"))
require_shared-Asks_example = require_shared-Asks checked_definitions is_custom (array_of "lines")

points_found : get checked_definitions "points" ≡ some (defined true (array_of "point"))
unfolding get
points_found = refl

check_dependencies-require_shared_example :
    require_shared is_custom checked_definitions (array_of "point") ≡ met
check_dependencies-require_shared_example =
    check_dependencies-require_shared is_custom definitions checked_definitions checked_types
      "points" (defined true (array_of "point")) points_found refl refl
