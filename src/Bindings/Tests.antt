-- ===== src/Bindings/Tests.antt =====
-- Tests of the bindings, and an example of each theorem about them.
use notmy_fault.Prelude.{String, ◌≡◌, refl, Option, none, some, Bool, true, false, [], ◌∷◌}
use notmy_fault.Prelude.Dict.{get}
use notmy_fault.Prelude.Texts.{has}
use notmy_fault.Bindings.Value.{
  Value, int, text, list, dict, no_items, item, Fields, no_fields, field, chars, Context, Reader,
  get_field, is_given, is_only, is_literal, is_reference, is_expression, is_custom_value,
  is_typed_value, is_hidden,
}
use notmy_fault.Bindings.Reference.{
  segment_of, add_segment, segments, validate_binding_path, given_or_missing, trigger_payload,
  node_root, text_of, scope_root, reference_source, child, is_private_text, is_private, follow,
  follow_valid, policy, policy_of, text_policy, is_known_policy, known_keys,
  validate_reference_fields, read_reference,
}
use notmy_fault.Bindings.Resolve.{
  ok, error, skip, data_result, map_result, add_field, on_missing, resolve_read, resolve,
  resolve_fields, resolve_reference,
}
use notmy_fault.Bindings.Available.{
  contains_dynamic_value, any_field_dynamic, has_path, iter_references, field_references,
  own_references, references_at, read_references, missing_references, reference_lacks,
  unavailable_references, unavailable_fields, unavailable_own, references_available,
}
use notmy_fault.Bindings.Static.{resolve_static}
use notmy_fault.Bindings.Skips.{resolve-references_available}
use notmy_fault.Bindings.Listed.{all, unavailable_references-iter_references}

-- The atom `true` is null; nothing is a type, and no text has a template.
abbrev pub reader : Reader Bool
reader = record {
  is_null = λ a. a;
  is_custom = λ t. false;
  is_shared = λ t. false;
  parts = λ t. chars t ∷ [];
  to_text = λ v. "";
  binding_value = λ v. ("", some v);
  source_of = λ c fs. none;
  convert = λ c fs v. ("", some v);
}

-- {"$ref": {"scope": "trigger", "node": "files", "path": ["size"], "on_missing": policy}}
abbrev pub size_reference : String → Fields Bool
size_reference on = field "scope" (text "trigger") (
    field "node" (text "files")
      (field "path" (list (item (text "size") no_items)) (field "on_missing" (text on) no_fields)))

abbrev pub parameters : String → Value Bool
parameters on =
    dict (field "size" (dict (field "$ref" (dict (size_reference on)) no_fields)) no_fields)

abbrev pub run_context : Option (Value Bool) → Context Bool
run_context o = record {
  payload = none;
  constants = [];
  variables = [];
  triggers = ("files", record { payload = o; config = none }) ∷ [];
  steps = [];
  root = dict no_fields;
}

abbrev pub files_payload : Value Bool
files_payload = dict (field "size" (int 4) no_fields)

abbrev fixed_parameters : Value Bool
fixed_parameters = dict (
    field "note" (dict (field "$literal" (parameters "skip") no_fields))
      (field "n" (int 3) no_fields))

resolve_size :
    resolve reader (run_context (some files_payload)) (parameters "skip")
    ≡ ok (dict (field "size" (int 4) no_fields))
unfolding resolve resolve_fields resolve_reference resolve_read map_result add_field data_result
    on_missing is_reference is_only is_literal is_typed_value is_custom_value get_field is_hidden
    segment_of add_segment segments validate_binding_path given_or_missing trigger_payload node_root
    text_of scope_root reference_source child is_private_text is_private follow follow_valid policy
    policy_of text_policy is_known_policy known_keys validate_reference_fields read_reference has
    get
resolve_size = refl

fixed_dynamic : contains_dynamic_value reader fixed_parameters ≡ false
unfolding contains_dynamic_value any_field_dynamic is_literal is_only is_typed_value is_custom_value
    get_field is_expression has_path
fixed_dynamic = refl

resolve_static_example :
    (w : Value Bool) × ((c : Context Bool) → resolve reader c fixed_parameters ≡ ok w)
resolve_static_example = resolve_static reader fixed_parameters fixed_dynamic

size_available :
    references_available reader (run_context (some files_payload)) (parameters "skip") ≡ true
unfolding references_available unavailable_references unavailable_fields unavailable_own
    reference_lacks read_references missing_references is_reference is_only is_literal
    is_typed_value is_custom_value get_field is_hidden segment_of add_segment segments
    validate_binding_path given_or_missing trigger_payload node_root text_of scope_root
    reference_source child is_private_text is_private follow follow_valid policy policy_of
    text_policy is_known_policy known_keys validate_reference_fields read_reference has get
size_available = refl

resolve-references_available_example :
    ¬ (resolve reader (run_context (some files_payload)) (parameters "skip") ≡ error skip)
resolve-references_available_example =
    resolve-references_available reader (run_context (some files_payload)) (parameters "skip")
      size_available

size_skipped : resolve reader (run_context none) (parameters "skip") ≡ error skip
unfolding resolve resolve_fields resolve_reference resolve_read map_result add_field data_result
    on_missing is_reference is_only is_literal is_typed_value is_custom_value get_field is_hidden
    segment_of add_segment segments validate_binding_path given_or_missing trigger_payload node_root
    text_of scope_root reference_source child is_private_text is_private follow follow_valid policy
    policy_of text_policy is_known_policy known_keys validate_reference_fields read_reference has
    get
size_skipped = refl

size_listed :
    all (λ r. is_given (get_field "node" r)) (iter_references reader (parameters "skip")) ≡ true
unfolding iter_references field_references own_references references_at is_reference is_only
    is_literal is_typed_value is_custom_value get_field
size_listed = refl

unavailable_references-iter_references_example :
    all
      (λ r. is_given (get_field "node" r))
      (unavailable_references reader (run_context none) (parameters "skip"))
    ≡ true
unavailable_references-iter_references_example =
    unavailable_references-iter_references reader (run_context none)
      (λ r. is_given (get_field "node" r)) (parameters "skip") size_listed
