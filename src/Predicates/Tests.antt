-- ===== src/Predicates/Tests.antt =====
-- Tests of the predicates, and an example of each theorem about them.
use notmy_fault.Prelude.{String, ◌≡◌, refl, some, Bool, false, [], ◌==◌}
use notmy_fault.Bindings.Value.{
  Value, int, text, list, dict, Values, no_items, item, no_fields, field, get_field,
}
use notmy_fault.Bindings.Tests.{reader, run_context, files_payload}
use notmy_fault.Predicates.Validate.{
  op_of, op_of_text, op_issues, operand_issues, is_unary, issue_unless, validate, validate_children,
  validate_list, validate_items,
}
use notmy_fault.Predicates.Evaluate.{Operators, evaluate}
use notmy_fault.Predicates.Meaning.{meaning}
use notmy_fault.Predicates.Same.{evaluate-meaning}
use notmy_fault.Predicates.Operands.{is_told}
use notmy_fault.Predicates.Told.{is_empty, evaluate-validate}

-- Every atom is a bool, no two values are equal, and no number is above another one.
abbrev operators : Operators Bool
operators = record {
  bool_of = λ a. some a;
  is_number = λ a. false;
  equals = λ l r. false;
  in_text = λ t u. t == u;
  in_list = λ v vs. false;
  order = λ k l r. false;
}

-- {"op": op, "children": children}
abbrev group : String → Values Bool → Value Bool
group op children = dict (field "op" (text op) (field "children" (list children) no_fields))

-- {"op": "all", "children": [{"op": "not", "children": [{"op": "is_true", "left": ...}]}, {"op": "eq", ...}]}
abbrev size_predicate : Value Bool
size_predicate = group "all" (
    item
      (group "not"
        (item (dict (field "op" (text "is_true") (field "left" (int 3) no_fields))) no_items))
      (item
        (dict
          (field "op" (text "eq") (field "left" (text "a") (field "right" (text "b") no_fields))))
        no_items))

size_valid : validate size_predicate ≡ []
unfolding validate validate_children validate_list validate_items op_of op_of_text op_issues
    operand_issues is_unary issue_unless get_field
size_valid = refl

evaluate-meaning_example :
    evaluate operators reader (run_context (some files_payload)) size_predicate
    ≡ meaning operators reader (run_context (some files_payload)) size_predicate
evaluate-meaning_example =
    evaluate-meaning operators reader (run_context (some files_payload)) size_predicate size_valid

evaluate-validate_example :
    is_told (evaluate operators reader (run_context (some files_payload)) size_predicate)
    ≡ is_empty (validate size_predicate)
evaluate-validate_example =
    evaluate-validate operators reader (run_context (some files_payload)) size_predicate
