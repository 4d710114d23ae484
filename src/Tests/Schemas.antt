-- ===== src/Tests/Schemas.antt =====
-- Tool schemas and the effort of a request.
use claude_code_kiro_models.Messages.Effort.{
  effort_for_budget, effort, by_budget, by_request, Request, is_thinking_disabled, resolve_effort,
}
use claude_code_kiro_models.Models.Effort.{
  reasoning_effort_levels, levels_of, clamp_effort, effort_capabilities, is_reasoning_model,
}
use claude_code_kiro_models.Prelude.{contains, lookup, starts_with}
use claude_code_kiro_models.Prelude.Int.{pos}
use claude_code_kiro_models.Prelude.{text_eq, false, [], none, some, codes, ◌≡◌, refl, String}
use claude_code_kiro_models.Reqconv.Json.{
  copy_fields, set_field, Json, string, array, object, no_items, item, Fields, no_fields, field,
  lookup_field,
}
use claude_code_kiro_models.Reqconv.Schema.Clean.{IsClean}
use claude_code_kiro_models.Reqconv.Dereference.{
  dereference_schema, resolve_node, resolve_with, settle, overlay, kept_fields, leaves_out, plan_of,
  plan_ref, found_target, lookup_ref, walk, step_into, split_slash, unescape, replace_escape,
  texts_of, is_local_ref, parse_index, at_index, crash,
}
use claude_code_kiro_models.Reqconv.Dereference.Total.{dereference_schema_total}
use claude_code_kiro_models.Reqconv.Schema.Sanitized.{sanitize_json_schema-IsClean}
use claude_code_kiro_models.Reqconv.Schema.{
  add_enum, merged_enum, enums_of, flatten_enum_branches, drop_null_branches, copy_branch,
  is_unsupported, single_branch, choose, all_of, choice, second_entry, second_pass, first_entry,
  first_pass, clean_value, assemble, sanitize_json_schema,
}

abbrev typed : String → Json
typed t = object (field (codes "type") (string (codes t)) no_fields)

abbrev one : String → Json → Fields
one k v = field (codes k) v no_fields

-- A choice between a string and null is the string, and `$schema` goes.
abbrev optional_name : Fields
optional_name =
    field (codes "$schema") (string (codes "x"))
      (one "anyOf" (array (item (typed "string") (item (typed "null") no_items))))

optional_name_sanitized : sanitize_json_schema optional_name ≡ one "type" (string (codes "string"))
unfolding sanitize_json_schema assemble clean_value first_pass first_entry second_pass second_entry
    choice choose single_branch copy_branch drop_null_branches flatten_enum_branches enums_of
    merged_enum add_enum copy_fields set_field lookup_field is_unsupported text_eq
optional_name_sanitized = refl

-- A property that is named as a keyword is taken for the keyword: `allOf` is lost, and `const`
-- turns into an `enum`.
abbrev tricky : Fields
tricky =
    one "properties"
      (object (field (codes "allOf") (typed "string") (one "const" (typed "string"))))

tricky_sanitized :
    sanitize_json_schema tricky
    ≡ one "properties" (object (one "enum" (array (item (typed "string") no_items))))
unfolding sanitize_json_schema assemble clean_value first_pass first_entry second_pass second_entry
    all_of set_field is_unsupported text_eq
tricky_sanitized = refl

sanitize_json_schema-IsClean_example : IsClean (sanitize_json_schema tricky)
sanitize_json_schema-IsClean_example = sanitize_json_schema-IsClean tricky

-- A reference to itself ends in an empty schema.
abbrev to_list : Json
to_list = object (one "$ref" (string (codes "#/$defs/List")))

abbrev list_node : Fields
list_node = one "properties" (object (one "next" to_list))

abbrev cyclic : Fields
cyclic =
    field (codes "$ref") (string (codes "#/$defs/List"))
      (one "$defs" (object (one "List" (object list_node))))

cyclic_dereferenced :
    dereference_schema cyclic ≡ some (one "properties" (object (one "next" (object no_fields))))
unfolding dereference_schema resolve_node resolve_with settle overlay kept_fields leaves_out plan_of
    plan_ref found_target lookup_ref walk step_into split_slash starts_with unescape replace_escape
    texts_of is_local_ref copy_fields set_field lookup_field text_eq contains
cyclic_dereferenced = refl

-- The index 2 ^ 63 has overflowed, and indexing panics.
abbrev overflowing : Fields
overflowing = one "enum" (array (item (typed "string") no_items))

overflowing_crashes : lookup_ref overflowing (codes "#/enum/9223372036854775808") ≡ crash
unfolding lookup_ref walk step_into split_slash starts_with unescape replace_escape parse_index
    at_index lookup_field text_eq
overflowing_crashes = refl

dereference_schema_total_example : (out : Fields) × (dereference_schema cyclic ≡ some out)
unfolding lookup_ref walk step_into split_slash starts_with unescape replace_escape texts_of
    lookup_field text_eq
dereference_schema_total_example = dereference_schema_total cyclic (refl, (refl, tt))

abbrev budgeted : Request
budgeted = record {
  thinking = some (record { thinking_type = codes "enabled"; budget_tokens = pos 5000 });
  output_config = none;
}

-- A reasoning model with a budget for thinking is sent an effort.
budgeted_effort : resolve_effort [] (codes "gpt-5.6-sol") [] budgeted false ≡ codes "medium"
unfolding resolve_effort by_request by_budget effort is_thinking_disabled effort_for_budget
    is_reasoning_model lookup effort_capabilities text_eq clamp_effort levels_of contains
    reasoning_effort_levels claude_code_kiro_models.Models.Effort.resolve_effort
budgeted_effort = refl
