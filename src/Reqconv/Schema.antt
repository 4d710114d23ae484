-- ===== src/Reqconv/Schema.antt =====
-- internal/reqconv/schema_sanitize.go: SanitizeJSONSchema, mergeSchemas and EnsureObjectRoot.
pub mod Clean
pub mod Sanitized
pub mod Root
use claude_code_kiro_models.Prelude.{
  Bool, true, false, not, ◌&&◌, ◌||◌, List, [], ◌∷◌, Option, none, some, Text, codes, if◌then◌else◌,
  is_empty, text_eq, is_some,
}
use claude_code_kiro_models.Reqconv.Json.{
  Json, null, boolean, number, string, array, object, Items, no_items, item, Fields, no_fields,
  field, lookup_field, set_field, copy_fields, append_items,
}

-- unsupportedKeywords
unfoldable pub is_unsupported : Text → Bool
is_unsupported k =
    text_eq k (codes "$schema") || (text_eq k (codes "$defs") || text_eq k (codes "$ref"))

-- A key of the schema, its value, and the value as SanitizeJSONSchema leaves it: a map and the maps
-- in an array are sanitized.
pub record Entry : Type 0 where
  pub key : Text
  pub value : Json
  pub cleaned : Json

-- mergeSchemas
unfoldable mutual
  pub merge_schemas : Fields → Fields → Fields
  merge_schemas dst no_fields = dst
  merge_schemas dst (field k v fs) =
      merge_schemas (set_field dst k (merge_value (lookup_field k dst) v)) fs

  pub merge_value : Option Json → Json → Json
  merge_value (some (object em)) (object sm) = object (merge_schemas em sm)
  merge_value (some (array ea)) (array sa) = array (append_items ea sa)
  merge_value existing v = v

abbrev pub one_item : Json → Json
one_item v = array (item v no_items)

abbrev pub is_empty_array : Json → Bool
is_empty_array (array no_items) = true
is_empty_array _ = false

abbrev pub has_enum : List Entry → Bool
has_enum [] = false
has_enum (e ∷ es) = if text_eq e.key (codes "enum") then true else has_enum es

abbrev pub is_choice : Text → Bool
is_choice k = text_eq k (codes "anyOf") || text_eq k (codes "oneOf")

abbrev pub is_all_of : Text → Bool
is_all_of k = text_eq k (codes "allOf")

-- The first pass, by the key.
unfoldable pub first_entry : Bool → Fields → Entry → Fields
first_entry enum result e =
    if is_unsupported e.key
    then result
    else if text_eq e.key (codes "const")
    then if enum then result else set_field result (codes "enum") (one_item e.value)
    else if text_eq e.key (codes "required")
    then if is_empty_array e.value then result else set_field result e.key e.value
    else if is_choice e.key || is_all_of e.key
    then result
    else set_field result e.key e.cleaned

unfoldable pub first_pass : Bool → Fields → List Entry → Fields
first_pass enum result [] = result
first_pass enum result (e ∷ es) = first_pass enum (first_entry enum result e) es

-- flattenEnumBranches: the enums of the branches together, and their type if they have the same.
pub record Enums : Type 0 where
  pub values : Items
  pub typ : Text
  pub consistent : Bool

unfoldable pub add_type : Enums → Option Json → Enums
add_type a (some (string t)) =
    if is_empty a.typ
    then record a { typ = t }
    else if text_eq a.typ t
    then a
    else record a { consistent = false }
add_type a _ = record a { consistent = false }

unfoldable pub add_enum : Enums → Fields → Option Json → Option Enums
add_enum a s (some (array is)) =
    some (add_type (record a { values = append_items a.values is }) (lookup_field (codes "type") s))
add_enum a s _ = none

unfoldable pub enums_of : Option Enums → Items → Option Enums
enums_of none is = none
enums_of (some a) no_items = some a
enums_of (some a) (item (object s) is) = enums_of (add_enum a s (lookup_field (codes "enum") s)) is
enums_of (some a) (item _ is) = none

unfoldable pub merged_enum : Option Enums → Option Fields
merged_enum none = none
merged_enum (some a) =
    let typed = field (codes "type") (string a.typ) no_fields in
    some (
      field (codes "enum") (array a.values)
        (if not (is_empty a.typ) && a.consistent then typed else no_fields))

unfoldable pub flatten_enum_branches : Items → Option Fields
flatten_enum_branches branches =
    merged_enum
      (enums_of (some (record { values = no_items; typ = []; consistent = true })) branches)

-- dropNullBranches: it looks at the branches as they came, and what is kept is used as sanitized.
abbrev pub is_null_type : Option Json → Bool
is_null_type (some (string t)) = text_eq t (codes "null")
is_null_type _ = false

abbrev pub is_null_branch : Json → Bool
is_null_branch (object m) = is_null_type (lookup_field (codes "type") m)
is_null_branch _ = false

unfoldable pub drop_null_branches : Items → Items → Items
drop_null_branches (item b bs) (item c cs) =
    let rest = drop_null_branches bs cs in if is_null_branch b then rest else item c rest
drop_null_branches bs cs = no_items

-- anyOf and oneOf past the enums: a single branch takes the place of the choice.
unfoldable pub copy_branch : Fields → Json → Fields
copy_branch result (object s) = copy_fields result s
copy_branch result _ = result

unfoldable pub single_branch : Text → Json → Fields → Items → Fields
single_branch k cleaned result no_items = set_field result k cleaned
single_branch k cleaned result (item c no_items) = copy_branch result c
single_branch k cleaned result (item c (item d ds)) = set_field result k cleaned

unfoldable pub choose : Text → Json → Fields → Items → Option Fields → Fields
choose k cleaned result kept (some merged) = copy_fields result merged
choose k cleaned result kept none = single_branch k cleaned result kept

unfoldable pub choice : Text → Fields → Json → Json → Fields
choice k result (array (item b bs)) (array cs) =
    choose k (array cs) result (drop_null_branches (item b bs) cs) (flatten_enum_branches cs)
choice k result value cleaned = result

unfoldable pub merge_branches : Fields → Items → Fields
merge_branches result no_items = result
merge_branches result (item (object s) is) = merge_branches (merge_schemas result s) is
merge_branches result (item _ is) = merge_branches result is

unfoldable pub all_of : Fields → Json → Fields
all_of result (array is) = merge_branches result is
all_of result _ = result

-- The second pass.
unfoldable pub second_entry : Fields → Entry → Fields
second_entry result e =
    if is_choice e.key
    then choice e.key result e.value e.cleaned
    else if is_all_of e.key
    then all_of result e.cleaned
    else result

unfoldable pub second_pass : Fields → List Entry → Fields
second_pass result [] = result
second_pass result (e ∷ es) = second_pass (second_entry result e) es

unfoldable pub assemble : List Entry → Fields
assemble es = second_pass (first_pass (has_enum es) no_fields es) es

unfoldable mutual
  pub clean_value : Json → Json
  clean_value (object fs) = object (assemble (entries fs))
  clean_value (array is) = array (clean_items is)
  clean_value v = v

  -- A map in an array is sanitized, anything else stays, an array too.
  pub clean_items : Items → Items
  clean_items no_items = no_items
  clean_items (item (object fs) is) = item (object (assemble (entries fs))) (clean_items is)
  clean_items (item v is) = item v (clean_items is)

  pub entries : Fields → List Entry
  entries no_fields = []
  entries (field k v fs) = record { key = k; value = v; cleaned = clean_value v } ∷ entries fs

-- SanitizeJSONSchema
unfoldable pub sanitize_json_schema : Fields → Fields
sanitize_json_schema schema = assemble (entries schema)

-- EnsureObjectRoot
abbrev pub type_text : Option Json → Text
type_text (some (string t)) = t
type_text _ = []

unfoldable pub object_root : Fields → Text → Fields
object_root schema t =
    if text_eq t (codes "object")
    then schema
    else if is_empty t
    then set_field schema (codes "type") (string (codes "object"))
    else field (codes "type") (string (codes "object")) (
        field (codes "properties") (object (field (codes "input") (object schema) no_fields))
          no_fields)

unfoldable pub ensure_object_root : Fields → Fields
ensure_object_root no_fields =
    field (codes "type") (string (codes "object"))
      (field (codes "properties") (object no_fields) no_fields)
ensure_object_root (field k v fs) =
    object_root (field k v fs) (type_text (lookup_field (codes "type") (field k v fs)))
