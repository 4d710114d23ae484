-- ===== src/Reqconv/Dereference.antt =====
-- internal/reqconv/schema_sanitize.go: DereferenceSchema and lookupRef. A map's `seen` is the list of
-- the references that are being followed.
pub mod Ends
pub mod Total
use claude_code_kiro_models.Prelude.{contains}
use claude_code_kiro_models.Prelude.{
  length, ◌++◌, ℕ, zero, suc, ◌+◌, ◌-◌, ◌*◌, ◌%◌, Bool, true, false, not, ◌||◌, ◌&&◌, List, [], ◌∷◌,
  Option, none, some, Text, codes, if◌then◌else◌, is_empty, text_eq, starts_with, drop, leb, ◌==◌,
}
use claude_code_kiro_models.Reqconv.Json.{
  Json, null, boolean, number, string, array, object, Items, no_items, item, Fields, no_fields,
  field, lookup_field, set_field, copy_fields,
}

-- isLocalRef
unfoldable pub is_local_ref : Text → Bool
is_local_ref ref = starts_with ref (codes "#")

-- strings.Split at `/`; a rune that is none belongs to the first part.
abbrev pub join_part : Bool → ℕ → List Text → List Text
join_part true r parts = [] ∷ parts
join_part false r [] = (r ∷ []) ∷ []
join_part false r (p ∷ parts) = (r ∷ p) ∷ parts

unfoldable pub split_slash : Text → List Text
split_slash [] = [] ∷ []
split_slash (r ∷ s) = join_part (r == 47) r (split_slash s)

-- strings.ReplaceAll of `~` and a digit by a rune.
unfoldable pub replace_escape : ℕ → ℕ → Text → Text
replace_escape digit by [] = []
replace_escape digit by (r ∷ []) = r ∷ []
replace_escape digit by (r ∷ d ∷ s) =
    let after = replace_escape digit by s in
    let rest = replace_escape digit by (d ∷ s) in
    if (r == 126) && (d == digit) then by ∷ after else r ∷ rest

unfoldable pub unescape : Text → Text
unescape part = replace_escape 48 126 (replace_escape 49 47 part)

-- What a pointer leads to; `crash` is the panic of an index that has overflowed.
pub data Found : Type 0 where
  missing crash : Found
  found : Json → Found

abbrev pub opt_found : Option Json → Found
opt_found none = missing
opt_found (some v) = found v

-- An index in decimal digits, an int of 64 bits.
unfoldable pub parse_index : ℕ → Text → Option ℕ
parse_index n [] = some n
parse_index n (r ∷ s) =
    let rest = parse_index ((n * 10 + (r - 48)) % 18446744073709551616) s in
    if leb 48 r && leb r 57 then rest else none

unfoldable pub nth_item : Items → ℕ → Found
nth_item no_items n = missing
nth_item (item v is) zero = found v
nth_item (item v is) (suc n) = nth_item is n

-- From 2 ^ 63 on the int is negative: it is below the length, and indexing panics.
unfoldable pub at_index : Items → Option ℕ → Found
at_index is none = missing
at_index is (some n) = if leb 9223372036854775808 n then crash else nth_item is n

unfoldable pub step_into : Json → Text → Found
step_into (object fs) part = opt_found (lookup_field part fs)
step_into (array is) part = at_index is (parse_index 0 part)
step_into _ part = missing

unfoldable pub walk : Found → List Text → Found
walk missing parts = missing
walk crash parts = crash
walk (found v) [] = found v
walk (found v) (p ∷ parts) = walk (step_into v (unescape p)) parts

-- lookupRef of a local reference
unfoldable pub lookup_ref : Fields → Text → Found
lookup_ref root ref =
    walk (found (object root))
      (split_slash (if starts_with ref (codes "#/") then drop 2 ref else ref))

abbrev pub crashes : Found → Bool
crashes crash = true
crashes _ = false

-- What is done with a map: it has no reference, or one that is not followed, or one that panics, or
-- one that is followed.
pub data Plan : Type 0 where
  plain unresolved panics : Plan
  follow : Text → Json → Plan

unfoldable pub found_target : Text → Found → Plan
found_target ref missing = unresolved
found_target ref crash = panics
found_target ref (found target) = follow ref target

unfoldable pub plan_ref : Fields → List Text → Option Json → Plan
plan_ref root seen (some (string ref)) =
    if is_empty ref
    then plain
    else if not (is_local_ref ref) || contains seen ref
    then unresolved
    else found_target ref (lookup_ref root ref)
plan_ref root seen _ = plain

unfoldable pub plan_of : Fields → List Text → Fields → Plan
plan_of root seen m = plan_ref root seen (lookup_field (codes "$ref") m)

-- The keys that are left out.
unfoldable pub leaves_out : Plan → Text → Bool
leaves_out plain k = text_eq k (codes "$defs")
leaves_out unresolved k = text_eq k (codes "$ref")
leaves_out panics k = true
leaves_out (follow ref target) k = text_eq k (codes "$ref") || text_eq k (codes "$defs")

abbrev pub fields_of : Json → Fields
fields_of (object fs) = fs
fields_of _ = no_fields

abbrev pub opt_field : Text → Option Json → Option Fields → Option Fields
opt_field k (some v) (some fs) = some (field k v fs)
opt_field k v fs = none

-- The fields of a map, each with its value once that is resolved; `none` is a panic, or fuel that runs out.
unfoldable pub kept_fields : Plan → List (Text × Option Json) → Option Fields
kept_fields p [] = some no_fields
kept_fields p ((k, o) ∷ es) =
    let rest = kept_fields p es in if leaves_out p k then rest else opt_field k o rest

abbrev pub opt_object : Option Fields → Option Json
opt_object none = none
opt_object (some fs) = some (object fs)

-- The fields of the target, and those of the map over them.
unfoldable pub overlay : Option Json → Option Fields → Option Json
overlay (some t) (some fs) = some (object (copy_fields (fields_of t) fs))
overlay t fs = none

unfoldable pub settle : Plan → (Text → Json → Option Json) → List (Text × Option Json) → Option Json
settle plain follows es = opt_object (kept_fields plain es)
settle unresolved follows es = opt_object (kept_fields unresolved es)
settle panics follows es = none
settle (follow ref target) follows es =
    overlay (follows ref target) (kept_fields (follow ref target) es)

abbrev pub opt_array : Option Items → Option Json
opt_array none = none
opt_array (some is) = some (array is)

abbrev pub opt_item : Option Json → Option Items → Option Items
opt_item (some v) (some is) = some (item v is)
opt_item v is = none

-- `resolve` where `follows` resolves the target of a reference.
module _ (root : Fields) (seen : List Text) (follows : Text → Json → Option Json) where
  unfoldable mutual
    pub resolve_with : Json → Option Json
    resolve_with (object m) = settle (plan_of root seen m) follows (resolve_entries m)
    resolve_with (array is) = opt_array (resolve_items is)
    resolve_with null = some null
    resolve_with (boolean b) = some (boolean b)
    resolve_with (number t) = some (number t)
    resolve_with (string t) = some (string t)

    pub resolve_items : Items → Option Items
    resolve_items no_items = some no_items
    resolve_items (item v is) = opt_item (resolve_with v) (resolve_items is)

    pub resolve_entries : Fields → List (Text × Option Json)
    resolve_entries no_fields = []
    resolve_entries (field k v fs) = (k, resolve_with v) ∷ resolve_entries fs

-- `resolve`; fuel is spent on the references that are followed.
unfoldable pub resolve_node : Fields → ℕ → List Text → Json → Option Json
resolve_node root zero seen node = resolve_with root seen (λ ref target. none) node
resolve_node root (suc fuel) seen node =
    resolve_with root seen (λ ref target. resolve_node root fuel (ref ∷ seen) target) node

-- The texts in a schema, among them its references.
unfoldable mutual
  pub texts_of : Json → List Text
  texts_of (string t) = t ∷ []
  texts_of (array is) = texts_of_items is
  texts_of (object fs) = texts_of_fields fs
  texts_of v = []

  pub texts_of_items : Items → List Text
  texts_of_items no_items = []
  texts_of_items (item v is) = texts_of v ++ texts_of_items is

  pub texts_of_fields : Fields → List Text
  texts_of_fields no_fields = []
  texts_of_fields (field k v fs) = texts_of v ++ texts_of_fields fs

abbrev pub opt_fields : Option Json → Option Fields
opt_fields none = none
opt_fields (some v) = some (fields_of v)

-- DereferenceSchema, with fuel for as many references as the schema has texts.
unfoldable pub dereference_schema : Fields → Option Fields
dereference_schema schema =
    opt_fields (resolve_node schema (length (texts_of_fields schema)) [] (object schema))
