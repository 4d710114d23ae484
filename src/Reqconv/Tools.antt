-- ===== src/Reqconv/Tools.antt =====
-- internal/anthropic/types.go: tools; internal/reqconv/tool_convert.go: ConvertTools, and
-- cache_points.go: ApplyToolCachePoints; internal/toolsearch/context.go: Context.
pub mod Offered
pub mod Keys
pub mod Promotion
use mathlib.Core.Option
use claude_code_kiro_models.Prelude.{
  ℕ, Bool, true, false, ◌||◌, List, [], ◌∷◌, ◌++◌, Option, none, some, Text, codes, if◌then◌else◌,
  is_empty, text_eq, lookup,
}
use claude_code_kiro_models.Reqconv.Dereference.{dereference_schema}
use claude_code_kiro_models.Reqconv.Json.{Fields}
use claude_code_kiro_models.Reqconv.Schema.{sanitize_json_schema, ensure_object_root}
use claude_code_kiro_models.Reqconv.ToolNames.{ToolNameMap, shorten}

-- Tool.Type
pub data ToolType : Type 0 where
  search_regex search_bm25 advisor custom : ToolType

-- `cache_control` says whether the field is there.
pub record Tool : Type 0 where
  pub type : ToolType
  pub name : Text
  pub description : Text
  pub input_schema : Fields
  pub cache_control : Bool
  pub defer_loading : Bool

unfoldable pub is_tool_search_tool : Tool → Bool
is_tool_search_tool t = elim t.type [
  | ToolType.search_regex ↦ true
  | ToolType.search_bm25 ↦ true
  | _ ↦ false
]

abbrev pub is_advisor_tool : ToolType → Bool
is_advisor_tool ToolType.advisor = true
is_advisor_tool _ = false

unfoldable pub is_server_tool : Tool → Bool
is_server_tool t = is_tool_search_tool t || is_advisor_tool t.type

-- CallableTools
unfoldable pub callable_tools : List Tool → List Tool
callable_tools [] = []
callable_tools (t ∷ ts) =
    let rest = callable_tools ts in if is_server_tool t then rest else t ∷ rest

pub record ToolSpecification : Type 0 where
  pub name : Text
  pub description : Text
  pub input_schema : Fields

-- The tools that the proxy adds itself are told by their origin: their text is fixed.
pub data ToolEntry : Type 0 where
  specification : ToolSpecification → ToolEntry
  cache_point tool_search advisor_entry : ToolEntry

-- ApplyToolCachePoints
abbrev pub point_of : Tool → List ToolEntry → List ToolEntry
point_of t rest = if t.cache_control then ToolEntry.cache_point ∷ rest else rest

unfoldable pub apply_tool_cache_points : List Tool → List ToolEntry → List ToolEntry
apply_tool_cache_points [] entries = entries
apply_tool_cache_points (t ∷ ts) [] = point_of t (apply_tool_cache_points ts [])
apply_tool_cache_points (t ∷ ts) (e ∷ es) = e ∷ point_of t (apply_tool_cache_points ts es)

abbrev pub description_of : Tool → Text
description_of t = if is_empty t.description then codes "Tool: " ++ t.name else t.description

-- The entry of a tool, once its schema's references are resolved, before those of the rest.
abbrev pub add_entry :
    Text
    → Tool
    → Option Fields
    → Option (ToolNameMap × List ToolEntry)
    → Option (ToolNameMap × List ToolEntry)
add_entry name t (some schema) (some rest) = some (
  rest.0,
  ToolEntry.specification (record {
    name = name;
    description = description_of t;
    input_schema = ensure_object_root (sanitize_json_schema schema);
  })
      ∷ rest.1,
)
add_entry name t schema rest = none

-- ConvertTools; it is `none` if a schema's reference panics. `hex_digest` is the hexadecimal SHA-256
-- of a name.
module _ (hex_digest : Text → Text) where
  unfoldable pub convert_tools : ToolNameMap → List Tool → Option (ToolNameMap × List ToolEntry)
  convert_tools names [] = some (names, [])
  convert_tools names (t ∷ ts) =
      let r = shorten hex_digest names t.name in
      let rest = convert_tools r.0 ts in add_entry r.1 t (dereference_schema t.input_schema) rest

-- Context: the deferred tools by name, and the active ones.
pub data SearchType : Type 0 where
  regex bm25 : SearchType

pub record Context : Type 0 where
  pub search_type : SearchType
  pub search_tool_name : Text
  pub deferred_tools : List (Text × Tool)
  pub active_tools : List Tool

-- delete on a map
unfoldable pub without : Text → List (Text × Tool) → List (Text × Tool)
without k [] = []
without k ((j, t) ∷ m) = let rest = without k m in if text_eq j k then rest else (j, t) ∷ rest

-- NewContext: the first search tool makes the context.
unfoldable pub search_tool : List Tool → Option Tool
search_tool [] = none
search_tool (t ∷ ts) = let rest = search_tool ts in if is_tool_search_tool t then some t else rest

unfoldable pub sort_tool : Context → Tool → Context
sort_tool c t =
    if is_tool_search_tool t
    then c
    else if t.defer_loading
    then record c { deferred_tools = (t.name, t) ∷ without t.name c.deferred_tools }
    else record c { active_tools = c.active_tools ++ (t ∷ []) }

unfoldable pub sort_tools : Context → List Tool → Context
sort_tools c [] = c
sort_tools c (t ∷ ts) = sort_tools (sort_tool c t) ts

abbrev pub search_type_of : ToolType → SearchType
search_type_of ToolType.search_bm25 = SearchType.bm25
search_type_of _ = SearchType.regex

abbrev pub empty_context : Tool → Context
empty_context t = record {
  search_type = search_type_of t.type;
  search_tool_name = t.name;
  deferred_tools = [];
  active_tools = [];
}

unfoldable pub new_context : List Tool → Option Context
new_context tools =
    Option.map (λ (t : Tool). sort_tools (empty_context t) tools) (search_tool tools)

-- PromoteTools
unfoldable pub promote_found : Context → Text → Option Tool → Context
promote_found c name none = c
promote_found c name (some t) = record c {
  active_tools = c.active_tools ++ (t ∷ []);
  deferred_tools = without name c.deferred_tools;
}

unfoldable pub promote_tools : Context → List Text → Context
promote_tools c [] = c
promote_tools c (name ∷ names) =
    promote_tools (promote_found c name (lookup name c.deferred_tools)) names
