-- ===== src/Reqconv/ToolResults.antt =====
-- internal/reqconv/tool_results.go: ReorderToolResults.
pub mod Reorder
use claude_code_kiro_models.Prelude.{
  Bool, true, false, not, ◌||◌, List, [], ◌∷◌, ◌++◌, Option, none, some, String, Text, text_eq, ltb,
  length, is_empty, if◌then◌else◌,
}

-- The JSON object of a ToolResultContent, whose other field is not used.
pub record ResultContent : Type 0 where
  pub exit_status : Text
  pub stdout : Text
  pub stderr : Text

pub record ToolResult : Type 0 where
  pub tool_use_id : Text
  pub status : String
  pub content : List ResultContent

-- `index`: the last result of each id.
unfoldable pub last_with : Text → List ToolResult → Option ToolResult
last_with id [] = none
last_with id (r ∷ results) = elim (last_with id results) [
  | some later ↦ some later
  | none ↦ if text_eq r.tool_use_id id then some r else none
]

-- The loop over the ids.
abbrev pub append_found : Option ToolResult → List ToolResult → List ToolResult
append_found none rest = rest
append_found (some r) rest = r ∷ rest

unfoldable pub by_id : List ToolResult → List Text → List ToolResult
by_id results [] = []
by_id results (id ∷ ids) = append_found (last_with id results) (by_id results ids)

-- `used`: an id of the list that some result has. The results that are looked up have their ids there.
unfoldable pub is_used : Text → List Text → Bool
is_used id [] = false
is_used id (x ∷ ids) = let rest = is_used id ids in if text_eq id x then true else rest

-- The loop over the results.
unfoldable pub unused : List Text → List ToolResult → List ToolResult
unused ids [] = []
unused ids (r ∷ results) =
    let rest = unused ids results in if is_used r.tool_use_id ids then rest else r ∷ rest

-- ReorderToolResults
unfoldable pub reorder_tool_results : List ToolResult → List Text → List ToolResult
reorder_tool_results results ids =
    if ltb (length results) 2 || is_empty ids
    then results
    else by_id results ids ++ unused ids results
