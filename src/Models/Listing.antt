-- ===== src/Models/Listing.antt =====
-- internal/models/models.go: ListModels.
pub mod Listed
use claude_code_kiro_models.Models.Mapping.{
  Mapping, thinking_suffix, has_thinking_suffix, display_1m, has_separate_1m_sku,
}
use claude_code_kiro_models.Models.Resolve.{routes_1m}
use claude_code_kiro_models.Prelude.{
  Bool, true, false, ◌&&◌, ◌||◌, List, [], ◌∷◌, ◌++◌, Text, if◌then◌else◌, is_empty, text_eq,
}

pub record ModelInfo : Type 0 where
  pub id : Text
  pub display_name : Text

unfoldable pub is_listed : Text → List ModelInfo → Bool
is_listed id [] = false
is_listed id (i ∷ is) = if text_eq i.id id then true else is_listed id is

-- `add`; `seen` holds the IDs of `result`.
unfoldable pub add : List ModelInfo → Text → Text → List ModelInfo
add result id display_name =
    if is_empty id || is_listed id result
    then result
    else result ++ (record { id = id; display_name = display_name } ∷ [])

-- The `[1m]` alias, for a model whose 1M window is a SKU of its own and really routes there.
unfoldable pub add_alias : List Mapping → List ModelInfo → Mapping → List ModelInfo
add_alias ms result m =
    let alias = m.anthropic ++ thinking_suffix in
    if has_separate_1m_sku m && routes_1m ms alias
    then add result alias (display_1m m.display_name)
    else result

unfoldable pub add_anthropic : List Mapping → List ModelInfo → Mapping → List ModelInfo
add_anthropic ms result m =
    if has_thinking_suffix m.anthropic
    then add result m.anthropic (display_1m m.display_name)
    else if is_empty m.display_name
    then result
    else add_alias ms (add result m.anthropic m.display_name) m

unfoldable pub list_rows : List Mapping → List ModelInfo → List Mapping → List ModelInfo
list_rows ms result [] = result
list_rows ms result (m ∷ rows) = list_rows ms (add (add_anthropic ms result m) m.kiro []) rows

-- ListModels over the effective mappings.
unfoldable pub list_models : List Mapping → List ModelInfo
list_models ms = list_rows ms [] ms
