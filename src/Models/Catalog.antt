-- ===== src/Models/Catalog.antt =====
-- internal/models/catalog.go: the rows and effort levels that a discovered catalog adds.
use claude_code_kiro_models.Models.Mapping.{
  Mapping, thinking_suffix, thinking_context_window_size, model_map_ordered,
}
use claude_code_kiro_models.Prelude.Int.{ℤ, ltb_ℤ}
use claude_code_kiro_models.Prelude.{
  ℕ, Bool, true, false, List, [], ◌∷◌, ◌++◌, Text, codes, if◌then◌else◌, is_empty, ◌==◌, map,
  text_eq, starts_with,
}

pub record CatalogModel : Type 0 where
  pub id : Text
  pub max_input_tokens : ℤ
  pub effort_enum : List Text

pub record Catalog : Type 0 where
  pub mappings : List Mapping
  pub efforts : List (Text × List Text)

-- anthropicAlias: each `.` becomes `-`.
unfoldable pub hyphen_for_dot : ℕ → ℕ
hyphen_for_dot r = if r == 46 then 45 else r

unfoldable pub anthropic_alias : Text → Text
anthropic_alias kiro_model = map hyphen_for_dot kiro_model

-- The rows of one model, the `[1m]` row first.
unfoldable pub catalog_rows : CatalogModel → List Mapping
catalog_rows d =
    let alias = anthropic_alias d.id in
    if ltb_ℤ d.max_input_tokens thinking_context_window_size
    then record {
      anthropic = alias;
      kiro = d.id;
      kiro_1m = [];
      context_window_size = d.max_input_tokens;
      display_name = [];
    }
      ∷ []
    else record {
      anthropic = alias ++ thinking_suffix;
      kiro = d.id;
      kiro_1m = d.id;
      context_window_size = d.max_input_tokens;
      display_name = alias;
    }
      ∷ record {
        anthropic = alias;
        kiro = d.id;
        kiro_1m = d.id;
        context_window_size = d.max_input_tokens;
        display_name = [];
      }
      ∷ []

unfoldable pub is_builtin : Text → List Mapping → Bool
is_builtin id [] = false
is_builtin id (m ∷ ms) = if text_eq m.kiro id then true else is_builtin id ms

abbrev pub is_claude : Text → Bool
is_claude id = starts_with id (codes "claude-")

unfoldable pub discovered_rows : List CatalogModel → List Mapping
discovered_rows [] = []
discovered_rows (d ∷ ds) =
    let rest = discovered_rows ds in if is_claude d.id then catalog_rows d ++ rest else rest

-- The entries of the effort map, a later one of the same ID first.
unfoldable pub discovered_efforts :
    List (Text × List Text) → List CatalogModel → List (Text × List Text)
discovered_efforts efforts [] = efforts
discovered_efforts efforts (d ∷ ds) =
    let kept = discovered_efforts efforts ds in
    let with_d = discovered_efforts ((d.id, d.effort_enum) ∷ efforts) ds in
    if is_claude d.id then if is_empty d.effort_enum then kept else with_d else kept

unfoldable pub added_ids : List CatalogModel → List Text
added_ids [] = []
added_ids (d ∷ ds) =
    let rest = added_ids ds in
    if is_claude d.id then if is_builtin d.id model_map_ordered then rest else d.id ∷ rest else rest

-- SetCatalog: the new catalog and the SKUs that are not built in.
unfoldable pub set_catalog : List CatalogModel → Catalog × List Text
set_catalog discovered = (
  record { mappings = discovered_rows discovered; efforts = discovered_efforts [] discovered },
  added_ids discovered,
)
