-- ===== src/Tests/Catalogue.antt =====
-- Requests for the built-in models, and for rows of a client's own.
use claude_code_kiro_models.Models.Listing.Listed.{UniqueIds, Lists, list_models-Lists}
use claude_code_kiro_models.Models.Listing.{add_anthropic, add, list_rows, list_models, is_listed}
use claude_code_kiro_models.Models.Mapping.{
  Mapping, model_map_ordered, thinking_suffix, normalize_thinking_suffix, has_thinking_suffix,
}
use claude_code_kiro_models.Models.Resolve.Upstream.{IsClean, resolve-clean}
use claude_code_kiro_models.Models.Resolve.Window.{resolve-window}
use claude_code_kiro_models.Models.Resolve.{
  route, routed, target, find_base, second_tier, find_exact, first_tier, look_up, resolve,
  is_1m_window,
}
use claude_code_kiro_models.Prelude.Int.{pos}
use claude_code_kiro_models.Prelude.{
  starts_with, fold_rune, equal_fold, text_eq, sym, cut_suffix, Bool, true, false, not, ◌&&◌, List,
  [], ◌∷◌, codes, ◌≡◌, refl, All, InList, has_suffix, trim_suffix, &&_left, &&_right,
}

clean_row : Mapping → Bool
clean_row m = not (has_suffix thinking_suffix m.kiro) && not (has_suffix thinking_suffix m.kiro_1m)

all_clean : List Mapping → Bool
all_clean [] = true
all_clean (m ∷ ms) = clean_row m && all_clean ms

not-true : (b : Bool) → not b ≡ true → b ≡ false
not-true true h = sym h
not-true false h = refl

all_clean-IsClean : (ms : List Mapping) → all_clean ms ≡ true → All IsClean ms
unfolding all_clean clean_row
all_clean-IsClean [] h = tt
all_clean-IsClean (m ∷ ms) h =
    let c = &&_left (clean_row m) (all_clean ms) h in
    (
      (not-true _ (&&_left _ _ c), not-true _ (&&_right _ _ c)),
      all_clean-IsClean ms (&&_right (clean_row m) (all_clean ms) h),
    )

built_in-IsClean : All IsClean model_map_ordered
unfolding all_clean clean_row model_map_ordered has_suffix cut_suffix text_eq
built_in-IsClean = all_clean-IsClean model_map_ordered refl

resolve-clean_example :
    has_suffix thinking_suffix (resolve model_map_ordered (codes "claude-new[1M]") true).kiro_model
    ≡ false
unfolding has_suffix trim_suffix cut_suffix text_eq normalize_thinking_suffix equal_fold fold_rune
resolve-clean_example =
    resolve-clean model_map_ordered (codes "claude-new[1M]") true built_in-IsClean refl

resolve-window_example :
    let r = resolve model_map_ordered (codes "claude-sonnet-4-6[1m]") false in
    (is_1m_window r.context_window_size ≡ true
      → has_suffix thinking_suffix r.anthropic_model ≡ true)
    × ((r.thinking ≡ true → has_thinking_suffix (codes "claude-sonnet-4-6[1m]") ≡ true)
        × (((resolve model_map_ordered (codes "claude-sonnet-4-6[1m]") true).thinking ≡ r.thinking)
            × (is_1m_window r.context_window_size ≡ true
                → is_1m_window
                    (resolve model_map_ordered
                      (codes "claude-sonnet-4-6[1m]")
                      true).context_window_size
                  ≡ true)))
resolve-window_example = resolve-window model_map_ordered (codes "claude-sonnet-4-6[1m]") false

list_models-Lists_example :
    UniqueIds (list_models model_map_ordered)
    × ((m : Mapping) → InList m model_map_ordered → Lists m (list_models model_map_ordered))
list_models-Lists_example = list_models-Lists model_map_ordered

-- A suffix that is doubled reaches upstream.
doubled_suffix :
    (resolve model_map_ordered (codes "claude-x[1m][1m]") false).kiro_model ≡ codes "claude-x[1m]"
unfolding resolve look_up first_tier second_tier find_exact find_base target routed route
    normalize_thinking_suffix equal_fold fold_rune cut_suffix text_eq starts_with model_map_ordered
doubled_suffix = refl

-- A row `custom[1m]` with no 1M SKU is listed, and answered with the window of 200,000.
abbrev custom : Mapping
custom = record {
  anthropic = codes "custom[1m]";
  kiro = codes "kiro-custom";
  kiro_1m = [];
  context_window_size = pos 0;
  display_name = [];
}

custom_listed : is_listed (codes "custom[1m]") (list_models (custom ∷ [])) ≡ true
unfolding list_models list_rows add add_anthropic is_listed has_thinking_suffix has_suffix
    normalize_thinking_suffix equal_fold fold_rune cut_suffix text_eq
custom_listed = refl

custom_window : (resolve (custom ∷ []) (codes "custom[1m]") false).context_window_size ≡ pos 200000
unfolding resolve look_up first_tier find_exact target routed route has_thinking_suffix has_suffix
    normalize_thinking_suffix equal_fold fold_rune cut_suffix text_eq
custom_window = refl
