-- ===== src/Models/Mapping.antt =====
-- internal/models/models.go: the rows of the model table, their `[1m]` suffix, and the built-in
-- table.
use claude_code_kiro_models.Prelude.Int.{ℤ, pos}
use claude_code_kiro_models.Prelude.{
  ℕ, ◌-◌, Bool, not, ◌&&◌, List, [], ◌∷◌, ◌++◌, String, Text, codes, if◌then◌else◌, is_empty,
  length, ltb, take, drop, equal_fold, has_suffix, text_eq,
}

pub record Mapping : Type 0 where
  pub anthropic : Text
  pub kiro : Text
  pub kiro_1m : Text
  pub context_window_size : ℤ
  pub display_name : Text

-- hasSeparate1MSKU
unfoldable pub has_separate_1m_sku : Mapping → Bool
has_separate_1m_sku m = not (is_empty m.kiro_1m) && not (text_eq m.kiro_1m m.kiro)

abbrev pub thinking_suffix : Text
thinking_suffix = codes "[1m]"

abbrev pub one_m_label : Text
one_m_label = codes " (1M context)"

-- display1M
unfoldable pub display_1m : Text → Text
display_1m base = if is_empty base then [] else base ++ one_m_label

-- normalizeThinkingSuffix; the suffix is ASCII, so its four bytes are four runes.
unfoldable pub normalize_thinking_suffix : Text → Text
normalize_thinking_suffix model =
    let suffix_start = length model - length thinking_suffix in
    if ltb (length model) (length thinking_suffix)
    then model
    else if equal_fold (drop suffix_start model) thinking_suffix
    then take suffix_start model ++ thinking_suffix
    else model

-- hasThinkingSuffix
unfoldable pub has_thinking_suffix : Text → Bool
has_thinking_suffix model = has_suffix thinking_suffix (normalize_thinking_suffix model)

abbrev pub default_context_window_size : ℤ
default_context_window_size = pos 200000

abbrev pub thinking_context_window_size : ℤ
thinking_context_window_size = pos 1000000

abbrev pub default_model : Text
default_model = codes "claude-sonnet-4.6"

abbrev pub default_anthropic_model : Text
default_anthropic_model = codes "claude-sonnet-4-6"

abbrev row : String → String → String → ℕ → String → Mapping
row anthropic kiro kiro_1m window name = record {
  anthropic = codes anthropic;
  kiro = codes kiro;
  kiro_1m = codes kiro_1m;
  context_window_size = pos window;
  display_name = codes name;
}

-- modelMapOrdered
unfoldable pub model_map_ordered : List Mapping
model_map_ordered =
    row "claude-opus-5[1m]" "claude-opus-5" "claude-opus-5" 0 "Opus 5"
    ∷ row "claude-opus-4-8[1m]" "claude-opus-4.8" "claude-opus-4.8" 0 "Opus 4.8"
    ∷ row "claude-opus-4-7[1m]" "claude-opus-4.7" "claude-opus-4.7" 0 "Opus 4.7"
    ∷ row "claude-opus-4-6[1m]" "claude-opus-4.6" "claude-opus-4.6" 0 "Opus 4.6"
    ∷ row "claude-sonnet-5[1m]" "claude-sonnet-5" "claude-sonnet-5" 0 "Sonnet 5"
    ∷ row "claude-fable-5-1[1m]" "claude-fable-5.1" "claude-fable-5.1" 0 "Fable 5.1"
    ∷ row "claude-opus-5" "claude-opus-5" "claude-opus-5" 0 ""
    ∷ row "claude-opus-4-8" "claude-opus-4.8" "claude-opus-4.8" 0 ""
    ∷ row "claude-opus-4-7" "claude-opus-4.7" "claude-opus-4.7" 0 ""
    ∷ row "claude-sonnet-5" "claude-sonnet-5" "claude-sonnet-5" 0 ""
    ∷ row "claude-fable-5-1" "claude-fable-5.1" "claude-fable-5.1" 0 ""
    ∷ row "claude-sonnet-4-6" "claude-sonnet-4.6" "claude-sonnet-4.6-1m" 0 "Sonnet 4.6"
    ∷ row "claude-sonnet-4.5" "claude-sonnet-4.5" "claude-sonnet-4.5-1m" 0 ""
    ∷ row "claude-opus-4-6" "claude-opus-4.6" "claude-opus-4.6" 0 ""
    ∷ row "claude-opus-4.5" "claude-opus-4.5" "" 0 ""
    ∷ row "claude-haiku-4.5" "claude-haiku-4.5" "" 0 ""
    ∷ row "gpt-5.6-sol[1m]" "gpt-5.6-sol" "gpt-5.6-sol" 1000000 "GPT 5.6 Sol"
    ∷ row "gpt-5.6-terra[1m]" "gpt-5.6-terra" "gpt-5.6-terra" 1000000 "GPT 5.6 Terra"
    ∷ row "gpt-5.6-luna[1m]" "gpt-5.6-luna" "gpt-5.6-luna" 1000000 "GPT 5.6 Luna"
    ∷ row "gpt-5.6-sol" "gpt-5.6-sol" "" 1000000 ""
    ∷ row "gpt-5.6-terra" "gpt-5.6-terra" "" 1000000 ""
    ∷ row "gpt-5.6-luna" "gpt-5.6-luna" "" 1000000 ""
    ∷ row "claude-gpt-5.6-sol[1m]" "gpt-5.6-sol" "gpt-5.6-sol" 1000000 "GPT 5.6 Sol"
    ∷ row "claude-gpt-5.6-terra[1m]" "gpt-5.6-terra" "gpt-5.6-terra" 1000000 "GPT 5.6 Terra"
    ∷ row "claude-gpt-5.6-luna[1m]" "gpt-5.6-luna" "gpt-5.6-luna" 1000000 "GPT 5.6 Luna"
    ∷ row "claude-gpt-5.6-sol" "gpt-5.6-sol" "" 1000000 "GPT 5.6 Sol"
    ∷ row "claude-gpt-5.6-terra" "gpt-5.6-terra" "" 1000000 "GPT 5.6 Terra"
    ∷ row "claude-gpt-5.6-luna" "gpt-5.6-luna" "" 1000000 "GPT 5.6 Luna"
    ∷ row "claude-auto" "auto" "" 0 "Auto"
    ∷ []

-- envMappings past the JSON decoder: the suffix of each row is made canonical.
unfoldable pub env_mappings : List Mapping → List Mapping
env_mappings [] = []
env_mappings (m ∷ ms) =
    record m { anthropic = normalize_thinking_suffix m.anthropic } ∷ env_mappings ms

-- effectiveMappings
unfoldable pub effective_mappings : List Mapping → List Mapping → List Mapping
effective_mappings overrides discovered =
    if is_empty overrides && is_empty discovered
    then model_map_ordered
    else overrides ++ (model_map_ordered ++ discovered)
