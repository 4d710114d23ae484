-- ===== src/Models/Effort.antt =====
-- internal/models/effort.go: which effort level is sent to a model.
pub mod Levels
use claude_code_kiro_models.Prelude.{
  ℕ, Bool, true, false, List, [], ◌∷◌, Option, none, some, Text, codes, if◌then◌else◌, is_empty,
  text_eq, is_some, lookup, contains,
}

pub record EffortCapability : Type 0 where
  pub reasoning : Bool
  pub levels : List Text

unfoldable pub full_effort_levels : List Text
full_effort_levels = codes "low" ∷ codes "medium" ∷ codes "high" ∷ codes "xhigh" ∷ codes "max" ∷ []

unfoldable pub standard_effort_levels : List Text
standard_effort_levels = codes "low" ∷ codes "medium" ∷ codes "high" ∷ codes "max" ∷ []

unfoldable pub reasoning_effort_levels : List Text
reasoning_effort_levels =
    codes "none" ∷ codes "low" ∷ codes "medium" ∷ codes "high" ∷ codes "xhigh" ∷ codes "max" ∷ []

unfoldable pub effort_rank : List (Text × ℕ)
effort_rank =
    (codes "low", 0)
    ∷ (codes "medium", 1)
    ∷ (codes "high", 2)
    ∷ (codes "xhigh", 3)
    ∷ (codes "max", 4)
    ∷ []

-- A level is valid if the rank has a place for it.
unfoldable pub is_ranked : Text → Bool
is_ranked level = is_some (lookup level effort_rank)

abbrev pub claude : List Text → EffortCapability
claude levels = record { reasoning = false; levels = levels }

abbrev pub gpt : EffortCapability
gpt = record { reasoning = true; levels = reasoning_effort_levels }

-- effortCapabilities
unfoldable pub effort_capabilities : List (Text × EffortCapability)
effort_capabilities =
    (codes "claude-opus-5", claude full_effort_levels)
    ∷ (codes "claude-opus-4.8", claude full_effort_levels)
    ∷ (codes "claude-opus-4.7", claude full_effort_levels)
    ∷ (codes "claude-fable-5.1", claude full_effort_levels)
    ∷ (codes "claude-sonnet-5", claude full_effort_levels)
    ∷ (codes "claude-opus-4.6", claude standard_effort_levels)
    ∷ (codes "claude-sonnet-4.6", claude standard_effort_levels)
    ∷ (codes "claude-opus-4.6-1m", claude standard_effort_levels)
    ∷ (codes "claude-sonnet-4.6-1m", claude standard_effort_levels)
    ∷ (codes "gpt-5.6-sol", gpt)
    ∷ (codes "gpt-5.6-terra", gpt)
    ∷ (codes "gpt-5.6-luna", gpt)
    ∷ (codes "auto", claude [])
    ∷ []

-- `effortCapabilities[kiroModel].reasoning`, false for a missing key
abbrev pub reasoning_of : Option EffortCapability → Bool
reasoning_of none = false
reasoning_of (some c) = c.reasoning

-- IsReasoningModel
unfoldable pub is_reasoning_model : Text → Bool
is_reasoning_model kiro_model = reasoning_of (lookup kiro_model effort_capabilities)

-- The levels of a model: the table's, or else the catalog's. No level means no support.
unfoldable pub levels_of : Option EffortCapability → Option (List Text) → List Text
levels_of (some c) enum = c.levels
levels_of none (some enum) = enum
levels_of none none = []

abbrev pub last_of : List Text → Text
last_of [] = []
last_of (t ∷ []) = t
last_of (t ∷ u ∷ ts) = last_of (u ∷ ts)

unfoldable pub clamp_effort : List Text → Text → Text
clamp_effort levels requested =
    if is_empty levels
    then []
    else if contains levels requested
    then requested
    else if is_ranked requested
    then last_of levels
    else []

-- ResolveEffort; `efforts` is the discovered catalog's.
unfoldable pub resolve_effort : List (Text × List Text) → Text → Text → Text
resolve_effort efforts kiro_model requested =
    if is_empty requested
    then []
    else clamp_effort
        (levels_of (lookup kiro_model effort_capabilities) (lookup kiro_model efforts)) requested
