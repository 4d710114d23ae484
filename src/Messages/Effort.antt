-- ===== src/Messages/Effort.antt =====
-- internal/app/messages/effort.go, and the parts of internal/anthropic/types.go's Request that it
-- reads: the effort level that a request is sent with.
pub mod Precedence
use claude_code_kiro_models.Models.Effort as Models
use claude_code_kiro_models.Models.Effort.{is_reasoning_model}
use claude_code_kiro_models.Prelude.Int.{ℤ, pos, ltb_ℤ}
use claude_code_kiro_models.Prelude.{
  [], Bool, true, false, not, ◌&&◌, ◌||◌, List, Option, none, some, Text, codes, if◌then◌else◌,
  is_empty, text_eq,
}

-- ThinkingConfig
pub record ThinkingConfig : Type 0 where
  pub thinking_type : Text
  pub budget_tokens : ℤ

-- Request: `thinking`, and `output_config` with its effort.
pub record Request : Type 0 where
  pub thinking : Option ThinkingConfig
  pub output_config : Option Text

abbrev pub type_is : Option ThinkingConfig → Text → Bool
type_is none t = false
type_is (some c) t = text_eq c.thinking_type t

-- IsThinkingEnabled
unfoldable pub is_thinking_enabled : Request → Bool
is_thinking_enabled r =
    type_is r.thinking (codes "enabled") || type_is r.thinking (codes "adaptive")

-- IsThinkingDisabled
unfoldable pub is_thinking_disabled : Request → Bool
is_thinking_disabled r = type_is r.thinking (codes "disabled")

abbrev pub or_empty : Option Text → Text
or_empty none = []
or_empty (some t) = t

-- Request.Effort
unfoldable pub effort : Request → Text
effort r = or_empty r.output_config

-- effortForBudget
unfoldable pub effort_for_budget : ℤ → Text
effort_for_budget budget =
    if ltb_ℤ budget (pos 4000)
    then codes "low"
    else if ltb_ℤ budget (pos 10000)
    then codes "medium"
    else if ltb_ℤ budget (pos 20000)
    then codes "high"
    else if ltb_ℤ budget (pos 32000)
    then codes "xhigh"
    else codes "max"

abbrev pub default_thinking_effort : Text
default_thinking_effort = codes "max"

abbrev pub budget_of : Option ThinkingConfig → ℤ
budget_of none = pos 0
budget_of (some c) = c.budget_tokens

-- `a` if it is not empty
abbrev pub or_next : Text → Text → Text
or_next a b = if is_empty a then b else a

-- `efforts` is the discovered catalog's; `forced` is KIROCC_FORCE_EFFORT, trimmed and in lower case.
module _ (efforts : List (Text × List Text)) (kiro_model forced : Text) where
  abbrev pub resolved : Text → Text
  resolved requested = Models.resolve_effort efforts kiro_model requested

  unfoldable pub without_budget : Bool → Text
  without_budget thinking =
      if is_reasoning_model kiro_model
      then []
      else if thinking
      then resolved default_thinking_effort
      else []

  unfoldable pub by_budget : Request → Bool → Text
  by_budget r thinking =
      if ltb_ℤ (pos 0) (budget_of r.thinking)
      then or_next (resolved (effort_for_budget (budget_of r.thinking))) (without_budget thinking)
      else without_budget thinking

  unfoldable pub by_request : Request → Bool → Text
  by_request r thinking =
      if is_reasoning_model kiro_model && is_thinking_disabled r
      then resolved (codes "none")
      else if is_empty (effort r)
      then by_budget r thinking
      else resolved (effort r)

  -- resolveEffort
  unfoldable pub resolve_effort : Request → Bool → Text
  resolve_effort r thinking =
      if not (is_empty forced) && not (is_thinking_disabled r)
      then or_next (resolved forced) (by_request r thinking)
      else by_request r thinking
