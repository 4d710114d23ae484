-- ===== src/Messages/Effort/Precedence.antt =====
-- The effort of a request against the levels of its model.
use claude_code_kiro_models.Messages.Effort.{ThinkingConfig, type_is, [], Request}
use claude_code_kiro_models.Models.Effort.{is_reasoning_model}
use claude_code_kiro_models.Prelude.{contains}
use claude_code_kiro_models.Prelude.Int.{ℤ, pos}
use claude_code_kiro_models.Prelude.{
  ℕ, ◌<◌, ◌≤◌, ◌≢◌, some, none, false, true, List, Text, codes, ◌≡◌, ◌⊎◌,
}

-- No effort, or one of the levels.
abbrev pub IsLevel : List Text → Text → Type 0
IsLevel levels sent = (sent ≡ []) ⊎ (contains levels sent ≡ true)

-- The level that stands for a thinking budget.
pub data Stands : ℤ → Text → Type 0 where
  low : {n : ℕ} → 0 < n → n < 4000 → Stands (pos n) (codes "low")
  medium : {n : ℕ} → 4000 ≤ n → n < 10000 → Stands (pos n) (codes "medium")
  high : {n : ℕ} → 10000 ≤ n → n < 20000 → Stands (pos n) (codes "high")
  xhigh : {n : ℕ} → 20000 ≤ n → n < 32000 → Stands (pos n) (codes "xhigh")
  most : {n : ℕ} → 32000 ≤ n → Stands (pos n) (codes "max")

-- What a request asks for first: `none` where a reasoning model is not to think; then the effort
-- that KIROCC_FORCE_EFFORT gives, unless thinking is disabled; then the request's own; then the one
-- that stands for its budget.
pub data Asks (kiro_model forced : Text) (r : Request) : Text → Type 0 where
  no_thinking :
      is_reasoning_model kiro_model ≡ true
      → type_is r.thinking (codes "disabled") ≡ true
      → Asks kiro_model forced r (codes "none")
  by_force :
      forced ≢ [] → type_is r.thinking (codes "disabled") ≡ false → Asks kiro_model forced r forced
  by_itself :
      {e : Text}
      → forced ≡ []
      → type_is r.thinking (codes "disabled") ≡ false
      → e ≢ []
      → r.output_config ≡ some e
      → Asks kiro_model forced r e
  by_thinking :
      {c : ThinkingConfig} {t : Text}
      → forced ≡ []
      → type_is r.thinking (codes "disabled") ≡ false
      → r.output_config ≡ none
      → r.thinking ≡ some c
      → Stands c.budget_tokens t
      → Asks kiro_model forced r t
