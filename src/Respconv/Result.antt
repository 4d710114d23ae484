-- ===== src/Respconv/Result.antt =====
-- internal/respconv/usage.go, finalize.go and resolveStopReason: what a response reports.
pub mod Reason
pub mod Tokens
use claude_code_kiro_models.Prelude.Int.{ℤ, pos, ltb_ℤ}
use claude_code_kiro_models.Prelude.Numbers.{Float64}
use claude_code_kiro_models.Prelude.{
  ◌-◌, ℕ, ◌/◌, max, Bool, ◌&&◌, Option, none, some, Text, if◌then◌else◌, ◌==◌,
}
use claude_code_kiro_models.Respconv.Accumulator.{finalize_stream}
use claude_code_kiro_models.Respconv.State.{Accumulator, EventDelta, has_usable_token_counts}
use claude_code_kiro_models.Respconv.Stop.{StopReason}

-- resolveStopReason; `none` is the null stop_sequence.
unfoldable pub stop_reason_of : Option StopReason → Text → Bool → StopReason × Option Text
stop_reason_of (some StopReason.stop_sequence) matched tool_use =
    (StopReason.stop_sequence, some matched)
stop_reason_of (some reason) matched tool_use = (reason, none)
stop_reason_of none matched tool_use =
    (if tool_use then StopReason.tool_use else StopReason.end_turn, none)

unfoldable pub resolve_stop_reason : Accumulator → StopReason × Option Text
unfolding stop_reason_of
resolve_stop_reason a = stop_reason_of a.stop.reason a.stop.matched a.has_tool_use

-- estimatedOutputTokens
unfoldable pub estimated_output_tokens : Accumulator → ℕ
estimated_output_tokens a =
    if a.stop.output_rune_count == 0 then 0 else max 1 (a.stop.output_rune_count / 4)

-- UsageMap
pub record Usage : Type 0 where
  pub input_tokens : ℤ
  pub output_tokens : ℤ
  pub cache_read_input_tokens : ℤ
  pub cache_creation_input_tokens : ℤ

unfoldable pub usage_map : Accumulator → ℤ → ℤ → Usage
usage_map a input output = record {
  input_tokens = input;
  output_tokens = output;
  cache_read_input_tokens = a.cache_read_input_tokens;
  cache_creation_input_tokens = a.cache_write_input_tokens;
}

pub record FinalResult : Type 0 where
  pub stop_reason : StopReason
  pub stop_sequence : Option Text
  pub input_tokens : ℤ
  pub output_tokens : ℤ
  pub usage : Usage

-- `tokens_used pct window` stands for `int(max(0, min(100, pct)) / 100 * float64(window))`.
module _ (tokens_used : Float64 → ℤ → ℕ) where
  -- resolvedUsage
  unfoldable pub resolved_usage : Accumulator → ℤ × ℤ
  unfolding estimated_output_tokens
  resolved_usage a =
      let output = estimated_output_tokens a in
      if has_usable_token_counts a.input_tokens a.output_tokens
      then (a.input_tokens, a.output_tokens)
      else if ltb_ℤ (pos 0) a.pre_counted_input_tokens
      then (a.pre_counted_input_tokens, pos output)
      else if a.has_context_usage && ltb_ℤ (pos 0) a.context_window_size
      then (pos (tokens_used a.context_usage_percentage a.context_window_size - output), pos output)
      else (pos 0, pos 0)

  -- finalizeResult
  unfoldable pub finalize_result : Accumulator → Accumulator × EventDelta × FinalResult
  unfolding usage_map
  finalize_result a =
      let (b, d) = finalize_stream a in
      let (reason, matched) = resolve_stop_reason b in
      let (input, output) = resolved_usage b in
      (
        b,
        d,
        record {
          stop_reason = reason;
          stop_sequence = matched;
          input_tokens = input;
          output_tokens = output;
          usage = usage_map b input output;
        },
      )
