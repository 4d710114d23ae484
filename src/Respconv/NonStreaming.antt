-- ===== src/Respconv/NonStreaming.antt =====
-- internal/respconv/nonstreaming.go: the JSON response. NonStreamingAccumulator wraps the
-- accumulator and hands its calls on, so it is the accumulator here.
pub mod Content
pub mod ToolUse
use claude_code_kiro_models.Kiroproto.Event.{Event}
use claude_code_kiro_models.Prelude.Int.{ℤ}
use claude_code_kiro_models.Prelude.Numbers.{Float64}
use claude_code_kiro_models.Prelude.{
  ℕ, Bool, List, [], ◌∷◌, ◌++◌, Option, none, some, String, Text, if◌then◌else◌, is_empty, map,
}
use claude_code_kiro_models.Respconv.Accumulator.{process_events}
use claude_code_kiro_models.Respconv.Result.{FinalResult, Usage, finalize_result}
use claude_code_kiro_models.Respconv.State.{ToolCall, Accumulator, new_accumulator}
use claude_code_kiro_models.Respconv.Stop.{StopReason}
use claude_code_kiro_models.Respconv.ToolCalls.{deduplicate_tool_calls}

-- NonStreamingStats
pub record NonStreamingStats : Type 0 where
  pub input_tokens : ℤ
  pub output_tokens : ℤ
  pub has_context_usage : Bool
  pub context_usage_percentage : Float64
  pub has_credits : Bool
  pub credits : Float64

-- statsFromAcc
unfoldable pub stats_from_acc : Accumulator → FinalResult → NonStreamingStats
stats_from_acc acc res = record {
  input_tokens = res.input_tokens;
  output_tokens = res.output_tokens;
  has_context_usage = acc.has_context_usage;
  context_usage_percentage = acc.context_usage_percentage;
  has_credits = acc.has_credits;
  credits = acc.credits;
}

-- The blocks of the content. `Json` is the type of decoded values.
pub data ContentBlock (Json : Type 0) : Type 0 where
  redacted_thinking : Text → ContentBlock Json
  thinking : Text → Option Text → ContentBlock Json
  text : Text → ContentBlock Json
  tool_use : String → String → Json → ContentBlock Json

-- The response of one message; its id is uuid.New().
pub record Response (Json : Type 0) : Type 0 where
  pub content : List (ContentBlock Json)
  pub model : String
  pub stop_reason : StopReason
  pub stop_sequence : Option Text
  pub usage : Usage

abbrev pub optional : Text → Option Text
optional t = if is_empty t then none else some t

unfoldable pub thinking_blocks : {Json : Type 0} → Text → Text → List (ContentBlock Json)
thinking_blocks t signature = if is_empty t then [] else thinking t (optional signature) ∷ []

unfoldable pub text_blocks : {Json : Type 0} → Text → List (ContentBlock Json)
text_blocks t = if is_empty t then [] else text t ∷ []

-- json.Unmarshal of a tool's input, and `map[string]any{}`.
module _ {Json : Type 0} (decode : Text → Option Json) (empty_object : Json) where
  abbrev pub input_of : Option Json → Json
  input_of none = empty_object
  input_of (some v) = v

  unfoldable pub tool_use_block : ToolCall → ContentBlock Json
  tool_use_block c = tool_use c.id c.name (input_of (decode c.input))

  unfoldable pub content_of : Accumulator → List ToolCall → List (ContentBlock Json)
  content_of acc calls =
      map redacted_thinking acc.redacted_contents
      ++ (thinking_blocks acc.thinking_buf acc.signature
          ++ (text_blocks acc.text_buf ++ map tool_use_block calls))

  module _ (normalize : Text → Text) (tokens_used : Float64 → ℤ → ℕ) where
    -- buildResponseFromAcc
    unfoldable pub build_response_from_acc :
        Accumulator → String → Response Json × NonStreamingStats
    build_response_from_acc a model =
        let (b, d, res) = finalize_result tokens_used a in
        (
          record {
            content = content_of b (deduplicate_tool_calls normalize b.tool_calls);
            model = model;
            stop_reason = res.stop_reason;
            stop_sequence = res.stop_sequence;
            usage = res.usage;
          },
          stats_from_acc b res,
        )

    -- BuildNonStreamingResponse
    unfoldable pub build_non_streaming_response :
        (Text → Bool)
        → List Event
        → String
        → ℤ
        → List Text
        → ℤ
        → ℤ
        → Response Json × NonStreamingStats
    build_non_streaming_response is_valid events model window stop_sequences max_tokens
          pre_counted =
        let a = new_accumulator window stop_sequences max_tokens pre_counted in
        build_response_from_acc (process_events is_valid a events).0 model

-- FinalizeText
unfoldable pub finalize_text :
    (Float64 → ℤ → ℕ) → Accumulator → Text × StopReason × NonStreamingStats
finalize_text tokens_used a =
    let (b, d, res) = finalize_result tokens_used a in
    (b.text_buf, res.stop_reason, stats_from_acc b res)
