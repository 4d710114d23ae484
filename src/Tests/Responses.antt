-- ===== src/Tests/Responses.antt =====
-- Tool calls of a reply and its JSON response.
use claude_code_kiro_models.Kiroproto.Event.{Event, EventType, event}
use claude_code_kiro_models.Prelude.Int.{ℤ, pos}
use claude_code_kiro_models.Prelude.Numbers.{Float64}
use claude_code_kiro_models.Prelude.{
  text_eq, ℕ, Bool, true, false, List, [], ◌∷◌, ◌++◌, Option, some, String, Text, codes, ◌≡◌, refl,
  inl, InList, All,
}
use claude_code_kiro_models.Respconv.Accumulator.Delivery.{texts, thoughts}
use claude_code_kiro_models.Respconv.Accumulator.{process_events, finalize_stream}
use claude_code_kiro_models.Respconv.NonStreaming.Content.{
  text_of, thinking_of, build_non_streaming_response-texts,
}
use claude_code_kiro_models.Respconv.NonStreaming.ToolUse.{
  has_tool_use_block, build_non_streaming_response-has_tool_use_block,
}
use claude_code_kiro_models.Respconv.NonStreaming.{
  Response, NonStreamingStats, build_non_streaming_response,
}
use claude_code_kiro_models.Respconv.State.{ToolCall, new_accumulator}
use claude_code_kiro_models.Respconv.Stop.{StopReason}
use claude_code_kiro_models.Respconv.ToolCalls.Distinct.{
  DistinctKeys, IsAmong, deduplicate_tool_calls-distinct, deduplicate_tool_calls-IsAmong,
}
use claude_code_kiro_models.Respconv.ToolCalls.Longest.{DistinctIds, Outlasts}
use claude_code_kiro_models.Respconv.ToolCalls.{
  rune_len, byte_length, longer_of, keep_longest, dedupe_by_id, key, is_seen, dedupe_by_key,
  deduplicate_tool_calls,
}

abbrev same_text : Text → Text
same_text t = t

abbrev call : String → String → ToolCall
call id input = record { id = id; name = "ls"; input = codes input }

abbrev three_calls : List ToolCall
three_calls = call "a" "{" ∷ call "a" "{}" ∷ call "b" "{}" ∷ []

three_calls_kept : deduplicate_tool_calls same_text three_calls ≡ call "a" "{}" ∷ []
unfolding deduplicate_tool_calls dedupe_by_key dedupe_by_id keep_longest longer_of is_seen
    byte_length rune_len text_eq
three_calls_kept = refl

deduplicate_tool_calls-distinct_example :
    All (λ x. InList x three_calls) (deduplicate_tool_calls same_text three_calls)
    × (DistinctIds (deduplicate_tool_calls same_text three_calls)
        × DistinctKeys same_text (deduplicate_tool_calls same_text three_calls))
deduplicate_tool_calls-distinct_example = deduplicate_tool_calls-distinct same_text three_calls

deduplicate_tool_calls-IsAmong_example :
    (x : ToolCall) × (InList x three_calls
      × (Outlasts (call "a" "{") x
          × IsAmong same_text (key same_text x) (deduplicate_tool_calls same_text three_calls)))
deduplicate_tool_calls-IsAmong_example =
    deduplicate_tool_calls-IsAmong same_text three_calls (call "a" "{") (inl refl)

-- Decoded values are the texts themselves.
abbrev as_text : Text → Option Text
as_text t = some t

abbrev no_tokens : Float64 → ℤ → ℕ
no_tokens percentage window = 0

abbrev every_text : Text → Bool
every_text t = true

abbrev reply : List Event
reply =
    record (event EventType.reasoning_content) { thinking_text = codes "hm" }
    ∷ record (event EventType.assistant_response) { content = codes "yes" }
    ∷ record (event EventType.tool_use) {
      tool_name = "ls";
      tool_use_id = "a";
      tool_input = codes "{}";
      tool_stop = true;
    }
    ∷ []

abbrev response : Response Text × NonStreamingStats
response =
    build_non_streaming_response as_text [] same_text no_tokens every_text reply "m" (pos 200000) []
      (pos 100) (pos 7)

build_non_streaming_response-texts_example :
    let q = process_events every_text (new_accumulator (pos 200000) [] (pos 100) (pos 7)) reply in
    let f = finalize_stream q.0 in
    (text_of response.0.content ≡ texts q.1 ++ f.1.text_delta)
    × (thinking_of response.0.content ≡ thoughts q.1 ++ f.1.thinking_delta)
build_non_streaming_response-texts_example =
    build_non_streaming_response-texts as_text [] same_text no_tokens every_text reply "m"
      (pos 200000) [] (pos 100) (pos 7)

build_non_streaming_response-has_tool_use_block_example :
    (response.0.stop_reason ≡ StopReason.tool_use → has_tool_use_block response.0.content ≡ true)
    × (response.0.stop_reason ≡ StopReason.end_turn → has_tool_use_block response.0.content ≡ false)
build_non_streaming_response-has_tool_use_block_example =
    build_non_streaming_response-has_tool_use_block as_text [] same_text no_tokens every_text reply
      "m" (pos 200000) [] (pos 100) (pos 7)
