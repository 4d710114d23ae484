-- ===== src/Respconv/Accumulator.antt =====
-- internal/respconv/accumulator.go, event_processor.go, reasoning.go: what an event, and the end of
-- the stream, do to the state that one response collects.
pub mod Delivery
pub mod Latch
pub mod Overrun
pub mod Thoughts
use text.Mathlib.Text.{◌==◌ as str_eq}
use claude_code_kiro_models.Kiroproto.Event.{Event, EventType, error_text}
use claude_code_kiro_models.Prelude.Int.{ℤ, pos, negsuc, max_ℤ, ltb_ℤ}
use claude_code_kiro_models.Prelude.Numbers.{Float64, finite, is_usable}
use claude_code_kiro_models.Prelude.{
  ◌++◌, Bool, true, false, not, ◌&&◌, ◌||◌, List, [], ◌∷◌, Option, none, some, String, Text,
  is_empty, if◌then◌else◌,
}
use claude_code_kiro_models.Respconv.Stop.{
  StopReason, StopState, apply_max_tokens_budget, apply_stop_sequence_filter,
  accumulate_opaque_output, flush_stop_seq_pending, init_stop_sequences,
}
use claude_code_kiro_models.Respconv.ThinkingTags.{
  TagState, Routed, parse_thinking_tags, finalize_thinking_tags,
}
use claude_code_kiro_models.Respconv.State.{
  ToolCall, EventDelta, no_delta, Accumulator, new_accumulator, lookup_name, has_name,
  has_usable_token_counts, is_empty_visible_end_turn,
}

abbrev pub signal : Accumulator → EventDelta → EventDelta
signal a d =
    if a.stop.local_stop then record d { stop_signal = true; stop_reason = a.stop.reason } else d

-- accumulateThinking
unfoldable pub accumulate_thinking : Accumulator → Text → EventDelta → Accumulator × EventDelta
accumulate_thinking a thought d =
    let (s, out) = apply_max_tokens_budget a.stop thought in
    let b = record a { stop = s; thinking_buf = a.thinking_buf ++ out } in
    (b, signal b (if is_empty out then d else record d { thinking_delta = out }))

-- The text part that ProcessEvent and FinalizeStream share: stop sequences, budget, TextBuf.
unfoldable pub filter_text : StopState → Text → StopState × Text
filter_text s text =
    if is_empty s.stop_sequences then (s, text) else apply_stop_sequence_filter s text

unfoldable pub limit_text : StopState → Text → StopState × Text
limit_text s text =
    if is_empty text || s.local_stop then (s, text) else apply_max_tokens_budget s text

unfoldable pub accumulate_text : Accumulator → Text → Accumulator × Text
accumulate_text a text =
    let (s, filtered) = filter_text a.stop text in
    let (s', out) = limit_text s filtered in
    (record a { has_text = true; stop = s'; text_buf = a.text_buf ++ out }, out)

-- accumulateRedacted
unfoldable pub accumulate_redacted : Accumulator → Text → EventDelta → Accumulator × EventDelta
accumulate_redacted a blob d =
    if is_empty blob
    then (a, d)
    else let b = record a {
      redacted_contents = a.redacted_contents ++ (blob ∷ []);
      stop = accumulate_opaque_output a.stop blob;
    } in
      (b, signal b (record d { redacted_content = blob }))

-- EventAssistantResponse, past its guard: the tag parser, then the thinking, then the text.
unfoldable pub route_thinking : Accumulator → Text → EventDelta → Accumulator × EventDelta
route_thinking a thinking d = if is_empty thinking then (a, d) else accumulate_thinking a thinking d

unfoldable pub route_text : Accumulator → Text → EventDelta → Accumulator × EventDelta
route_text a text d =
    let (b, out) = accumulate_text a text in
    if is_empty text then (a, d) else (b, if is_empty out then d else record d { text_delta = out })

abbrev pub content_delta : Routed → EventDelta
content_delta r = record no_delta {
  has_assistant_content =
      not (is_empty r.text_out) || not (is_empty r.thinking_out) || not (is_empty r.state.buf);
}

unfoldable pub process_content : Accumulator → Text → Accumulator × EventDelta
process_content a content =
    let r = parse_thinking_tags a.tags content in
    let (b, d') = route_thinking (record a { tags = r.state }) r.thinking_out (content_delta r) in
    let (c, d'') = route_text b r.text_out d' in
    (c, if c.stop.local_stop then record (signal c d'') { stop_sequence = c.stop.matched } else d'')

unfoldable pub process_assistant_response : Accumulator → Event → Accumulator × EventDelta
process_assistant_response a e =
    if is_empty e.content || a.stop.local_stop then (a, no_delta) else process_content a e.content

-- EventReasoningContent
unfoldable pub process_reasoning_content : Accumulator → Event → Accumulator × EventDelta
process_reasoning_content a e =
    let b = record a { signature = if is_empty e.signature then a.signature else e.signature } in
    if not (is_empty e.redacted_content)
    then accumulate_redacted b e.redacted_content no_delta
    else if a.tags.suppress
    then (b, no_delta)
    else if is_empty e.thinking_text || a.stop.local_stop
    then (b, no_delta)
    else accumulate_thinking b e.thinking_text no_delta

-- EventMetadata
unfoldable pub process_metadata : Accumulator → Event → Accumulator
unfolding has_usable_token_counts
process_metadata a e =
    if has_usable_token_counts e.input_tokens e.output_tokens
    then record a {
      has_metadata = true;
      input_tokens = max_ℤ (pos 0) e.input_tokens;
      output_tokens = max_ℤ (pos 0) e.output_tokens;
      cache_read_input_tokens = max_ℤ (pos 0) e.cache_read_input_tokens;
      cache_write_input_tokens = max_ℤ (pos 0) e.cache_write_input_tokens;
    }
    else record a {
      cache_read_input_tokens = max_ℤ a.cache_read_input_tokens e.cache_read_input_tokens;
      cache_write_input_tokens = max_ℤ a.cache_write_input_tokens e.cache_write_input_tokens;
    }

-- EventMetering
unfoldable pub meter_credits : Accumulator → Float64 → Accumulator
unfolding is_usable
meter_credits a credits =
    if is_usable credits then record a { has_credits = true; credits = credits } else a

unfoldable pub process_metering : Accumulator → Event → Accumulator
unfolding has_usable_token_counts meter_credits
process_metering a e =
    let b = meter_credits a e.credits in
    if not a.has_metadata && has_usable_token_counts e.input_tokens e.output_tokens
    then record b {
      input_tokens = max_ℤ (pos 0) e.input_tokens;
      output_tokens = max_ℤ (pos 0) e.output_tokens;
    }
    else b

abbrev pub or_same : Option String → String → String
or_same none name = name
or_same (some original) name = original

-- The name that the client knows a tool by.
unfoldable pub restored_name : Accumulator → String → String
unfolding lookup_name
restored_name a name = or_same (lookup_name name a.tool_name_map) name

abbrev pub tool_delta : Event → String → EventDelta
tool_delta e name = record no_delta {
  tool_stop = true;
  tool_use_id = e.tool_use_id;
  tool_name = name;
  tool_input = e.tool_input;
}

-- `is_valid` stands for jsontext.Value.IsValid.
module _ (is_valid : Text → Bool) where
  unfoldable pub record_tool_call : Accumulator → Event → String → Accumulator
  record_tool_call a e name = record a {
    has_tool_use = true;
    tool_parse_error = if is_valid e.tool_input then a.tool_parse_error else true;
    stop = accumulate_opaque_output a.stop e.tool_input;
    tool_calls =
        a.tool_calls ++ (record { id = e.tool_use_id; name = name; input = e.tool_input } ∷ []);
  }

  -- processToolUseEvent
  unfoldable pub process_tool_use_event : Accumulator → Event → Accumulator × EventDelta
  unfolding has_name
  process_tool_use_event a e =
      let name = restored_name a e.tool_name in
      let b = record_tool_call a e name in
      if not e.tool_stop || a.stop.local_stop
      then (a, no_delta)
      else if has_name e.tool_name a.drop_tool_names
      then (a, tool_delta e name)
      else (b, signal b (tool_delta e name))

  unfoldable pub process_by_type : EventType → Accumulator → Event → Accumulator × EventDelta
  process_by_type EventType.assistant_response a e = process_assistant_response a e
  process_by_type EventType.reasoning_content a e = process_reasoning_content a e
  process_by_type EventType.tool_use a e = process_tool_use_event a e
  process_by_type EventType.metadata a e = (process_metadata a e, no_delta)
  process_by_type EventType.metering a e = (process_metering a e, no_delta)
  process_by_type EventType.message_metadata a e =
      (record a { conversation_id = e.conversation_id }, no_delta)
  process_by_type EventType.context_usage a e = (
    record a { has_context_usage = true; context_usage_percentage = e.context_usage_percentage },
    no_delta,
  )
  process_by_type EventType.invalid_state a e =
      (a, record no_delta { is_error = true; error_message = error_text e })
  process_by_type EventType.exception a e =
      (a, record no_delta { is_error = true; error_message = error_text e })
  process_by_type _ a e = (a, no_delta)

  -- ProcessEvent
  unfoldable pub process_event : Accumulator → Event → Accumulator × EventDelta
  unfolding process_by_type
  process_event a e = process_by_type e.type a e

  -- ProcessEvent on one event after another, with the EventDelta of each.
  unfoldable pub process_events : Accumulator → List Event → Accumulator × List EventDelta
  process_events a [] = (a, [])
  process_events a (e ∷ es) =
      let r = process_event a e in let rest = process_events r.0 es in (rest.0, r.1 ∷ rest.1)

-- The first half of FinalizeStream: what the tag parser still holds.
unfoldable pub finalize_tags : Accumulator → Accumulator × EventDelta
finalize_tags a =
    let r = finalize_thinking_tags a.tags in
    let (b, d) = route_thinking (record a { tags = r.state }) r.thinking_out no_delta in
    route_text b r.text_out d

-- FinalizeStream; the deltas are the fields text_delta and thinking_delta.
unfoldable pub finalize_stream : Accumulator → Accumulator × EventDelta
finalize_stream a =
    let (b, d) = finalize_tags a in
    let (s, remaining) = flush_stop_seq_pending b.stop in
    let (s', out) = apply_max_tokens_budget s remaining in
    if is_empty remaining || s.local_stop then (record b { stop = s }, d) else (
      record b { stop = s'; text_buf = b.text_buf ++ out },
      record d { text_delta = d.text_delta ++ out },
    )
