-- ===== src/Kiroproto/Stream.antt =====
-- internal/kiroproto/eventstream.go: ParseStream. What arrives is the result of readFrame, with the
-- payload as the JSON library decodes it into the struct of the frame's event type.
pub mod Delivery
use claude_code_kiro_models.Kiroproto.Event.{Event, EventType, event}
use claude_code_kiro_models.Kiroproto.ToolUse.{Payload, ToolUseAccumulator, update, flush}
use mathlib.Core.Option
use claude_code_kiro_models.Prelude.Int.{ℤ, ◌+ℤ◌}
use claude_code_kiro_models.Prelude.Numbers.{Float64}
use claude_code_kiro_models.Prelude.{
  Bool, true, false, List, [], ◌∷◌, ◌++◌, Option, none, some, String, Text, if◌then◌else◌,
}

-- m.TokenUsage of a metadataEvent.
pub record TokenUsage : Type 0 where
  pub uncached_input_tokens : ℤ
  pub output_tokens : ℤ
  pub total_tokens : ℤ
  pub cache_read_input_tokens : ℤ
  pub cache_write_input_tokens : ℤ

-- A frame by its message type and event type; `none` is a payload that does not decode. An
-- exception's payload that does not decode has an empty message. `ignored` is an event type that
-- is dropped, known or not.
pub data Frame : Type 0 where
  exception : Text → Text → Frame
  assistant_response : Option Text → Frame
  reasoning_content : Option (Text × Text × Text) → Frame
  tool_use : String → Option Payload → Frame
  metadata : Option TokenUsage → Frame
  metering : Option (Float64 × ℤ × ℤ) → Frame
  invalid_state : Option (Text × Text) → Frame
  message_metadata : Option (String × String) → Frame
  context_usage : Option Float64 → Frame
  ignored : Frame

-- What a turn of the loop meets: the context is cancelled, readFrame fails, or a frame. The end of
-- the list is io.EOF.
pub data Arrival : Type 0 where
  cancelled unreadable : Arrival
  frame : Frame → Arrival

-- ParseStream's error, nil or not.
pub data Result : Type 0 where
  ok failed : Result

-- What the switch makes of a frame: events for the callback and the new accumulator, or an error.
pub data Step : Type 0 where
  events : ToolUseAccumulator → List Event → Step
  last : Event → Step
  decode_error : Step

abbrev pub opt_events : ToolUseAccumulator → Option Event → Step
opt_events acc none = events acc []
opt_events acc (some e) = events acc (e ∷ [])

abbrev pub required : ToolUseAccumulator → Option Event → Step
required acc none = decode_error
required acc (some e) = events acc (e ∷ [])

unfoldable pub metadata_event : TokenUsage → Event
metadata_event u = record (event EventType.metadata) {
  uncached_input_tokens = u.uncached_input_tokens;
  cache_read_input_tokens = u.cache_read_input_tokens;
  cache_write_input_tokens = u.cache_write_input_tokens;
  output_tokens = u.output_tokens;
  total_tokens = u.total_tokens;
  input_tokens = u.uncached_input_tokens +ℤ u.cache_read_input_tokens;
}

unfoldable pub content_event : Text → Event
content_event t = record (event EventType.assistant_response) { content = t }

unfoldable pub reasoning_event : Text × Text × Text → Event
reasoning_event (text, signature, redacted) = record (event EventType.reasoning_content) {
  thinking_text = text;
  signature = signature;
  redacted_content = redacted;
}

unfoldable pub metering_event : Float64 × ℤ × ℤ → Event
metering_event (usage, input, output) = record (event EventType.metering) {
  credits = usage;
  input_tokens = input;
  output_tokens = output;
}

-- invalidStateEvent and an exception: the reason, then the message.
unfoldable pub error_event : EventType → Text × Text → Event
error_event t (reason, message) = record (event t) {
  invalid_state_reason = reason;
  error_message = message;
}

unfoldable pub conversation_event : String × String → Event
conversation_event (conversation, utterance) = record (event EventType.message_metadata) {
  conversation_id = conversation;
  utterance_id = utterance;
}

unfoldable pub context_usage_event : Float64 → Event
context_usage_event percentage = record (event EventType.context_usage) {
  context_usage_percentage = percentage;
}

-- The cases of the switch on the event type.
unfoldable pub read_frame_event : ToolUseAccumulator → Frame → Step
read_frame_event acc (Frame.exception event_type message) =
    last (error_event EventType.exception (event_type, message))
read_frame_event acc (Frame.assistant_response m) = required acc (Option.map content_event m)
read_frame_event acc (Frame.reasoning_content m) = required acc (Option.map reasoning_event m)
read_frame_event acc (Frame.tool_use new_id none) = events acc []
read_frame_event acc (Frame.tool_use new_id (some raw)) =
    let (b, es) = update acc new_id raw in events b es
read_frame_event acc (Frame.metadata m) = opt_events acc (Option.map metadata_event m)
read_frame_event acc (Frame.metering m) = opt_events acc (Option.map metering_event m)
read_frame_event acc (Frame.invalid_state m) =
    required acc (Option.map (error_event EventType.invalid_state) m)
read_frame_event acc (Frame.message_metadata m) = opt_events acc (Option.map conversation_event m)
read_frame_event acc (Frame.context_usage m) = opt_events acc (Option.map context_usage_event m)
read_frame_event acc Frame.ignored = events acc []

-- The callback works on a state of its caller's, and says whether to stop.
module _ {ℓ} {S : Type ℓ} (callback : S → Event → S × Bool) where
  -- slices.ContainsFunc with the callback
  unfoldable pub contains_func : S → List Event → S × Bool
  contains_func s [] = (s, false)
  contains_func s (e ∷ es) =
      let (t, stop) = callback s e in
      let rest = contains_func t es in if stop then (t, true) else rest

  unfoldable pub parse_stream : S → ToolUseAccumulator → List Arrival → S × Result
  parse_stream s acc [] = ((contains_func s (flush acc).1).0, ok)
  parse_stream s acc (cancelled ∷ xs) = (s, failed)
  parse_stream s acc (unreadable ∷ xs) = (s, failed)
  parse_stream s acc (frame f ∷ xs) = elim (read_frame_event acc f) [
    | decode_error ↦ (s, failed)
    | last e ↦ ((callback s e).0, ok)
    | events b es ↦
        let (t, stop) = contains_func s es in
        let rest = parse_stream t b xs in if stop then (t, ok) else rest
  ]
