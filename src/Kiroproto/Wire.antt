-- ===== src/Kiroproto/Wire.antt =====
-- internal/kiroproto/eventstream.go: how ParseStream comes from the bytes of the reply to what a
-- turn of its loop meets. JSON decoding is the client's.
pub mod Arrivals
use claude_code_kiro_models.Kiroproto.Frame.{
  Reader, FrameResult, FrameError, ok, err, end_of_stream, read_frame,
}
use claude_code_kiro_models.Kiroproto.Headers.{FrameTypes, extract_frame_headers}
use claude_code_kiro_models.Kiroproto.Stream.{Arrival, Frame, frame, unreadable, TokenUsage}
use claude_code_kiro_models.Kiroproto.ToolUse.{Payload}
use claude_code_kiro_models.Prelude.{
  ℕ, zero, suc, List, [], ◌∷◌, ◌||◌, Text, codes, text_eq, Option, none, some, String,
  if◌then◌else◌,
}
use claude_code_kiro_models.Prelude.Int.{ℤ}
use claude_code_kiro_models.Prelude.Numbers.{Float64}
use mathlib.Core.Option

-- json.Unmarshal into the struct of each case. An exception's message is "" where none decodes.
pub record Decoders : Type 0 where
  pub exception_message : List ℕ → Text
  pub content : List ℕ → Option Text
  pub reasoning : List ℕ → Option (Text × Text × Text)
  pub tool_use : List ℕ → Option Payload
  pub token_usage : List ℕ → Option TokenUsage
  pub metering : List ℕ → Option (Float64 × ℤ × ℤ)
  pub invalid_state : List ℕ → Option (Text × Text)
  pub message_metadata : List ℕ → Option (String × String)
  pub context_usage : List ℕ → Option Float64

module _ (decode : Decoders) where
  -- The switch on the event type.
  unfoldable pub event_frame : String → Text → List ℕ → Frame
  event_frame new_id event_type payload =
      if text_eq event_type (codes "assistantResponseEvent")
      then Frame.assistant_response (decode.content payload)
      else if text_eq event_type (codes "reasoningContentEvent")
      then Frame.reasoning_content (decode.reasoning payload)
      else if text_eq event_type (codes "toolUseEvent")
      then Frame.tool_use new_id (decode.tool_use payload)
      else if text_eq event_type (codes "metadataEvent")
      then Frame.metadata (decode.token_usage payload)
      else if text_eq event_type (codes "meteringEvent")
      then Frame.metering (decode.metering payload)
      else if text_eq event_type (codes "invalidStateEvent")
      then Frame.invalid_state (decode.invalid_state payload)
      else if text_eq event_type (codes "messageMetadataEvent")
      then Frame.message_metadata (decode.message_metadata payload)
      else if text_eq event_type (codes "contextUsageEvent")
      then Frame.context_usage (decode.context_usage payload)
      else Frame.ignored

  -- An exception ends the stream whatever its event type is.
  unfoldable pub typed_frame : String → FrameTypes → List ℕ → Frame
  typed_frame new_id types payload =
      if text_eq types.msg_type (codes "exception")
      then Frame.exception types.event_type (decode.exception_message payload)
      else event_frame new_id types.event_type payload

-- `err == io.EOF`, and every other error.
unfoldable pub ending : FrameError → List Arrival
ending end_of_stream = []
ending _ = unreadable ∷ []

-- `new_ids` are what uuid.New returns, by the turn of the loop.
module _ (decode : Decoders) (new_ids : ℕ → String) where
  unfoldable pub next_frame : ℕ → List ℕ → Option FrameTypes → List Arrival → Option (List Arrival)
  next_frame turn payload none xs = none
  next_frame turn payload (some types) xs =
      some (frame (typed_frame decode (new_ids turn) types payload) ∷ xs)

  -- The turns of the loop on a reply, up to its end or the first frame that cannot be read. `none`
  -- is fuel that runs out.
  unfoldable pub read_arrivals : ℕ → ℕ → Reader → Option (List Arrival)
  read_arrivals turn zero r = none
  read_arrivals turn (suc fuel) r = elim (read_frame r) [
    | err e ↦ some (ending e)
    | ok headers payload rest ↦
        Option.bind (read_arrivals (suc turn) fuel rest)
          (next_frame turn payload (extract_frame_headers headers))
  ]
