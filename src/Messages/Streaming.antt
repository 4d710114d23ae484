-- ===== src/Messages/Streaming.antt =====
-- internal/app/messages/response.go: handleStreamingResponse, for a session that has been promoted
-- (an error is then the SSEWriter's to report). The events are those that ParseStream hands over.
pub mod Acc
pub mod Signal
pub mod Transcript
pub mod Said
pub mod Adds
pub mod Owed
use claude_code_kiro_models.Kiroproto.Event.{Event, error_text}
use claude_code_kiro_models.Prelude.{
  ◌||◌, codes, Bool, true, false, not, List, [], ◌∷◌, String, Text, if◌then◌else◌,
}
use claude_code_kiro_models.Respconv.Sse.{handle_event, write_error, finish}
use claude_code_kiro_models.Respconv.SseEvent.{SseWriter, Env, is_upstream_error}

-- Why no more events are read: the writer failed; the adapter stopped; an upstream error (streamErr
-- with no write error); ParseStream came to its end.
pub data Outcome : Type 0 where
  broken local_stop : Outcome
  stream_error : Event → Outcome
  ended : Outcome

-- What the callback makes of an event that HandleEvent has stopped at.
unfoldable pub stopped_at : SseWriter → Event → Outcome
stopped_at s e =
    if is_upstream_error e.type
    then stream_error e
    else if s.acc.stop.local_stop
    then local_stop
    else stream_error e

-- An event with what `session.Err() != nil` says before and after HandleEvent: a heartbeat may fail,
-- or the client go, at any time.
pub record Handed : Type 0 where
  pub event : Event
  pub lost_before : Bool
  pub lost_after : Bool

-- The callback's work over the events of a stream.
unfoldable pub consume : Env → SseWriter → List Handed → SseWriter × Outcome
consume env s [] = (s, ended)
consume env s (h ∷ hs) =
    let (t, should_stop) = handle_event env s h.event in
    let rest = consume env t hs in
    if s.write_err || h.lost_before
    then (s, broken)
    else if t.write_err || h.lost_after
    then (t, broken)
    else if should_stop
    then (t, stopped_at t h.event)
    else rest

-- What is known when no more events are read. `parse_failed` says that ParseStream has returned an
-- error; `gone` that `session.Err()` or `ctx.Err()` is set, and `gone_later` that one of the two is
-- when they are looked at again, for the error of ParseStream.
pub record Ending : Type 0 where
  pub parse_failed : Bool
  pub gone : Bool
  pub gone_later : Bool

-- What is written behind the last event of a client that is still there. `final` is
-- classifyUpstreamError's SSE type and message. A `broken` stream comes here with an error that stays
-- set, so nothing is written for it; and when the callback has stopped, ParseStream returns no error.
unfoldable pub conclude_present :
    Env → (Event → String × Text) → Ending → SseWriter × Outcome → SseWriter
conclude_present env final end (s, broken) = s
conclude_present env final end (s, stream_error e) =
    let (type, message) = final e in write_error env s type message
conclude_present env final end (s, local_stop) = s
conclude_present env final end (s, ended) =
    if end.parse_failed
    then if end.gone_later
      then s
      else write_error env s "stream_error" (codes "upstream stream error")
    else finish env s

unfoldable pub conclude : Env → (Event → String × Text) → Ending → SseWriter × Outcome → SseWriter
conclude env final end (s, o) =
    if s.write_err || end.gone then s else conclude_present env final end (s, o)

unfoldable pub handle_streaming :
    Env → (Event → String × Text) → Ending → SseWriter → List Handed → SseWriter
handle_streaming env final end s hs = conclude env final end (consume env s hs)
