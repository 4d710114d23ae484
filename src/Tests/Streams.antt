-- ===== src/Tests/Streams.antt =====
-- A stream of Kiro events with thinking tags, a tool call and metadata, and what is written of it.
use claude_code_kiro_models.Kiroproto.Event.{Event, EventType, event, error_text}
use claude_code_kiro_models.Messages.Streaming.{handle_streaming, Handed, Ending}
use claude_code_kiro_models.Messages.Streaming.Adds.{texts_in, thoughts_in}
use claude_code_kiro_models.Messages.Streaming.Said.{handle_streaming-Says}
use claude_code_kiro_models.Messages.Streaming.Transcript.{IsPresent, handle_streaming-Closed}
use claude_code_kiro_models.Prelude.Int.{pos}
use claude_code_kiro_models.Prelude.{
  ◌⊎◌, All, Bool, true, false, List, [], ◌∷◌, some, String, Text, codes, ◌≡◌, refl, ltb, length,
  if◌then◌else◌, contains_rune, index, starts_with,
}
use claude_code_kiro_models.Respconv.Accumulator.Latch.{Sealed, process_events-Sealed}
use claude_code_kiro_models.Respconv.Accumulator.{
  process_by_type, process_event, process_events, finalize_stream, process_event, process_by_type,
  process_assistant_response, process_content, route_text, accumulate_text, limit_text, filter_text,
  route_thinking,
}
use claude_code_kiro_models.Respconv.State.{Accumulator, new_accumulator}
use claude_code_kiro_models.Respconv.Stop.{apply_stop_sequence_filter, find_match}
use claude_code_kiro_models.Respconv.ThinkingTags.{parse_thinking_tags}
use claude_code_kiro_models.Respconv.Result.Reason.{Reported, finished-Reported}
use claude_code_kiro_models.Respconv.Result.{resolve_stop_reason}
use claude_code_kiro_models.Respconv.Sse.Protocol.{Phase, reached, IsAllowed}
use claude_code_kiro_models.Respconv.SseEvent.{WriteResult, Env, new_sse_writer}

abbrev said : String → Event
said t = record (event EventType.assistant_response) { content = codes t }

abbrev called : String → String → Event
called name input = record (event EventType.tool_use) {
  tool_name = name;
  tool_use_id = "t1";
  tool_input = codes input;
  tool_stop = true;
}

abbrev counted : Event
counted = record (event EventType.metadata) { input_tokens = pos 12; output_tokens = pos 5 }

abbrev stream : List Event
stream = said "a <thin" ∷ said "king>b</thinking>c" ∷ called "ls" "{}" ∷ counted ∷ []

abbrev any_json : Text → Bool
any_json t = true

abbrev start : Accumulator
start = new_accumulator (pos 200000) (codes "END" ∷ []) (pos 1000) (pos 9)

-- The 41st event written is lost.
abbrev env : Env
env = record {
  sink = λ sent. if ltb (length sent) 40 then WriteResult.delivered else WriteResult.lost;
  promotes = true;
  is_valid = any_json;
  tokens_used = λ p w. 0;
}

abbrev final : Event → String × Text
final e = ("api_error", error_text e)

-- The client is there until the third event has been handled.
abbrev seen : List Event → List Handed
seen (a ∷ b ∷ c ∷ es) =
    record { event = a; lost_before = false; lost_after = false }
    ∷ record { event = b; lost_before = false; lost_after = false }
    ∷ record { event = c; lost_before = false; lost_after = true }
    ∷ []
seen _ = []

abbrev end : Ending
end = record { parse_failed = false; gone = true; gone_later = true }

handle_streaming-Closed_example :
    let s = handle_streaming env final end (new_sse_writer "m" "id" start) (seen stream) in
    IsAllowed s.written
    × (All IsPresent (seen stream)
        → end.gone ≡ false
        → end.gone_later ≡ false
        → s.write_err ≡ false
        → reached s.written ≡ some Phase.closed)
handle_streaming-Closed_example = handle_streaming-Closed env final end "m" "id" start (seen stream)

handle_streaming-Says_example :
    let s = handle_streaming env final end (new_sse_writer "m" "id" start) (seen stream) in
    (s.write_err ≡ true)
    ⊎ ((texts_in s.written ≡ s.acc.text_buf) × (thoughts_in s.written ≡ s.acc.thinking_buf))
handle_streaming-Says_example =
    handle_streaming-Says env final end "m" "id" (pos 200000) (codes "END" ∷ []) (pos 1000) (pos 9)
      (seen stream)

abbrev stopped : Accumulator
stopped = (process_events any_json start (said "one END two" ∷ [])).0

process_events-Sealed_example : Sealed any_json stopped (process_events any_json stopped stream).0
unfolding process_events process_event process_by_type new_accumulator process_assistant_response
    process_content route_text parse_thinking_tags contains_rune accumulate_text limit_text
    filter_text route_thinking apply_stop_sequence_filter find_match index starts_with
process_events-Sealed_example = process_events-Sealed any_json stream stopped refl

finished-Reported_example :
    let b = (finalize_stream (process_events any_json start stream).0).0 in
    Reported b (resolve_stop_reason b)
finished-Reported_example =
    finished-Reported any_json (pos 200000) (pos 1000) (pos 9) (codes "END" ∷ []) stream
