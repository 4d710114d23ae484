-- ===== src/Respconv/Sse.antt =====
-- internal/respconv/streaming.go, streaming_toolsearch.go, streaming_advisor.go: SSEWriter, which
-- turns Kiro events into Anthropic SSE events. An SSE event stands for its JSON text.
pub mod Writes
pub mod Protocol
pub mod Steps
pub mod Stream
use claude_code_kiro_models.Kiroproto.Event.{Event, EventType}
use claude_code_kiro_models.Prelude.Int.{ℤ, pos}
use claude_code_kiro_models.Prelude.Numbers.{Float64}
use claude_code_kiro_models.Prelude.{
  ℕ, suc, ◌+◌, ◌-◌, Bool, true, false, not, ◌&&◌, List, [], ◌∷◌, ◌++◌, Option, none, some, String,
  Text, if◌then◌else◌, is_empty, length, take,
}
use claude_code_kiro_models.Respconv.Accumulator.{process_event}
use claude_code_kiro_models.Respconv.State.{
  Accumulator, EventDelta, no_delta, new_accumulator, is_empty_visible_end_turn,
}
use claude_code_kiro_models.Respconv.Result.{Usage, usage_map, FinalResult, finalize_result}
use claude_code_kiro_models.Respconv.Stop.{StopReason}
use claude_code_kiro_models.Respconv.SseEvent.{
  redacted_thinking, block_delta, block_stop, advisor_error, thinking_delta, tool_search_error,
  error, block_start, input_json_delta, server_tool_use, tool_search_result, text_delta,
  advisor_result, message_start, BlockType, same_block, Block, Delta, AdvisorIteration, Sse,
  SseWriter, new_sse_writer, WriteResult, add_advisor_iteration, opened_block, is_upstream_error,
  Env,
}

module _ (env : Env) where
  -- writeSSE, writeRawSSE, captureWriterError
  unfoldable pub after_write : SseWriter → Sse → WriteResult → SseWriter
  after_write s e WriteResult.delivered = record s { written = s.written ++ (e ∷ []) }
  after_write s e WriteResult.lost = record s { write_err = true }
  after_write s e WriteResult.flush_failed = record s {
    written = s.written ++ (e ∷ []);
    write_err = true;
  }

  unfoldable pub write : SseWriter → Sse → SseWriter
  write s e = if s.write_err then s else after_write s e (env.sink s.written)

  unfoldable pub ensure_started : SseWriter → SseWriter
  ensure_started s =
      if s.started
      then s
      else write (record s { started = true })
          (message_start s.msg_id s.model (usage_map s.acc (pos 0) (pos 0)))

  -- closeActiveBlock
  unfoldable pub close_active_block : SseWriter → SseWriter
  close_active_block s = elim s.active_type [
    | none ↦ s
    | some _ ↦ record (write s (block_stop (s.block_count - 1))) { active_type = none }
  ]

  -- One blob of flushPendingRedacted.
  unfoldable pub write_redacted : SseWriter → Text → SseWriter
  write_redacted s blob =
      let t =
        write (record s { block_count = s.block_count + 1 })
          (block_start s.block_count (redacted_thinking blob)) in
      write t (block_stop (t.block_count - 1))

  unfoldable pub write_redacted_all : SseWriter → List Text → SseWriter
  write_redacted_all s [] = s
  write_redacted_all s (blob ∷ blobs) = write_redacted_all (write_redacted s blob) blobs

  -- flushPendingRedacted
  unfoldable pub flush_pending_redacted : SseWriter → SseWriter
  flush_pending_redacted s =
      let t = record s { pending_redacted_before_text = 0 } in
      if is_empty s.pending_redacted
      then t
      else write_redacted_all (close_active_block (record t { pending_redacted = [] }))
          s.pending_redacted

  abbrev pub is_active : Option BlockType → BlockType → Bool
  is_active none k = false
  is_active (some j) k = same_block j k

  -- A block that is started and left open.
  unfoldable pub open_block : SseWriter → BlockType → Block → SseWriter
  open_block s k b =
      write (record s { block_count = s.block_count + 1; active_type = some k })
        (block_start s.block_count b)

  -- switchBlock
  unfoldable pub switch_block : SseWriter → BlockType → SseWriter
  switch_block s k =
      let t = flush_pending_redacted s in
      if is_active t.active_type k
      then t
      else open_block (close_active_block t) k (opened_block k t.acc)

  -- writeDelta
  unfoldable pub write_delta : SseWriter → Delta → SseWriter
  write_delta s d = write s (block_delta (s.block_count - 1) d)

  -- writeBlock
  unfoldable pub write_opt_delta : SseWriter → Option Delta → SseWriter
  write_opt_delta s none = s
  write_opt_delta s (some d) = write_delta s d

  unfoldable pub write_block : SseWriter → Block → Option Delta → SseWriter
  write_block s b d =
      let t = close_active_block (flush_pending_redacted s) in
      let u = write (record t { block_count = t.block_count + 1 }) (block_start t.block_count b) in
      let v = write_opt_delta u d in write v (block_stop (v.block_count - 1))

  -- fireVisibleOutput
  unfoldable pub fire_visible_output : SseWriter → SseWriter
  fire_visible_output s =
      if s.visible_fired
      then s
      else record s { visible_fired = true; write_err = if env.promotes then s.write_err else true }

  -- writeThinkingDelta
  unfoldable pub write_thinking_delta : SseWriter → Text → SseWriter
  write_thinking_delta s t =
      write_delta (switch_block (ensure_started s) BlockType.thinking) (thinking_delta t)

  -- A text delta, started, visible, in a text block.
  unfoldable pub write_text_delta : SseWriter → Text → SseWriter
  write_text_delta s t =
      write_delta (switch_block (fire_visible_output (ensure_started s)) BlockType.text)
        (text_delta t)

  -- Finish: which blobs still waiting are kept.
  unfoldable pub keep_redacted : SseWriter → EventDelta → SseWriter
  keep_redacted s d =
      if not (is_empty s.acc.text_buf) && not s.acc.has_tool_use
      then record s {
        pending_redacted =
            if is_empty d.text_delta && is_empty d.thinking_delta
            then []
            else take s.pending_redacted_before_text s.pending_redacted;
      }
      else s

  -- Finish: the deltas that FinalizeStream has freed. The writer has been started.
  unfoldable pub write_held_thinking : SseWriter → Text → SseWriter
  write_held_thinking s t = if is_empty t then s else write_thinking_delta s t

  unfoldable pub write_held_text : SseWriter → Text → SseWriter
  write_held_text s t =
      if is_empty t
      then s
      else write_delta (switch_block (fire_visible_output s) BlockType.text) (text_delta t)

  -- Finish
  unfoldable pub finish : SseWriter → SseWriter
  finish s =
      let t = ensure_started s in
      let (acc, d, res) = finalize_result env.tokens_used t.acc in
      let u = keep_redacted (record t { acc = acc }) d in
      let v = write_held_text (write_held_thinking u d.thinking_delta) d.text_delta in
      let w = close_active_block (flush_pending_redacted v) in
      write
        (write w
          (Sse.message_delta res.stop_reason res.stop_sequence res.usage w.advisor_iterations))
        Sse.message_stop

  -- stopOrDrain; the flag ends the stream.
  unfoldable pub stop_or_drain : SseWriter → SseWriter × Bool
  stop_or_drain s = if s.drain_on_stop && s.acc.has_tool_use then (s, false) else (finish s, true)

  abbrev pub unless_stopped : EventDelta → SseWriter → SseWriter × Bool
  unless_stopped d s = if d.stop_signal then stop_or_drain s else (s, false)

  -- HandleEvent, EventAssistantResponse
  unfoldable pub handle_text : SseWriter → EventDelta → SseWriter × Bool
  handle_text s d =
      let t = record s {
        pending_redacted_before_text =
            if d.has_assistant_content
            then length s.pending_redacted
            else s.pending_redacted_before_text;
      } in
      let u = if is_empty d.thinking_delta then t else write_thinking_delta t d.thinking_delta in
      let v = if is_empty d.text_delta then u else write_text_delta u d.text_delta in
      unless_stopped d v

  -- HandleEvent, EventReasoningContent
  unfoldable pub hold_redacted : SseWriter → Text → SseWriter
  hold_redacted s blob =
      let t = ensure_started s in record t { pending_redacted = t.pending_redacted ++ (blob ∷ []) }

  unfoldable pub handle_reasoning : SseWriter → EventDelta → SseWriter × Bool
  handle_reasoning s d =
      if not (is_empty d.redacted_content)
      then unless_stopped d (hold_redacted s d.redacted_content)
      else if is_empty d.thinking_delta
      then (s, false)
      else unless_stopped d (write_thinking_delta s d.thinking_delta)

  -- HandleEvent, EventToolUse
  unfoldable pub write_tool_use : SseWriter → EventDelta → SseWriter
  write_tool_use s d =
      let t =
        close_active_block (flush_pending_redacted (fire_visible_output (ensure_started s))) in
      write_delta (open_block t BlockType.tool_use (Block.tool_use d.tool_use_id d.tool_name))
        (input_json_delta d.tool_input)

  unfoldable pub handle_tool_use : SseWriter → EventDelta → SseWriter × Bool
  handle_tool_use s d =
      if not (is_empty d.thinking_delta)
      then unless_stopped d (write_thinking_delta s d.thinking_delta)
      else if not d.tool_stop
      then (s, false)
      else unless_stopped d (write_tool_use s d)

  unfoldable pub handle_delta : EventType → SseWriter → EventDelta → SseWriter × Bool
  handle_delta EventType.assistant_response s d = handle_text s d
  handle_delta EventType.reasoning_content s d = handle_reasoning s d
  handle_delta EventType.tool_use s d = handle_tool_use s d
  handle_delta EventType.invalid_state s d = (s, true)
  handle_delta EventType.exception s d = (s, true)
  handle_delta _ s d = (s, false)

  -- HandleEvent
  unfoldable pub handle_event : SseWriter → Event → SseWriter × Bool
  unfolding handle_delta
  handle_event s e =
      let (acc, d) = process_event env.is_valid s.acc e in
      handle_delta e.type (record s { acc = acc }) d

  -- WriteError
  unfoldable pub write_error : SseWriter → String → Text → SseWriter
  write_error s type message = write (close_active_block s) (error type message)

  -- WriteServerToolUse
  unfoldable pub write_server_tool_use : SseWriter → String → String → Text → SseWriter
  write_server_tool_use s id name input =
      write_block (fire_visible_output (ensure_started s)) (server_tool_use id name)
        (some (input_json_delta input))

  -- WriteToolSearchResult, WriteToolSearchError, WriteAdvisorResult, WriteAdvisorError
  unfoldable pub write_tool_search_result : SseWriter → String → List String → SseWriter
  write_tool_search_result s id refs = write_block s (tool_search_result id refs) none

  unfoldable pub write_tool_search_error : SseWriter → String → String → SseWriter
  write_tool_search_error s id code = write_block s (tool_search_error id code) none

  unfoldable pub write_advisor_result : SseWriter → String → Text → String → SseWriter
  write_advisor_result s id advice reason = write_block s (advisor_result id advice reason) none

  unfoldable pub write_advisor_error : SseWriter → String → String → SseWriter
  write_advisor_error s id code = write_block s (advisor_error id code) none

  -- RecordTail
  unfoldable pub record_tail : SseWriter → Event → SseWriter
  record_tail s e =
      let t = record s { acc = (process_event env.is_valid s.acc e).0 } in
      elim e.type [
        | EventType.metering ↦ t
        | EventType.context_usage ↦ t
        | EventType.reasoning_content ↦ if is_empty e.redacted_content then s else t
        | _ ↦ s
      ]

-- ResetAccumulator
unfoldable pub reset_accumulator : SseWriter → ℤ → List Text → ℤ → ℤ → SseWriter
reset_accumulator s window stop_sequences max_tokens pre_counted =
    let fresh = new_accumulator window stop_sequences max_tokens pre_counted in
    record s {
      acc = record fresh {
        drop_tool_names = s.acc.drop_tool_names;
        tool_name_map = s.acc.tool_name_map;
      };
      active_type = none;
    }
