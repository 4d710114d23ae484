-- ===== src/Messages/Streaming/Signal.antt =====
-- A stream that has stopped on its own: a stop signal is a local stop.
use claude_code_kiro_models.Kiroproto.Event.{Event, EventType}
use claude_code_kiro_models.Prelude.{
  length, Bool, true, false, not, ◌&&◌, Text, ◌≡◌, refl, ap, ◌∙◌, arith, is_empty, if-intro,
  if◌then◌else◌,
}
use claude_code_kiro_models.Respconv.Accumulator.{
  accumulate_thinking, route_text, route_thinking, process_content, accumulate_redacted,
  process_tool_use_event, process_reasoning_content, process_assistant_response, process_metering,
  process_metadata, process_event, process_by_type, content_delta, accumulate_text, limit_text,
  filter_text, finalize_stream, finalize_tags,
}
use claude_code_kiro_models.Respconv.State.{Accumulator, EventDelta}
use claude_code_kiro_models.Respconv.Result.{finalize_result}
use claude_code_kiro_models.Respconv.Stop.{
  apply_stop_sequence_filter, apply_max_tokens_budget, flush_stop_seq_pending,
}
use claude_code_kiro_models.Respconv.ThinkingTags.{parse_thinking_tags}
use claude_code_kiro_models.Respconv.Sse.{
  unless_stopped, hold_redacted, handle_text, stop_or_drain, handle_event, handle_reasoning,
  handle_tool_use, handle_delta, write_thinking_delta,
}
use claude_code_kiro_models.Respconv.SseEvent.{is_upstream_error, SseWriter, Env}
use claude_code_kiro_models.Messages.Streaming.Acc.{
  Keeps, finish-acc, write_thinking_delta-acc, write_text_delta-acc, write_tool_use-acc,
  ensure_started-acc,
}

module _ (env : Env) where
  -- A stream that is told to end has stopped on its own.
  abbrev pub Stopped : SseWriter × Bool → Type 0
  Stopped (s, done) = done ≡ true → s.acc.stop.local_stop ≡ true

  finalize_result-local_stop :
      (a : Accumulator)
      → a.stop.local_stop ≡ true
      → (finalize_result env.tokens_used a).0.stop.local_stop ≡ true
  unfolding finalize_result finalize_stream finalize_tags route_thinking route_text
      accumulate_thinking accumulate_text limit_text filter_text apply_stop_sequence_filter
      apply_max_tokens_budget flush_stop_seq_pending
  finalize_result-local_stop a h = ground arith

  unless_stopped-Stopped :
      (d : EventDelta) (s : SseWriter) (a : Accumulator)
      → s.acc ≡ a
      → (d.stop_signal ≡ true → a.stop.local_stop ≡ true)
      → Stopped (unless_stopped env d s)
  unfolding stop_or_drain
  unless_stopped-Stopped d s a same h =
      if-intro Stopped d.stop_signal
        (λ sig.
          if-intro Stopped (s.drain_on_stop && s.acc.has_tool_use) (λ _ none_such. ground arith)
            (λ _ _.
              ap (λ x. x.stop.local_stop) (finish-acc env s)
              ∙ finalize_result-local_stop s.acc (ap (λ x. x.stop.local_stop) same ∙ h sig)))
        (λ _ none_such. ground arith)

  handle_text-Stopped :
      (s : SseWriter) (d : EventDelta)
      → (d.stop_signal ≡ true → s.acc.stop.local_stop ≡ true)
      → Stopped (handle_text env s d)
  unfolding handle_text
  handle_text-Stopped s d h =
      let t = record s {
        pending_redacted_before_text =
            if d.has_assistant_content
            then length s.pending_redacted
            else s.pending_redacted_before_text;
      } in
      let u =
        if is_empty d.thinking_delta then t else write_thinking_delta env t d.thinking_delta in
      let same : u.acc ≡ s.acc =
        if-intro (Keeps s) (is_empty d.thinking_delta) (λ _. refl)
          (λ _. write_thinking_delta-acc env t d.thinking_delta) in
      unless_stopped-Stopped d _ s.acc
        (if-intro (Keeps s) (is_empty d.text_delta) (λ _. same)
          (λ _. write_text_delta-acc env u d.text_delta ∙ same))
        h

  goes_on : (s : SseWriter) → Stopped (s, false)
  goes_on s none_such = ground arith

  handle_reasoning-Stopped :
      (s : SseWriter) (d : EventDelta)
      → (d.stop_signal ≡ true → s.acc.stop.local_stop ≡ true)
      → Stopped (handle_reasoning env s d)
  unfolding handle_reasoning hold_redacted
  handle_reasoning-Stopped s d h =
      if-intro Stopped (not (is_empty d.redacted_content))
        (λ _. unless_stopped-Stopped d _ s.acc (ensure_started-acc env s) h)
        (λ _.
          if-intro Stopped (is_empty d.thinking_delta) (λ _. goes_on s)
            (λ _.
              unless_stopped-Stopped d _ s.acc (write_thinking_delta-acc env s d.thinking_delta) h))

  handle_tool_use-Stopped :
      (s : SseWriter) (d : EventDelta)
      → (d.stop_signal ≡ true → s.acc.stop.local_stop ≡ true)
      → Stopped (handle_tool_use env s d)
  unfolding handle_tool_use
  handle_tool_use-Stopped s d h =
      if-intro Stopped (not (is_empty d.thinking_delta))
        (λ _. unless_stopped-Stopped d _ s.acc (write_thinking_delta-acc env s d.thinking_delta) h)
        (λ _.
          if-intro Stopped (not d.tool_stop) (λ _. goes_on s)
            (λ _. unless_stopped-Stopped d _ s.acc (write_tool_use-acc env s d) h))

  handle_delta-Stopped :
      (k : EventType) (s : SseWriter) (d : EventDelta)
      → is_upstream_error k ≡ false
      → (d.stop_signal ≡ true → s.acc.stop.local_stop ≡ true)
      → Stopped (handle_delta env k s d)
  unfolding handle_delta is_upstream_error
  handle_delta-Stopped EventType.assistant_response s d none_such h = handle_text-Stopped s d h
  handle_delta-Stopped EventType.reasoning_content s d none_such h = handle_reasoning-Stopped s d h
  handle_delta-Stopped EventType.tool_use s d none_such h = handle_tool_use-Stopped s d h
  handle_delta-Stopped EventType.invalid_state s d none_such h = ground arith
  handle_delta-Stopped EventType.exception s d none_such h = ground arith
  handle_delta-Stopped _ s d none_such h = goes_on s

  route_thinking-signal :
      (a : Accumulator) (t : Text) (d : EventDelta)
      → d.stop_signal ≡ false
      → (route_thinking a t d).1.stop_signal ≡ true
      → (route_thinking a t d).0.stop.local_stop ≡ true
  unfolding route_thinking accumulate_thinking
  route_thinking-signal a t d off h = ground arith

  route_text-signal :
      (a : Accumulator) (t : Text) (d : EventDelta)
      → (route_text a t d).1.stop_signal ≡ d.stop_signal
  unfolding route_text
  route_text-signal a t d = ground arith

  route_text-local_stop :
      (a : Accumulator) (t : Text) (d : EventDelta)
      → a.stop.local_stop ≡ true
      → (route_text a t d).0.stop.local_stop ≡ true
  unfolding route_text accumulate_text limit_text filter_text apply_stop_sequence_filter
      apply_max_tokens_budget
  route_text-local_stop a t d h = ground arith

  process_content-signal :
      (a : Accumulator) (t : Text)
      → (process_content a t).1.stop_signal ≡ true
      → (process_content a t).0.stop.local_stop ≡ true
  unfolding process_content
  process_content-signal a t h =
      let r = parse_thinking_tags a.tags t in
      let b = record a { tags = r.state } in
      let q = route_thinking b r.thinking_out (content_delta r) in
      ground (
        arith,
        route_thinking-signal b r.thinking_out (content_delta r) refl,
        route_text-signal q.0 r.text_out q.1,
        route_text-local_stop q.0 r.text_out q.1,
      )

  process_by_type-signal :
      (k : EventType) (a : Accumulator) (e : Event)
      → (process_by_type env.is_valid k a e).1.stop_signal ≡ true
      → (process_by_type env.is_valid k a e).0.stop.local_stop ≡ true
  unfolding process_by_type process_metadata process_metering process_assistant_response
      process_reasoning_content process_tool_use_event accumulate_redacted accumulate_thinking
  process_by_type-signal EventType.assistant_response a e h =
      ground (arith, process_content-signal a e.content)
  process_by_type-signal EventType.reasoning_content a e h = ground arith
  process_by_type-signal EventType.tool_use a e h = ground arith
  process_by_type-signal _ a e h = ground arith

  pub handle_event-Stopped :
      (s : SseWriter) (e : Event)
      → is_upstream_error e.type ≡ false
      → Stopped (handle_event env s e)
  unfolding handle_event process_event
  handle_event-Stopped s e none_such =
      handle_delta-Stopped e.type (record s { acc = (process_event env.is_valid s.acc e).0 })
        (process_event env.is_valid s.acc e).1 none_such (process_by_type-signal e.type s.acc e)
