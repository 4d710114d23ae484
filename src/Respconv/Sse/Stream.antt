-- ===== src/Respconv/Sse/Stream.antt =====
-- Whole streams of SSEWriter keep to the protocol.
use claude_code_kiro_models.Kiroproto.Event.{Event, EventType}
use claude_code_kiro_models.Prelude.{
  length, Bool, true, false, not, ◌&&◌, some, String, Text, ◌≡◌, ◌⊎◌, refl, inl, inr, if◌then◌else◌,
  if-intro, is_empty, sym, subst, arith,
}
use claude_code_kiro_models.Respconv.Sse.Protocol.{
  delta_kind, kind_of, fits, Phase, step, Fresh, Live, Closed,
}
use claude_code_kiro_models.Respconv.Sse.Steps.{
  ensure_started-Fresh, ensure_started-Live, close_active_block-Idle, flush_pending_redacted-Live,
  open_block-Active, switch_block-Active, write_delta-Active, fire_visible_output-Live,
  close_active_block-none,
}
use claude_code_kiro_models.Respconv.Sse.Writes.{write-Tracks}
use claude_code_kiro_models.Respconv.Sse.{
  process_event, close_active_block, fire_visible_output, switch_block, write_delta, Accumulator,
  EventDelta, finalize_result, write, ensure_started, write_thinking_delta, write_text_delta,
  keep_redacted, write_held_thinking, write_held_text, finish, stop_or_drain, handle_text,
  hold_redacted, handle_reasoning, write_tool_use, handle_tool_use, handle_delta, handle_event,
  write_error, unless_stopped,
}
use claude_code_kiro_models.Respconv.SseEvent.{
  is_upstream_error, same_block, Sse, SseWriter, Block, BlockType, Delta, Env, opened_block,
}

abbrev pub Ready : SseWriter → Type 0
Ready s = Fresh s ⊎ Live s

-- A stream that goes on is ready for the next event; one that is over is closed.
abbrev pub Continues : SseWriter × Bool → Type 0
Continues (s, done) = (done ≡ false → Ready s) × (done ≡ true → Closed s)

module _ (env : Env) where
  pub ensure_started-Ready : (s : SseWriter) → Ready s → Live (ensure_started env s)
  ensure_started-Ready s (inl f) = inl (ensure_started-Fresh env s f)
  ensure_started-Ready s (inr l) = ensure_started-Live env s l

  thinking_opened :
      (acc : Accumulator) → kind_of (opened_block BlockType.thinking acc) ≡ some BlockType.thinking
  unfolding kind_of opened_block
  thinking_opened acc = refl

  text_opened :
      (acc : Accumulator) → kind_of (opened_block BlockType.text acc) ≡ some BlockType.text
  unfolding kind_of opened_block
  text_opened acc = refl

  write_thinking_delta-Live :
      (s : SseWriter) (t : Text) → Ready s → Live (write_thinking_delta env s t)
  unfolding write_thinking_delta fits delta_kind same_block
  write_thinking_delta-Live s t r = inr (
    BlockType.thinking,
    write_delta-Active env _ BlockType.thinking (Delta.thinking_delta t) refl
        (switch_block-Active env _ BlockType.thinking thinking_opened (ensure_started-Ready s r)),
  )

  write_started_text-Live :
      (s : SseWriter) (t : Text)
      → Live s
      → Live (
          write_delta env
            (switch_block env (fire_visible_output env s) BlockType.text)
            (Delta.text_delta t))
  unfolding fits delta_kind same_block
  write_started_text-Live s t l = inr (
    BlockType.text,
    write_delta-Active env _ BlockType.text (Delta.text_delta t) refl
        (switch_block-Active env _ BlockType.text text_opened (fire_visible_output-Live env s l)),
  )

  write_text_delta-Live : (s : SseWriter) (t : Text) → Ready s → Live (write_text_delta env s t)
  unfolding write_text_delta
  write_text_delta-Live s t r =
      write_started_text-Live (ensure_started env s) t (ensure_started-Ready s r)

  write_tool_use-Live : (s : SseWriter) (d : EventDelta) → Ready s → Live (write_tool_use env s d)
  unfolding write_tool_use fits delta_kind same_block kind_of
  write_tool_use-Live s d r = inr (
    BlockType.tool_use,
    write_delta-Active env _ BlockType.tool_use (Delta.input_json_delta d.tool_input) refl (
        open_block-Active env _ BlockType.tool_use (Block.tool_use d.tool_use_id d.tool_name) refl (
          close_active_block-Idle env _ (
            flush_pending_redacted-Live env _
              (fire_visible_output-Live env _ (ensure_started-Ready s r))))),
  )

  keep_redacted-Live : (s : SseWriter) (d : EventDelta) → Live s → Live (keep_redacted env s d)
  unfolding keep_redacted
  keep_redacted-Live s d l =
      if-intro Live (not (is_empty s.acc.text_buf) && not s.acc.has_tool_use) (λ _. l) (λ _. l)

  write_held_thinking-Live :
      (s : SseWriter) (t : Text) → Live s → Live (write_held_thinking env s t)
  unfolding write_held_thinking
  write_held_thinking-Live s t l =
      if-intro Live (is_empty t) (λ _. l) (λ _. write_thinking_delta-Live s t (inr l))

  write_held_text-Live : (s : SseWriter) (t : Text) → Live s → Live (write_held_text env s t)
  unfolding write_held_text
  write_held_text-Live s t l =
      if-intro Live (is_empty t) (λ _. l) (λ _. write_started_text-Live s t l)

  pub finish-Closed : (s : SseWriter) → Ready s → Closed (finish env s)
  unfolding finish step
  finish-Closed s r =
      let t = ensure_started env s in
      let (acc, d, res) = finalize_result env.tokens_used t.acc in
      let live = keep_redacted-Live (record t { acc = acc }) d (ensure_started-Ready s r) in
      let held =
        write_held_text-Live _ d.text_delta (write_held_thinking-Live _ d.thinking_delta live) in
      let (on, none_open, at) =
        close_active_block-Idle env _ (flush_pending_redacted-Live env _ held) in
      write-Tracks env _ Sse.message_stop Phase.ending Phase.closed
        (write-Tracks env _ _ (Phase.between _) Phase.ending at refl) refl

  goes_on : (s : SseWriter) → Ready s → Continues (s, false)
  goes_on s r = ((λ _. r), λ bad. ground arith)

  stop_or_drain-Continues : (s : SseWriter) → Ready s → Continues (stop_or_drain env s)
  unfolding stop_or_drain
  stop_or_drain-Continues s r =
      if-intro Continues (s.drain_on_stop && s.acc.has_tool_use) (λ _. goes_on s r)
        (λ _. ((λ bad. ground arith), λ _. finish-Closed s r))

  unless_stopped-Continues :
      (d : EventDelta) (s : SseWriter) → Ready s → Continues (unless_stopped env d s)
  unless_stopped-Continues d s r =
      if-intro Continues d.stop_signal (λ _. stop_or_drain-Continues s r) (λ _. goes_on s r)

  -- What reaches the accumulator alone leaves the stream as it stands.
  handle_text-Continues :
      (s : SseWriter) (d : EventDelta) → Ready s → Continues (handle_text env s d)
  unfolding handle_text
  handle_text-Continues s d r =
      let t = record s {
        pending_redacted_before_text =
            if d.has_assistant_content
            then length s.pending_redacted
            else s.pending_redacted_before_text;
      } in
      let u =
        if is_empty d.thinking_delta then t else write_thinking_delta env t d.thinking_delta in
      let ready =
        if-intro Ready (is_empty d.thinking_delta) {x = t}
          {y = write_thinking_delta env t d.thinking_delta} (λ _. r)
          (λ _. inr (write_thinking_delta-Live t d.thinking_delta r)) in
      unless_stopped-Continues d _ (
        if-intro Ready (is_empty d.text_delta) (λ _. ready)
          (λ _. inr (write_text_delta-Live u d.text_delta ready)))

  hold_redacted-Ready : (s : SseWriter) (blob : Text) → Ready s → Ready (hold_redacted env s blob)
  unfolding hold_redacted
  hold_redacted-Ready s blob r = inr (ensure_started-Ready s r)

  handle_reasoning-Continues :
      (s : SseWriter) (d : EventDelta) → Ready s → Continues (handle_reasoning env s d)
  unfolding handle_reasoning
  handle_reasoning-Continues s d r =
      if-intro Continues (not (is_empty d.redacted_content))
        (λ _. unless_stopped-Continues d _ (hold_redacted-Ready s d.redacted_content r))
        (λ _.
          if-intro Continues (is_empty d.thinking_delta) (λ _. goes_on s r)
            (λ _.
              unless_stopped-Continues d _ (inr (write_thinking_delta-Live s d.thinking_delta r))))

  handle_tool_use-Continues :
      (s : SseWriter) (d : EventDelta) → Ready s → Continues (handle_tool_use env s d)
  unfolding handle_tool_use
  handle_tool_use-Continues s d r =
      if-intro Continues (not (is_empty d.thinking_delta))
        (λ _. unless_stopped-Continues d _ (inr (write_thinking_delta-Live s d.thinking_delta r)))
        (λ _.
          if-intro Continues (not d.tool_stop) (λ _. goes_on s r)
            (λ _. unless_stopped-Continues d _ (inr (write_tool_use-Live s d r))))

  handle_delta-Continues :
      (k : EventType) (s : SseWriter) (d : EventDelta)
      → is_upstream_error k ≡ false
      → Ready s
      → Continues (handle_delta env k s d)
  unfolding handle_delta is_upstream_error
  handle_delta-Continues EventType.assistant_response s d h r = handle_text-Continues s d r
  handle_delta-Continues EventType.reasoning_content s d h r = handle_reasoning-Continues s d r
  handle_delta-Continues EventType.tool_use s d h r = handle_tool_use-Continues s d r
  handle_delta-Continues EventType.invalid_state s d h r = ground arith
  handle_delta-Continues EventType.exception s d h r = ground arith
  handle_delta-Continues _ s d h r = goes_on s r

  handle_delta-error :
      (k : EventType) (s : SseWriter) (d : EventDelta)
      → is_upstream_error k ≡ true
      → handle_delta env k s d ≡ (s, true)
  unfolding handle_delta is_upstream_error
  handle_delta-error k s d h = ground arith

  pub handle_event-Continues :
      (s : SseWriter) (e : Event)
      → is_upstream_error e.type ≡ false
      → Ready s
      → Continues (handle_event env s e)
  unfolding handle_event
  handle_event-Continues s e h r =
      handle_delta-Continues e.type (record s { acc = (process_event env.is_valid s.acc e).0 })
        (process_event env.is_valid s.acc e).1 h r

  pub handle_event-Ready :
      (s : SseWriter) (e : Event)
      → is_upstream_error e.type ≡ true
      → Ready s
      → Ready (handle_event env s e).0
  unfolding handle_event
  handle_event-Ready s e h r =
      let t = record s { acc = (process_event env.is_valid s.acc e).0 } in
      subst (λ q. Ready q.0)
        (sym (handle_delta-error e.type t (process_event env.is_valid s.acc e).1 h)) r

  pub write_error-Closed :
      (s : SseWriter) (type : String) (message : Text)
      → Ready s
      → Closed (write_error env s type message)
  unfolding write_error step close_active_block
  write_error-Closed s type message (inl (_, none_open, _, t)) =
      subst (λ q. Closed (write env q (Sse.error type message)))
        (sym (close_active_block-none env s none_open))
        (write-Tracks env s _ Phase.fresh Phase.closed t refl)
  write_error-Closed s type message (inr l) =
      let (_, _, t) = close_active_block-Idle env s l in
      write-Tracks env _ _ (Phase.between _) Phase.closed t refl
