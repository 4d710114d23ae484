-- ===== src/Messages/Streaming/Said.antt =====
-- What the client reads of the text and the thinking, against the buffers of the accumulator.
use claude_code_kiro_models.Kiroproto.Event.{Event, EventType}
use claude_code_kiro_models.Messages.Streaming.Acc.{
  write_thinking_delta-acc, write_tool_use-acc, ensure_started-acc, write_error-acc,
}
use claude_code_kiro_models.Messages.Streaming.Adds.{
  Adds, texts_in, thoughts_in, write_thinking_delta-Adds, write_tool_use-Quiet, hold_redacted-Quiet,
  write_error-Quiet,
}
use claude_code_kiro_models.Messages.Streaming.Owed.{
  Owes, Says, paid, Quiet-Says, Owes-Delivered, unless_stopped-Says, handle_text-Says, finish-Says,
}
use claude_code_kiro_models.Messages.Streaming.{
  Outcome, Handed, Ending, consume, conclude, conclude_present, handle_streaming,
}
use claude_code_kiro_models.Prelude.Int.{ℤ}
use claude_code_kiro_models.Prelude.{
  subst, ◌||◌, ◌++◌, true, not, Bool, List, [], ◌∷◌, String, Text, ◌≡◌, refl, sym, ap, ◌∙◌, ◌⊎◌,
  inl, inr, arith, is_empty, if-intro, append-nil, codes,
}
use claude_code_kiro_models.Respconv.Accumulator.Delivery.{Delivered, process_event-Delivered}
use claude_code_kiro_models.Respconv.Accumulator.{
  process_event, process_by_type, process_reasoning_content, process_tool_use_event,
  accumulate_redacted, accumulate_thinking,
}
use claude_code_kiro_models.Respconv.State.{Accumulator, EventDelta, new_accumulator}
use claude_code_kiro_models.Respconv.Sse.{
  handle_reasoning, handle_tool_use, handle_delta, handle_event, hold_redacted,
  write_thinking_delta, write_tool_use, write_error,
}
use claude_code_kiro_models.Respconv.SseEvent.{SseWriter, Env, new_sse_writer}

-- What an event that is no text brings: no text, and no thinking with a redacted blob.
abbrev IsTextless : EventDelta → Type 0
IsTextless d =
    (d.text_delta ≡ []) × ((is_empty d.redacted_content ≡ true) ⊎ (d.thinking_delta ≡ []))

-- An event that neither brings text nor thinking.
abbrev IsSilent : EventDelta → Type 0
IsSilent d = (d.text_delta ≡ []) × (d.thinking_delta ≡ [])

is_empty→nil : (t : Text) → is_empty t ≡ true → t ≡ []
is_empty→nil [] h = refl
is_empty→nil (c ∷ t) h = ground (arith, h)

process_reasoning_content-IsTextless :
    (a : Accumulator) (e : Event) → IsTextless (process_reasoning_content a e).1
unfolding process_reasoning_content accumulate_redacted accumulate_thinking
process_reasoning_content-IsTextless a e = ground arith

module _ (env : Env) where
  process_tool_use_event-IsSilent :
      (a : Accumulator) (e : Event) → IsSilent (process_tool_use_event env.is_valid a e).1
  unfolding process_tool_use_event
  process_tool_use_event-IsSilent a e = ground arith

  silent-Says :
      (s : SseWriter) (d : EventDelta) → IsSilent d → Owes s d.text_delta d.thinking_delta → Says s
  silent-Says s d (x, k) (inl failed) = inl failed
  silent-Says s d (x, k) (inr (p, q)) = inr (
    sym (append-nil (texts_in s.written)) ∙ ap (◌++◌ (texts_in s.written)) (sym x) ∙ p,
    sym (append-nil (thoughts_in s.written)) ∙ ap (◌++◌ (thoughts_in s.written)) (sym k) ∙ q,
  )

  handle_reasoning-Says :
      (s : SseWriter) (d : EventDelta)
      → IsTextless d
      → Owes s d.text_delta d.thinking_delta
      → Says (handle_reasoning env s d).0
  unfolding handle_reasoning hold_redacted
  handle_reasoning-Says s d (no_text, apart) owes =
      let P = λ (r : SseWriter × Bool). Says r.0 in
      let told = write_thinking_delta env s d.thinking_delta in
      if-intro P (not (is_empty d.redacted_content))
        (λ filled.
          let says = silent-Says s d (no_text, no_thinking filled apart) owes in
          unless_stopped-Says env d (hold_redacted env s d.redacted_content) (
            Quiet-Says s (hold_redacted env s d.redacted_content) says
              (hold_redacted-Quiet env s d.redacted_content) (ensure_started-acc env s)))
        (λ _.
          if-intro P (is_empty d.thinking_delta)
            (λ none. silent-Says s d (no_text, is_empty→nil d.thinking_delta none) owes)
            (λ _. unless_stopped-Says env d told (
              paid s told d.text_delta d.thinking_delta owes
                (subst (λ (y : Text). Adds s told y d.thinking_delta) (sym no_text)
                  (write_thinking_delta-Adds env s d.thinking_delta))
                (write_thinking_delta-acc env s d.thinking_delta))))
    where
      no_thinking :
          not (is_empty d.redacted_content) ≡ true
          → (is_empty d.redacted_content ≡ true) ⊎ (d.thinking_delta ≡ [])
          → d.thinking_delta ≡ []
      no_thinking filled (inl empty) = absurd (ground (arith, filled, empty))
      no_thinking filled (inr silent) = silent

  handle_tool_use-Says :
      (s : SseWriter) (d : EventDelta)
      → IsSilent d
      → Owes s d.text_delta d.thinking_delta
      → Says (handle_tool_use env s d).0
  unfolding handle_tool_use
  handle_tool_use-Says s d (x, k) owes =
      let says = silent-Says s d (x, k) owes in
      let P = λ (r : SseWriter × Bool). Says r.0 in
      if-intro P (not (is_empty d.thinking_delta)) (λ filled. absurd (ground (arith, k, filled)))
        (λ _.
          if-intro P (not d.tool_stop) (λ _. says)
            (λ _. unless_stopped-Says env d (write_tool_use env s d) (
              Quiet-Says s (write_tool_use env s d) says (write_tool_use-Quiet env s d)
                (write_tool_use-acc env s d))))

  handle_by_type-Says :
      (k : EventType) (s : SseWriter) (e : Event)
      → Says s
      → Delivered s.acc (process_by_type env.is_valid k s.acc e)
      → let r = process_by_type env.is_valid k s.acc e in
        Says (handle_delta env k (record s { acc = r.0 }) r.1).0
  unfolding process_by_type handle_delta
  handle_by_type-Says EventType.assistant_response s e says d =
      let r = process_by_type env.is_valid EventType.assistant_response s.acc e in
      handle_text-Says env (record s { acc = r.0 }) r.1 (Owes-Delivered s r says d)
  handle_by_type-Says EventType.reasoning_content s e says d =
      let r = process_reasoning_content s.acc e in
      handle_reasoning-Says (record s { acc = r.0 }) r.1
        (process_reasoning_content-IsTextless s.acc e) (Owes-Delivered s r says d)
  handle_by_type-Says EventType.tool_use s e says d =
      let r = process_tool_use_event env.is_valid s.acc e in
      handle_tool_use-Says (record s { acc = r.0 }) r.1 (process_tool_use_event-IsSilent s.acc e)
        (Owes-Delivered s r says d)
  handle_by_type-Says EventType.invalid_state s e says d = says
  handle_by_type-Says EventType.exception s e says d = says
  handle_by_type-Says k s e says d =
      let r = process_by_type env.is_valid k s.acc e in
      silent-Says (record s { acc = r.0 }) r.1 (refl, refl) (Owes-Delivered s r says d)

  handle_event-Says : (s : SseWriter) (e : Event) → Says s → Says (handle_event env s e).0
  unfolding handle_event process_event
  handle_event-Says s e says =
      handle_by_type-Says e.type s e says (process_event-Delivered env.is_valid s.acc e)

  consume-Says : (s : SseWriter) (hs : List Handed) → Says s → Says (consume env s hs).0
  unfolding consume
  consume-Says s [] says = says
  consume-Says s (h ∷ hs) says =
      let t = (handle_event env s h.event).0 in
      let P = λ (q : SseWriter × Outcome). Says q.0 in
      let handled = handle_event-Says s h.event says in
      if-intro P (s.write_err || h.lost_before) (λ _. says)
        (λ _.
          if-intro P (t.write_err || h.lost_after) (λ _. handled)
            (λ _.
              if-intro P (handle_event env s h.event).1 (λ _. handled)
                (λ _. consume-Says t hs handled)))

  write_error-Says :
      (s : SseWriter) (type : String) (message : Text)
      → Says s
      → Says (write_error env s type message)
  write_error-Says s type message says =
      Quiet-Says s (write_error env s type message) says (write_error-Quiet env s type message)
        (write_error-acc env s type message)

  conclude_present-Says :
      (final : Event → String × Text) (end : Ending) (q : SseWriter × Outcome)
      → Says q.0
      → Says (conclude_present env final end q)
  unfolding conclude_present
  conclude_present-Says final end (s, Outcome.broken) says = says
  conclude_present-Says final end (s, Outcome.local_stop) says = says
  conclude_present-Says final end (s, Outcome.stream_error e) says =
      write_error-Says s (final e).0 (final e).1 says
  conclude_present-Says final end (s, Outcome.ended) says =
      if-intro (λ (t : SseWriter). Says t) end.parse_failed
        (λ _.
          if-intro (λ (t : SseWriter). Says t) end.gone_later (λ _. says)
            (λ _. write_error-Says s "stream_error" (codes "upstream stream error") says))
        (λ _. finish-Says env s says)

-- Whatever events arrive, however the stream ends and whenever the client goes: unless a write
-- failed, the text deltas that the client of a promoted session has read are together the TextBuf of
-- the accumulator, and the thinking deltas are together its ThinkingBuf.
pub handle_streaming-Says :
    (env : Env) (final : Event → String × Text) (end : Ending) (model id : String) (window : ℤ)
    (seqs : List Text) (max_tokens counted : ℤ) (hs : List Handed)
    → let acc = new_accumulator window seqs max_tokens counted in
      let s = handle_streaming env final end (new_sse_writer model id acc) hs in
      (s.write_err ≡ true)
      ⊎ ((texts_in s.written ≡ s.acc.text_buf) × (thoughts_in s.written ≡ s.acc.thinking_buf))
unfolding handle_streaming conclude new_sse_writer new_accumulator
handle_streaming-Says env final end model id window seqs max_tokens counted hs =
    let start = new_sse_writer model id (new_accumulator window seqs max_tokens counted) in
    let q = consume env start hs in
    let says = consume-Says env start hs (inr (refl, refl)) in
    if-intro (λ (t : SseWriter). Says t) (q.0.write_err || end.gone) (λ _. says)
      (λ _. conclude_present-Says env final end q says)
