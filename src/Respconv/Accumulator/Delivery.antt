-- ===== src/Respconv/Accumulator/Delivery.antt =====
-- What the deltas of a response say, against the buffers that the non-streaming path reads.
use claude_code_kiro_models.Kiroproto.Event.{Event, EventType}
use claude_code_kiro_models.Prelude.{
  if◌then◌else◌, Bool, List, [], ◌∷◌, ◌++◌, Text, ◌≡◌, refl, sym, ap, ◌∙◌, arith, append-nil,
  append_assoc, is_empty,
}
use claude_code_kiro_models.Respconv.Accumulator.{
  process_events, apply_max_tokens_budget, content_delta, flush_stop_seq_pending,
  finalize_thinking_tags, parse_thinking_tags, accumulate_thinking, accumulate_text,
  accumulate_redacted, route_thinking, route_text, process_content, process_assistant_response,
  process_reasoning_content, process_metadata, process_metering, process_tool_use_event,
  record_tool_call, process_by_type, process_event, finalize_tags, finalize_stream,
}
use claude_code_kiro_models.Respconv.State.{Accumulator, EventDelta, no_delta}

-- Each event, and the end of the stream.
abbrev pub Delivered : Accumulator → Accumulator × EventDelta → Type 0
Delivered a (b, d) =
    (b.text_buf ≡ a.text_buf ++ d.text_delta)
    × (b.thinking_buf ≡ a.thinking_buf ++ d.thinking_delta)

accumulate_thinking-Delivered :
    (a : Accumulator) (t : Text) (d : EventDelta)
    → d.text_delta ≡ []
    → d.thinking_delta ≡ []
    → Delivered a (accumulate_thinking a t d) × ((accumulate_thinking a t d).1.text_delta ≡ [])
unfolding accumulate_thinking
accumulate_thinking-Delivered a t d e e' =
    ground (arith, append-nil a.text_buf, append-nil a.thinking_buf)

route_thinking-Delivered :
    (a : Accumulator) (t : Text) (d : EventDelta)
    → d.text_delta ≡ []
    → d.thinking_delta ≡ []
    → Delivered a (route_thinking a t d) × ((route_thinking a t d).1.text_delta ≡ [])
unfolding route_thinking
route_thinking-Delivered a [] d e e' = rw (e, e', append-nil, append-nil) ((refl, refl), refl)
route_thinking-Delivered a (c ∷ t) d e e' = accumulate_thinking-Delivered a (c ∷ t) d e e'

route_text-Delivered :
    (a : Accumulator) (t : Text) (d : EventDelta)
    → d.text_delta ≡ []
    → ((route_text a t d).0.text_buf ≡ a.text_buf ++ (route_text a t d).1.text_delta)
      × ((route_text a t d).0.thinking_buf ≡ a.thinking_buf)
      × ((route_text a t d).1.thinking_delta ≡ d.thinking_delta)
unfolding route_text accumulate_text
route_text-Delivered a t d e = ground (arith, append-nil a.text_buf)

route-Delivered :
    (a : Accumulator) (thinking text : Text) (d : EventDelta)
    → d.text_delta ≡ []
    → d.thinking_delta ≡ []
    → let r = route_thinking a thinking d in Delivered a (route_text r.0 text r.1)
route-Delivered a thinking text d e e' =
    let r = route_thinking a thinking d in
    let ((bt, bk), none_yet) = route_thinking-Delivered a thinking d e e' in
    let (ct, ck, dk) = route_text-Delivered r.0 text r.1 none_yet in
    let text_same : r.0.text_buf ≡ a.text_buf =
      bt ∙ ap (◌++◌ a.text_buf) none_yet ∙ append-nil a.text_buf in
    (
      ct ∙ ap (λ t. t ++ (route_text r.0 text r.1).1.text_delta) text_same,
      ck ∙ bk ∙ ap (◌++◌ a.thinking_buf) (sym dk),
    )

process_content-Delivered :
    (a : Accumulator) (content : Text) → Delivered a (process_content a content)
unfolding process_content
process_content-Delivered a content =
    let r = parse_thinking_tags a.tags content in
    ground (
      arith,
      route-Delivered (record a { tags = r.state }) r.thinking_out r.text_out (content_delta r) refl
          refl,
    )

process_assistant_response-Delivered :
    (a : Accumulator) (e : Event) → Delivered a (process_assistant_response a e)
unfolding process_assistant_response
process_assistant_response-Delivered a e =
    ground (
      arith,
      append-nil a.text_buf,
      append-nil a.thinking_buf,
      process_content-Delivered a e.content,
    )

process_reasoning_content-Delivered :
    (a : Accumulator) (e : Event) → Delivered a (process_reasoning_content a e)
unfolding process_reasoning_content accumulate_redacted
process_reasoning_content-Delivered a e = ground (
  arith,
  append-nil a.text_buf,
  append-nil a.thinking_buf,
  accumulate_thinking-Delivered
      (record a { signature = if is_empty e.signature then a.signature else e.signature })
      e.thinking_text no_delta,
)

module _ (is_valid : Text → Bool) where
  process_tool_use_event-Delivered :
      (a : Accumulator) (e : Event) → Delivered a (process_tool_use_event is_valid a e)
  unfolding process_tool_use_event record_tool_call
  process_tool_use_event-Delivered a e =
      ground (arith, append-nil a.text_buf, append-nil a.thinking_buf)

  process_by_type-Delivered :
      (t : EventType) (a : Accumulator) (e : Event) → Delivered a (process_by_type is_valid t a e)
  unfolding process_by_type process_metadata process_metering
  process_by_type-Delivered EventType.assistant_response a e =
      process_assistant_response-Delivered a e
  process_by_type-Delivered EventType.reasoning_content a e =
      process_reasoning_content-Delivered a e
  process_by_type-Delivered EventType.tool_use a e = process_tool_use_event-Delivered a e
  process_by_type-Delivered EventType.metadata a e =
      ground (arith, append-nil a.text_buf, append-nil a.thinking_buf)
  process_by_type-Delivered EventType.metering a e =
      ground (arith, append-nil a.text_buf, append-nil a.thinking_buf)
  process_by_type-Delivered _ a e = (sym (append-nil a.text_buf), sym (append-nil a.thinking_buf))

  -- ProcessEvent appends to the two buffers exactly what its delta says.
  pub process_event-Delivered :
      (a : Accumulator) (e : Event) → Delivered a (process_event is_valid a e)
  unfolding process_event
  process_event-Delivered a e = process_by_type-Delivered e.type a e

pub finalize_stream-Delivered : (a : Accumulator) → Delivered a (finalize_stream a)
unfolding finalize_stream finalize_tags
finalize_stream-Delivered a =
    let r = finalize_thinking_tags a.tags in
    let b = record a { tags = r.state } in
    let q = route_thinking b r.thinking_out no_delta in
    let f = route_text q.0 r.text_out q.1 in
    let s = flush_stop_seq_pending f.0.stop in
    ground (
      arith,
      route-Delivered b r.thinking_out r.text_out no_delta refl refl,
      append_assoc a.text_buf f.1.text_delta (apply_max_tokens_budget s.0 s.1).1,
    )

abbrev pub texts : List EventDelta → Text
texts [] = []
texts (d ∷ ds) = d.text_delta ++ texts ds

abbrev pub thoughts : List EventDelta → Text
thoughts [] = []
thoughts (d ∷ ds) = d.thinking_delta ++ thoughts ds

module _ (is_valid : Text → Bool) where
  process_events-Delivered :
      (es : List Event) (a : Accumulator)
      → ((process_events is_valid a es).0.text_buf
          ≡ a.text_buf ++ texts (process_events is_valid a es).1)
        × ((process_events is_valid a es).0.thinking_buf
            ≡ a.thinking_buf ++ thoughts (process_events is_valid a es).1)
  unfolding process_events
  process_events-Delivered [] a = (sym (append-nil a.text_buf), sym (append-nil a.thinking_buf))
  process_events-Delivered (e ∷ es) a =
      let r = process_event is_valid a e in
      let rest = process_events is_valid r.0 es in
      let (t, h) = process_event-Delivered is_valid a e in
      let (ts, hs) = process_events-Delivered es r.0 in
      (
        ts ∙ ap (λ x. x ++ texts rest.1) t ∙ append_assoc a.text_buf r.1.text_delta (texts rest.1),
        hs
            ∙ ap (λ x. x ++ thoughts rest.1) h
            ∙ append_assoc a.thinking_buf r.1.thinking_delta (thoughts rest.1),
      )

  -- What the non-streaming path reads from the buffers is, in order, the deltas that ProcessEvent
  -- returns for the events, those of FinalizeStream last.
  pub finalize-process_events :
      (a : Accumulator) (es : List Event)
      → let q = process_events is_valid a es in
        let f = finalize_stream q.0 in
        (f.0.text_buf ≡ a.text_buf ++ (texts q.1 ++ f.1.text_delta))
        × (f.0.thinking_buf ≡ a.thinking_buf ++ (thoughts q.1 ++ f.1.thinking_delta))
  finalize-process_events a es =
      let q = process_events is_valid a es in
      let f = finalize_stream q.0 in
      let (t, h) = process_events-Delivered es a in
      let (t', h') = finalize_stream-Delivered q.0 in
      (
        t' ∙ ap (λ x. x ++ f.1.text_delta) t ∙ append_assoc a.text_buf (texts q.1) f.1.text_delta,
        h'
            ∙ ap (λ x. x ++ f.1.thinking_delta) h
            ∙ append_assoc a.thinking_buf (thoughts q.1) f.1.thinking_delta,
      )
