-- ===== src/Respconv/NonStreaming/ToolUse.antt =====
-- The stop reason of the JSON response against its tool_use blocks.
use claude_code_kiro_models.Kiroproto.Event.{Event, EventType}
use claude_code_kiro_models.Prelude.Int.{ℤ}
use claude_code_kiro_models.Prelude.Numbers.{Float64}
use claude_code_kiro_models.Prelude.{
  InList, inl, ℕ, Bool, true, false, not, List, [], ◌∷◌, ◌++◌, String, Text, ◌≡◌, refl, ap, ◌∙◌,
  is_empty, map, Option, arith,
}
use claude_code_kiro_models.Respconv.Accumulator.{
  process_events, process_event, process_by_type, process_metadata, process_metering,
  process_assistant_response, process_content, route_thinking, route_text, accumulate_text,
  accumulate_thinking, process_reasoning_content, accumulate_redacted, process_tool_use_event,
  record_tool_call, finalize_stream, finalize_tags,
}
use claude_code_kiro_models.Respconv.NonStreaming.{
  ContentBlock, redacted_thinking, tool_use, content_of, tool_use_block, build_response_from_acc,
  build_non_streaming_response, thinking_blocks, text_blocks,
}
use claude_code_kiro_models.Respconv.Result.Reason.{
  Reported, ended, called_tool, ran_out, matched, finished-Reported,
}
use claude_code_kiro_models.Respconv.Result.{finalize_result, resolve_stop_reason}
use claude_code_kiro_models.Respconv.State.{ToolCall, Accumulator, new_accumulator}
use claude_code_kiro_models.Respconv.Stop.{StopReason}
use claude_code_kiro_models.Respconv.ToolCalls.Distinct.{deduplicate_tool_calls-IsAmong}
use claude_code_kiro_models.Respconv.ToolCalls.{deduplicate_tool_calls}

-- HasToolUse says whether a call is recorded.
abbrev pub Records : Accumulator → Type 0
Records a = is_empty a.tool_calls ≡ not a.has_tool_use

abbrev SameCalls : Accumulator → Accumulator → Type 0
SameCalls a b = (b.tool_calls ≡ a.tool_calls) × (b.has_tool_use ≡ a.has_tool_use)

process_content-SameCalls : (a : Accumulator) (t : Text) → SameCalls a (process_content a t).0
unfolding process_content route_thinking route_text accumulate_text accumulate_thinking
process_content-SameCalls a t = ground arith

is_empty-append : (cs : List ToolCall) (c : ToolCall) → is_empty (cs ++ (c ∷ [])) ≡ false
is_empty-append [] c = refl
is_empty-append (d ∷ cs) c = refl

module _ (is_valid : Text → Bool) where
  process_tool_use_event-Records :
      (a : Accumulator) (e : Event) → Records a → Records (process_tool_use_event is_valid a e).0
  unfolding process_tool_use_event record_tool_call
  process_tool_use_event-Records a e h = ground (arith, is_empty-append a.tool_calls)

  process_by_type-Records :
      (t : EventType) (a : Accumulator) (e : Event)
      → Records a
      → Records (process_by_type is_valid t a e).0
  unfolding process_by_type process_assistant_response process_reasoning_content accumulate_redacted
      accumulate_thinking process_metadata process_metering
  process_by_type-Records EventType.assistant_response a e h =
      ground (arith, process_content-SameCalls a e.content)
  process_by_type-Records EventType.tool_use a e h = process_tool_use_event-Records a e h
  process_by_type-Records _ a e h = ground arith

  process_events-Records :
      (es : List Event) (a : Accumulator) → Records a → Records (process_events is_valid a es).0
  unfolding process_events process_event
  process_events-Records [] a h = h
  process_events-Records (e ∷ es) a h =
      process_events-Records es (process_event is_valid a e).0
        (process_by_type-Records e.type a e h)

finalize_stream-Records : (a : Accumulator) → Records a → Records (finalize_stream a).0
unfolding finalize_stream finalize_tags route_thinking route_text accumulate_text
    accumulate_thinking
finalize_stream-Records a h = ground arith

InList-is_empty : (xs : List ToolCall) (x : ToolCall) → InList x xs → is_empty xs ≡ false
InList-is_empty [] x m = absurd m
InList-is_empty (y ∷ xs) x m = refl

deduplicate_tool_calls-is_empty :
    (normalize : Text → Text) (cs : List ToolCall)
    → is_empty (deduplicate_tool_calls normalize cs) ≡ is_empty cs
deduplicate_tool_calls-is_empty normalize [] = unfold deduplicate_tool_calls in refl
deduplicate_tool_calls-is_empty normalize (c ∷ cs) =
    let (x, (m, (o, (r, (mr, e))))) =
      deduplicate_tool_calls-IsAmong normalize (c ∷ cs) c (inl refl) in
    InList-is_empty (deduplicate_tool_calls normalize (c ∷ cs)) r mr

not_twice : (b : Bool) → not (not b) ≡ b
not_twice true = refl
not_twice false = refl

unfoldable pub has_tool_use_block : {Json : Type 0} → List (ContentBlock Json) → Bool
has_tool_use_block [] = false
has_tool_use_block (tool_use i n v ∷ bs) = true
has_tool_use_block (_ ∷ bs) = has_tool_use_block bs

module _ {Json : Type 0} (decode : Text → Option Json) (empty_object : Json) where
  has_tool_use_block-redacted :
      (rs : List Text) (bs : List (ContentBlock Json))
      → has_tool_use_block (map redacted_thinking rs ++ bs) ≡ has_tool_use_block bs
  unfolding has_tool_use_block
  has_tool_use_block-redacted [] bs = refl
  has_tool_use_block-redacted (r ∷ rs) bs = has_tool_use_block-redacted rs bs

  has_tool_use_block-thinking :
      (t s : Text) (bs : List (ContentBlock Json))
      → has_tool_use_block (thinking_blocks t s ++ bs) ≡ has_tool_use_block bs
  unfolding has_tool_use_block thinking_blocks
  has_tool_use_block-thinking [] s bs = refl
  has_tool_use_block-thinking (c ∷ t) s bs = refl

  has_tool_use_block-text :
      (t : Text) (bs : List (ContentBlock Json))
      → has_tool_use_block (text_blocks t ++ bs) ≡ has_tool_use_block bs
  unfolding has_tool_use_block text_blocks
  has_tool_use_block-text [] bs = refl
  has_tool_use_block-text (c ∷ t) bs = refl

  has_tool_use_block-calls :
      (cs : List ToolCall)
      → has_tool_use_block (map (tool_use_block decode empty_object) cs) ≡ not (is_empty cs)
  unfolding has_tool_use_block tool_use_block
  has_tool_use_block-calls [] = refl
  has_tool_use_block-calls (c ∷ cs) = refl

  content_of-has_tool_use_block :
      (normalize : Text → Text) (a : Accumulator)
      → Records a
      → has_tool_use_block
          (content_of decode empty_object a (deduplicate_tool_calls normalize a.tool_calls))
        ≡ a.has_tool_use
  unfolding content_of
  content_of-has_tool_use_block normalize a h =
      let cs = deduplicate_tool_calls normalize a.tool_calls in
      let us = map (tool_use_block decode empty_object) cs in
      has_tool_use_block-redacted a.redacted_contents _
      ∙ has_tool_use_block-thinking a.thinking_buf a.signature _
      ∙ has_tool_use_block-text a.text_buf us
      ∙ has_tool_use_block-calls cs
      ∙ ap not (deduplicate_tool_calls-is_empty normalize a.tool_calls ∙ h)
      ∙ not_twice a.has_tool_use

  tool_use_reported :
      (a : Accumulator) (r : StopReason × Option Text)
      → Reported a r
      → (r.0 ≡ StopReason.tool_use → a.has_tool_use ≡ true)
        × (r.0 ≡ StopReason.end_turn → a.has_tool_use ≡ false)
  tool_use_reported a r (ended l h e) = (λ q. absurd (ground arith), λ q. h)
  tool_use_reported a r (called_tool l h e) = (λ q. h, λ q. absurd (ground arith))
  tool_use_reported a r (ran_out l enforced spent e) =
      (λ q. absurd (ground arith), λ q. absurd (ground arith))
  tool_use_reported a r (matched l found e) =
      (λ q. absurd (ground arith), λ q. absurd (ground arith))

  -- A JSON response with the stop reason `tool_use` has a tool_use block, and one with `end_turn`
  -- has none.
  pub build_non_streaming_response-has_tool_use_block :
      (normalize : Text → Text) (tokens_used : Float64 → ℤ → ℕ) (is_valid : Text → Bool)
      (es : List Event) (model : String) (window : ℤ) (seqs : List Text) (max_tokens counted : ℤ)
      → let r =
          (build_non_streaming_response decode empty_object normalize tokens_used is_valid es model
            window seqs max_tokens counted).0 in
        (r.stop_reason ≡ StopReason.tool_use → has_tool_use_block r.content ≡ true)
        × (r.stop_reason ≡ StopReason.end_turn → has_tool_use_block r.content ≡ false)
  unfolding build_non_streaming_response build_response_from_acc finalize_result
  build_non_streaming_response-has_tool_use_block normalize used is_valid es m window seqs max n =
      let a = new_accumulator window seqs max n in
      let q = (process_events is_valid a es).0 in
      let b = (finalize_stream q).0 in
      let recorded : Records b =
        finalize_stream-Records q
          (process_events-Records is_valid es a (unfold new_accumulator in refl)) in
      let (called, not_called) =
        tool_use_reported b (resolve_stop_reason b)
          (finished-Reported is_valid window max n seqs es) in
      let blocks = content_of-has_tool_use_block normalize b recorded in
      (λ e. blocks ∙ called e, λ e. blocks ∙ not_called e)
