-- ===== src/Respconv/Accumulator/Overrun.antt =====
-- Text behind a thought in one chunk is not held to the budget that the thought has used up.
use claude_code_kiro_models.Prelude.{
  ◌∙◌, ◌∷◌, ◌≤◌, ◌<◌, true, false, [], Text, ◌≡◌, ◌≢◌, refl, arith, length,
}
use claude_code_kiro_models.Respconv.Accumulator.{
  StopState, Routed, process_content, route_thinking, route_text, accumulate_text,
  accumulate_thinking, filter_text, limit_text, content_delta,
}
use claude_code_kiro_models.Respconv.State.{EventDelta, Accumulator}
use claude_code_kiro_models.Respconv.Stop.{take_all_runes, budget_of, apply_max_tokens_budget}
use claude_code_kiro_models.Respconv.Stop.Budget.{room, apply_max_tokens_budget-take}
use claude_code_kiro_models.Respconv.ThinkingTags.{parse_thinking_tags}

accumulate_text_stopped :
    (a : Accumulator) (t : Text)
    → a.stop.local_stop ≡ true
    → a.stop.stop_sequences ≡ []
    → (accumulate_text a t).1 ≡ t
unfolding accumulate_text filter_text limit_text
accumulate_text_stopped a t h e = ground arith

apply_max_tokens_budget-sequences :
    (s : StopState) (t : Text) → (apply_max_tokens_budget s t).0.stop_sequences ≡ s.stop_sequences
unfolding apply_max_tokens_budget take_all_runes
apply_max_tokens_budget-sequences s t = ground arith

accumulate_thinking_stops :
    (a : Accumulator) (t : Text) (d : EventDelta)
    → a.stop.local_stop ≡ false
    → a.stop.stop_sequences ≡ []
    → 0 < budget_of a.stop.max_tokens_budget
    → room a.stop ≤ length t
    → ((accumulate_thinking a t d).0.stop.local_stop ≡ true)
      × ((accumulate_thinking a t d).0.stop.stop_sequences ≡ [])
unfolding accumulate_thinking
accumulate_thinking_stops a t d h e p long =
    ground
      (arith, apply_max_tokens_budget-take a.stop t p h, apply_max_tokens_budget-sequences a.stop t)

accumulate_thinking-text :
    (a : Accumulator) (t : Text) (d : EventDelta)
    → (accumulate_thinking a t d).1.text_delta ≡ d.text_delta
unfolding accumulate_thinking
accumulate_thinking-text a t d = ground arith

route_text_overrun :
    (a : Accumulator) (t : Text) (d : EventDelta)
    → a.stop.local_stop ≡ true
    → a.stop.stop_sequences ≡ []
    → d.text_delta ≡ []
    → (route_text a t d).1.text_delta ≡ t
unfolding route_text
route_text_overrun a t d h e none_yet = ground (arith, accumulate_text_stopped a t h e)

process_content_text :
    (a : Accumulator) (content : Text)
    → let r = parse_thinking_tags a.tags content in
      let q = route_thinking (record a { tags = r.state }) r.thinking_out (content_delta r) in
      (process_content a content).1.text_delta ≡ (route_text q.0 r.text_out q.1).1.text_delta
unfolding process_content
process_content_text a content = ground arith

-- Without stop sequences a chunk whose thought uses up what is left of the budget still sends all
-- of its text, whatever its length.
pub process_content_overrun :
    (a : Accumulator) (content : Text)
    → a.stop.local_stop ≡ false
    → a.stop.stop_sequences ≡ []
    → 0 < budget_of a.stop.max_tokens_budget
    → room a.stop ≤ length (parse_thinking_tags a.tags content).thinking_out
    → (parse_thinking_tags a.tags content).thinking_out ≢ []
    → (process_content a content).1.text_delta ≡ (parse_thinking_tags a.tags content).text_out
process_content_overrun a content h e p long ne =
    let r = parse_thinking_tags a.tags content in
    process_content_text a content ∙ go r.thinking_out long ne
  where
    r : Routed
    r = parse_thinking_tags a.tags content

    b : Accumulator
    b = record a { tags = r.state }

    go :
        (t : Text)
        → room a.stop ≤ length t
        → t ≢ []
        → let q = route_thinking b t (content_delta r) in
          (route_text q.0 r.text_out q.1).1.text_delta ≡ r.text_out
    go [] long ne = absurd (ne refl)
    go (c ∷ t) long ne =
        let (stopped, plain) = accumulate_thinking_stops b (c ∷ t) (content_delta r) h e p long in
        unfold route_thinking in
        route_text_overrun (accumulate_thinking b (c ∷ t) (content_delta r)).0 r.text_out
          (accumulate_thinking b (c ∷ t) (content_delta r)).1 stopped plain
          (accumulate_thinking-text b (c ∷ t) (content_delta r))
