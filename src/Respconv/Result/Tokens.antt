-- ===== src/Respconv/Result/Tokens.antt =====
-- Token counts: metadata before metering, and never below zero.
use claude_code_kiro_models.Kiroproto.Event.{Event, EventType}
use claude_code_kiro_models.Prelude.Int.{neg_part}
use claude_code_kiro_models.Prelude.{
  ◌∙◌, Bool, true, List, [], ◌∷◌, Text, ◌≡◌, ◌≢◌, refl, arith, All,
}
use claude_code_kiro_models.Respconv.Accumulator.{
  process_events, process_event, process_by_type, process_metadata, process_metering,
  process_assistant_response, process_content, route_thinking, route_text, accumulate_text,
  accumulate_thinking, process_reasoning_content, accumulate_redacted, process_tool_use_event,
  record_tool_call,
}
use claude_code_kiro_models.Respconv.State.{Accumulator}

-- No count is negative.
abbrev pub IsCounted : Accumulator → Type 0
IsCounted a =
    (neg_part a.input_tokens ≡ 0)
    × (neg_part a.output_tokens ≡ 0)
    × (neg_part a.cache_read_input_tokens ≡ 0)
    × (neg_part a.cache_write_input_tokens ≡ 0)

-- The counts that an event other than those of usage leaves alone.
abbrev pub SameCounts : Accumulator → Accumulator → Type 0
SameCounts a b =
    (b.input_tokens ≡ a.input_tokens)
    × (b.output_tokens ≡ a.output_tokens)
    × (b.cache_read_input_tokens ≡ a.cache_read_input_tokens)
    × (b.cache_write_input_tokens ≡ a.cache_write_input_tokens)
    × (b.has_metadata ≡ a.has_metadata)

process_content-SameCounts : (a : Accumulator) (t : Text) → SameCounts a (process_content a t).0
unfolding process_content route_thinking route_text accumulate_text accumulate_thinking
process_content-SameCounts a t = ground arith

module _ (is_valid : Text → Bool) where
  process_by_type-SameCounts :
      (t : EventType) (a : Accumulator) (e : Event)
      → t ≢ EventType.metadata
      → t ≢ EventType.metering
      → SameCounts a (process_by_type is_valid t a e).0
  unfolding process_by_type process_assistant_response process_reasoning_content accumulate_redacted
      accumulate_thinking process_tool_use_event record_tool_call
  process_by_type-SameCounts EventType.assistant_response a e p q =
      ground (arith, process_content-SameCounts a e.content)
  process_by_type-SameCounts EventType.metadata a e p q = absurd (p refl)
  process_by_type-SameCounts EventType.metering a e p q = absurd (q refl)
  process_by_type-SameCounts _ a e p q = ground arith

  process_by_type-IsCounted :
      (t : EventType) (a : Accumulator) (e : Event)
      → IsCounted a
      → IsCounted (process_by_type is_valid t a e).0
  unfolding process_by_type process_metadata process_metering
  process_by_type-IsCounted EventType.metadata a e h = ground arith
  process_by_type-IsCounted EventType.metering a e h = ground arith
  process_by_type-IsCounted t a e h =
      ground (arith, process_by_type-SameCounts t a e (λ q. cc) (λ q. cc))

  -- With metadata in hand an event that is no metadata leaves every count alone.
  process_by_type-keeps :
      (t : EventType) (a : Accumulator) (e : Event)
      → t ≢ EventType.metadata
      → a.has_metadata ≡ true
      → SameCounts a (process_by_type is_valid t a e).0
  unfolding process_by_type process_metering
  process_by_type-keeps EventType.metering a e p h = ground arith
  process_by_type-keeps EventType.metadata a e p h = absurd (p refl)
  process_by_type-keeps t a e p h = process_by_type-SameCounts t a e p (λ q. cc)

  SameCounts-trans : (a b c : Accumulator) → SameCounts a b → SameCounts b c → SameCounts a c
  SameCounts-trans a b c p q = ground arith

  -- Once usable metadata has been counted, no later event of another type changes the input,
  -- output and cache counts: metering does not override metadata.
  process_events-SameCounts :
      (es : List Event) (a : Accumulator)
      → All (λ e. e.type ≢ EventType.metadata) es
      → a.has_metadata ≡ true
      → SameCounts a (process_events is_valid a es).0
  unfolding process_events process_event
  process_events-SameCounts [] a p h = (refl, refl, refl, refl, refl)
  process_events-SameCounts (e ∷ es) a p h =
      let b = (process_by_type is_valid e.type a e).0 in
      let s = process_by_type-keeps e.type a e p.0 h in
      SameCounts-trans a b (process_events is_valid b es).0 s
        (process_events-SameCounts es b p.1 (s.4 ∙ h))

  -- The counts never go below zero.
  process_events-IsCounted :
      (es : List Event) (a : Accumulator) → IsCounted a → IsCounted (process_events is_valid a es).0
  unfolding process_events process_event
  process_events-IsCounted [] a h = h
  process_events-IsCounted (e ∷ es) a h =
      process_events-IsCounted es _ (process_by_type-IsCounted e.type a e h)
