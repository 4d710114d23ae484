-- ===== src/Respconv/Accumulator/Latch.antt =====
-- A response that has stopped stays as it is, and a stop always has a reason.
use claude_code_kiro_models.Kiroproto.Event.{Event, EventType}
use claude_code_kiro_models.Prelude.{
  is_empty, if-intro, ◌||◌, inr, Option, ℕ, ◌++◌, ◌<◌, ◌≤◌, ◌*◌, contains, text_eq_refl, Bool, true,
  false, List, [], ◌∷◌, none, some, Text, ◌≡◌, refl, ◌⊎◌, inl, arith,
}
use claude_code_kiro_models.Respconv.Accumulator.{
  finalize_thinking_tags, ℤ, process_events, content_delta, parse_thinking_tags,
  accumulate_thinking, accumulate_text, accumulate_redacted, filter_text, limit_text,
  route_thinking, route_text, process_content, process_assistant_response,
  process_reasoning_content, process_metadata, process_metering, process_tool_use_event,
  record_tool_call, process_by_type, process_event, finalize_tags, finalize_stream,
}
use claude_code_kiro_models.Respconv.State.{Accumulator, EventDelta, no_delta, new_accumulator}
use claude_code_kiro_models.Respconv.Stop.{
  budget_of, find_match, take_all_runes, StopState, StopReason, apply_max_tokens_budget,
  apply_stop_sequence_filter, accumulate_opaque_output, add_stop_sequences, add_stop_sequence,
  init_stop_sequences, flush_stop_seq_pending,
}

-- The budget is used up; a configured sequence has been matched.
abbrev pub IsSpent : StopState → Type 0
IsSpent s =
    (0 < budget_of s.max_tokens_budget) × (budget_of s.max_tokens_budget * 4 ≤ s.output_rune_count)

abbrev pub IsMatched : StopState → Type 0
IsMatched s = contains s.stop_sequences s.matched ≡ true

-- A stop has one of the two reasons, with its cause, and a response that goes on has none.
abbrev pub IsCoherent : StopState → Type 0
IsCoherent s =
    ((s.local_stop ≡ false) × (s.reason ≡ none))
    ⊎ ((s.local_stop ≡ true)
        × (((s.reason ≡ some StopReason.max_tokens) × IsSpent s)
            ⊎ ((s.reason ≡ some StopReason.stop_sequence) × IsMatched s)))

find_match-IsMatched :
    (seqs : List Text) (pending s : Text) (i : ℕ)
    → find_match seqs pending ≡ some (s, i)
    → contains seqs s ≡ true
unfolding find_match contains
find_match-IsMatched [] pending s i e = ground (arith, e)
find_match-IsMatched (t ∷ seqs) pending s i e =
    ground (arith, e, find_match-IsMatched seqs pending s i, text_eq_refl s)

found_cases : (o : Option (Text × ℕ)) → (o ≡ none) ⊎ ((s : Text) × (i : ℕ) × (o ≡ some (s, i)))
found_cases none = inl refl
found_cases (some (s, i)) = inr (s, i, refl)

apply_max_tokens_budget-IsCoherent :
    (s : StopState) (t : Text) → IsCoherent s → IsCoherent (apply_max_tokens_budget s t).0
unfolding apply_max_tokens_budget take_all_runes
apply_max_tokens_budget-IsCoherent s t h = ground arith

apply_stop_sequence_filter-IsCoherent :
    (s : StopState) (t : Text) → IsCoherent s → IsCoherent (apply_stop_sequence_filter s t).0
unfolding apply_stop_sequence_filter
apply_stop_sequence_filter-IsCoherent s t h =
    let pending = s.stop_seq_pending ++ t in
    elim (found_cases (find_match s.stop_sequences pending)) [
      | inl nothing ↦ ground (arith, nothing)
      | inr (seq, i, e) ↦ ground (arith, e, find_match-IsMatched s.stop_sequences pending seq i e)
    ]

accumulate_opaque_output-IsCoherent :
    (s : StopState) (t : Text) → IsCoherent s → IsCoherent (accumulate_opaque_output s t)
unfolding accumulate_opaque_output
accumulate_opaque_output-IsCoherent s t h = ground arith

accumulate_thinking-IsCoherent :
    (a : Accumulator) (t : Text) (d : EventDelta)
    → IsCoherent a.stop
    → IsCoherent (accumulate_thinking a t d).0.stop
unfolding accumulate_thinking
accumulate_thinking-IsCoherent a t d h = apply_max_tokens_budget-IsCoherent a.stop t h

accumulate_text-IsCoherent :
    (a : Accumulator) (t : Text) → IsCoherent a.stop → IsCoherent (accumulate_text a t).0.stop
unfolding accumulate_text filter_text limit_text
accumulate_text-IsCoherent a t h =
    let f = apply_stop_sequence_filter a.stop t in
    ground (
      arith,
      apply_stop_sequence_filter-IsCoherent a.stop t h,
      apply_max_tokens_budget-IsCoherent f.0 f.1,
      apply_max_tokens_budget-IsCoherent a.stop t,
    )

route_thinking-IsCoherent :
    (a : Accumulator) (t : Text) (d : EventDelta)
    → IsCoherent a.stop
    → IsCoherent (route_thinking a t d).0.stop
unfolding route_thinking
route_thinking-IsCoherent a t d h =
    if-intro (λ (r : Accumulator × EventDelta). IsCoherent r.0.stop) (is_empty t) (λ _. h)
      (λ _. accumulate_thinking-IsCoherent a t d h)

route_text-IsCoherent :
    (a : Accumulator) (t : Text) (d : EventDelta)
    → IsCoherent a.stop
    → IsCoherent (route_text a t d).0.stop
unfolding route_text
route_text-IsCoherent a t d h =
    if-intro (λ (r : Accumulator × EventDelta). IsCoherent r.0.stop) (is_empty t) (λ _. h)
      (λ _. accumulate_text-IsCoherent a t h)

process_content-IsCoherent :
    (a : Accumulator) (t : Text) → IsCoherent a.stop → IsCoherent (process_content a t).0.stop
unfolding process_content
process_content-IsCoherent a t h =
    let r = parse_thinking_tags a.tags t in
    let q = route_thinking (record a { tags = r.state }) r.thinking_out (content_delta r) in
    route_text-IsCoherent q.0 r.text_out q.1
      (route_thinking-IsCoherent (record a { tags = r.state }) r.thinking_out (content_delta r) h)

process_reasoning_content-IsCoherent :
    (a : Accumulator) (e : Event)
    → IsCoherent a.stop
    → IsCoherent (process_reasoning_content a e).0.stop
unfolding process_reasoning_content accumulate_redacted accumulate_thinking
process_reasoning_content-IsCoherent a e h = ground (
  arith,
  accumulate_opaque_output-IsCoherent a.stop e.redacted_content h,
  apply_max_tokens_budget-IsCoherent a.stop e.thinking_text h,
)

finalize_tags-IsCoherent :
    (a : Accumulator) → IsCoherent a.stop → IsCoherent (finalize_tags a).0.stop
unfolding finalize_tags
finalize_tags-IsCoherent a h =
    let r = finalize_thinking_tags a.tags in
    let q = route_thinking (record a { tags = r.state }) r.thinking_out no_delta in
    route_text-IsCoherent q.0 r.text_out q.1
      (route_thinking-IsCoherent (record a { tags = r.state }) r.thinking_out no_delta h)

finalize_stream-IsCoherent :
    (a : Accumulator) → IsCoherent a.stop → IsCoherent (finalize_stream a).0.stop
unfolding finalize_stream flush_stop_seq_pending
finalize_stream-IsCoherent a h =
    let b = (finalize_tags a).0 in
    let s = record b.stop { stop_seq_pending = [] } in
    let tags = finalize_tags-IsCoherent a h in
    if-intro (λ (r : Accumulator × EventDelta). IsCoherent r.0.stop)
      (is_empty b.stop.stop_seq_pending || s.local_stop) (λ _. tags)
      (λ _. apply_max_tokens_budget-IsCoherent s b.stop.stop_seq_pending tags)

add_stop_sequences_running :
    (seqs : List Text) (s : StopState)
    → s.local_stop ≡ false
    → s.reason ≡ none
    → IsCoherent (add_stop_sequences s seqs)
unfolding add_stop_sequences add_stop_sequence
add_stop_sequences_running [] s h r = inl (h, r)
add_stop_sequences_running ([] ∷ seqs) s h r = add_stop_sequences_running seqs s h r
add_stop_sequences_running ((c ∷ t) ∷ seqs) s h r =
    add_stop_sequences_running seqs (add_stop_sequence s (c ∷ t)) h r

new_accumulator-IsCoherent :
    (window max_tokens pre_counted : ℤ) (seqs : List Text)
    → IsCoherent (new_accumulator window seqs max_tokens pre_counted).stop
unfolding new_accumulator init_stop_sequences
new_accumulator-IsCoherent window max_tokens pre_counted seqs =
    add_stop_sequences_running seqs _ refl refl

module _ (is_valid : Text → Bool) where
  process_tool_use_event-IsCoherent :
      (a : Accumulator) (e : Event)
      → IsCoherent a.stop
      → IsCoherent (process_tool_use_event is_valid a e).0.stop
  unfolding process_tool_use_event record_tool_call
  process_tool_use_event-IsCoherent a e h =
      ground (arith, accumulate_opaque_output-IsCoherent a.stop e.tool_input h)

  process_by_type-IsCoherent :
      (t : EventType) (a : Accumulator) (e : Event)
      → IsCoherent a.stop
      → IsCoherent (process_by_type is_valid t a e).0.stop
  unfolding process_by_type process_metadata process_metering process_assistant_response
  process_by_type-IsCoherent EventType.assistant_response a e h =
      ground (arith, process_content-IsCoherent a e.content h)
  process_by_type-IsCoherent EventType.reasoning_content a e h =
      process_reasoning_content-IsCoherent a e h
  process_by_type-IsCoherent EventType.tool_use a e h = process_tool_use_event-IsCoherent a e h
  process_by_type-IsCoherent EventType.metadata a e h = ground arith
  process_by_type-IsCoherent EventType.metering a e h = ground arith
  process_by_type-IsCoherent _ a e h = h

  process_events-IsCoherent :
      (es : List Event) (a : Accumulator)
      → IsCoherent a.stop
      → IsCoherent (process_events is_valid a es).0.stop
  unfolding process_events process_event
  process_events-IsCoherent [] a h = h
  process_events-IsCoherent (e ∷ es) a h =
      process_events-IsCoherent es _ (process_by_type-IsCoherent e.type a e h)

  -- After any stream of events from a new accumulator, and its end: a response that goes on has no
  -- stop reason, and one that has stopped has `max_tokens` or `stop_sequence`.
  pub finished-IsCoherent :
      (window max_tokens pre_counted : ℤ) (seqs : List Text) (es : List Event)
      → IsCoherent
          (finalize_stream
            (process_events is_valid
              (new_accumulator window seqs max_tokens pre_counted)
              es).0).0.stop
  finished-IsCoherent window max_tokens pre_counted seqs es = finalize_stream-IsCoherent _ (
      process_events-IsCoherent es _
        (new_accumulator-IsCoherent window max_tokens pre_counted seqs))

  -- What a response that has stopped keeps, whatever still arrives.
  pub record Sealed (a b : Accumulator) : Type 0 where
    pub stays_stopped : b.stop.local_stop ≡ true
    pub same_reason : b.stop.reason ≡ a.stop.reason
    pub same_match : b.stop.matched ≡ a.stop.matched
    pub same_text : b.text_buf ≡ a.text_buf
    pub same_thinking : b.thinking_buf ≡ a.thinking_buf
    pub same_tools : b.tool_calls ≡ a.tool_calls
    pub same_tool_use : b.has_tool_use ≡ a.has_tool_use

  process_by_type-Sealed :
      (t : EventType) (a : Accumulator) (e : Event)
      → a.stop.local_stop ≡ true
      → Sealed a (process_by_type is_valid t a e).0
  unfolding process_by_type process_metadata process_metering process_assistant_response
      process_reasoning_content process_tool_use_event accumulate_redacted accumulate_opaque_output
  process_by_type-Sealed EventType.assistant_response a e h = ground arith
  process_by_type-Sealed EventType.reasoning_content a e h = ground arith
  process_by_type-Sealed EventType.tool_use a e h = ground arith
  process_by_type-Sealed EventType.metadata a e h = ground arith
  process_by_type-Sealed EventType.metering a e h = ground arith
  process_by_type-Sealed _ a e h = ground arith

  Sealed-trans : (a b c : Accumulator) → Sealed a b → Sealed b c → Sealed a c
  Sealed-trans a b c p q = ground arith

  -- Once a response has stopped, no event changes its reason, its matched sequence, its text, its
  -- thinking or its tool calls.
  pub process_events-Sealed :
      (es : List Event) (a : Accumulator)
      → a.stop.local_stop ≡ true
      → Sealed a (process_events is_valid a es).0
  unfolding process_events process_event
  process_events-Sealed [] a h = ground arith
  process_events-Sealed (e ∷ es) a h =
      let p = process_by_type-Sealed e.type a e h in
      Sealed-trans a _ _ p (process_events-Sealed es _ p.stays_stopped)
