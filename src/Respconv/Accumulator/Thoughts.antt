-- ===== src/Respconv/Accumulator/Thoughts.antt =====
-- The thinking of a reply under max_tokens.
use claude_code_kiro_models.Kiroproto.Event.{Event, EventType}
use claude_code_kiro_models.Prelude.{◌-◌, ◌≤◌, ◌≡◌, ◌⊎◌, true, false, [], Text, length, take}
use claude_code_kiro_models.Respconv.State.{Accumulator, EventDelta}
use claude_code_kiro_models.Respconv.Stop.Budget.{room}
use claude_code_kiro_models.Respconv.Stop.{budget_of}

-- A reasoning event with thinking, not with a redacted blob.
abbrev pub IsThought : Event → Type 0
IsThought e = (e.type ≡ EventType.reasoning_content) × (e.redacted_content ≡ [])

abbrev pub thinking_text : Event → Text
thinking_text e = e.thinking_text

-- What one thought does to a response that goes on: it stops it, or there is room for all of it.
abbrev IsCut : Accumulator → Text → Accumulator × EventDelta → Type 0
IsCut a t r =
    (r.1.thinking_delta ≡ take (room a.stop) t)
    × (r.0.tags.suppress ≡ a.tags.suppress)
    × (budget_of r.0.stop.max_tokens_budget ≡ budget_of a.stop.max_tokens_budget)
    × (((r.0.stop.local_stop ≡ true) × (room a.stop ≤ length t))
        ⊎ ((r.0.stop.local_stop ≡ false)
            × (room r.0.stop ≡ room a.stop - length t)
            × (length t ≤ room a.stop)))
