-- ===== src/Respconv/Result/Reason.antt =====
-- The stop reason that a finished response reports.
use claude_code_kiro_models.Kiroproto.Event.{Event}
use claude_code_kiro_models.Prelude.Int.{ℤ}
use claude_code_kiro_models.Prelude.{
  ◌<◌, ◌≤◌, ◌*◌, contains, inr, inl, Bool, true, false, List, Option, none, some, Text, ◌≡◌, refl,
  arith,
}
use claude_code_kiro_models.Respconv.Accumulator.{process_events, finalize_stream}
use claude_code_kiro_models.Respconv.State.{Accumulator, new_accumulator}
use claude_code_kiro_models.Respconv.Accumulator.Latch.{IsCoherent, finished-IsCoherent}
use claude_code_kiro_models.Respconv.Result.{resolve_stop_reason}
use claude_code_kiro_models.Respconv.Stop.{StopReason, budget_of}

-- The report, by what has happened.
pub data Reported (a : Accumulator) : StopReason × Option Text → Type 0 where
  ended :
      {r : StopReason × Option Text}
      → a.stop.local_stop ≡ false
      → a.has_tool_use ≡ false
      → r ≡ (StopReason.end_turn, none)
      → Reported a r
  called_tool :
      {r : StopReason × Option Text}
      → a.stop.local_stop ≡ false
      → a.has_tool_use ≡ true
      → r ≡ (StopReason.tool_use, none)
      → Reported a r
  ran_out :
      {r : StopReason × Option Text}
      → a.stop.local_stop ≡ true
      → 0 < budget_of a.stop.max_tokens_budget
      → budget_of a.stop.max_tokens_budget * 4 ≤ a.stop.output_rune_count
      → r ≡ (StopReason.max_tokens, none)
      → Reported a r
  matched :
      {r : StopReason × Option Text}
      → a.stop.local_stop ≡ true
      → contains a.stop.stop_sequences a.stop.matched ≡ true
      → r ≡ (StopReason.stop_sequence, some a.stop.matched)
      → Reported a r

resolve_stop_reason-cases :
    (a : Accumulator) (tool_use : Bool)
    → a.has_tool_use ≡ tool_use
    → IsCoherent a.stop
    → Reported a (resolve_stop_reason a)
unfolding resolve_stop_reason
resolve_stop_reason-cases a true t (inl (h, r)) = called_tool h t (ground arith)
resolve_stop_reason-cases a false t (inl (h, r)) = ended h t (ground arith)
resolve_stop_reason-cases a tool_use t (inr (h, inl (r, (enforced, spent)))) =
    ran_out h enforced spent (ground arith)
resolve_stop_reason-cases a tool_use t (inr (h, inr (r, found))) = matched h found (ground arith)

-- After any stream of events and its end the report is: `end_turn` or `tool_use`, by whether a tool
-- was called, if the proxy has not stopped the response; and if it has, `max_tokens` when a budget
-- is enforced and its runes, four for a token, are used up, or `stop_sequence` when a configured
-- sequence is noted as matched, with that sequence.
pub finished-Reported :
    (is_valid : Text → Bool) (window max_tokens pre_counted : ℤ) (seqs : List Text)
    (es : List Event)
    → let a = new_accumulator window seqs max_tokens pre_counted in
      let b = (finalize_stream (process_events is_valid a es).0).0 in
      Reported b (resolve_stop_reason b)
finished-Reported is_valid window max_tokens pre_counted seqs es =
    let a = new_accumulator window seqs max_tokens pre_counted in
    let b = (finalize_stream (process_events is_valid a es).0).0 in
    resolve_stop_reason-cases b b.has_tool_use refl
      (finished-IsCoherent is_valid window max_tokens pre_counted seqs es)
