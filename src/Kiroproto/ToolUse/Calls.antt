-- ===== src/Kiroproto/ToolUse/Calls.antt =====
-- Tool calls that come in pieces.
use claude_code_kiro_models.Kiroproto.ToolUse.{
  Payload, ToolUseAccumulator, idle, tool_event, build_and_reset, flush, tool_events,
}
use claude_code_kiro_models.Prelude.{
  str_eq_other, true, List, [], ◌∷◌, ◌++◌, String, Text, ◌≡◌, ◌≢◌, refl, sym, ap, ◌∙◌, append-nil,
  if-intro, map,
}
use claude_code_kiro_models.Kiroproto.ToolUse.Sent.{
  Call, frames, all_frames, said, has_whole, is_named, call_event, AreDistinct,
}
use claude_code_kiro_models.Kiroproto.ToolUse.Held.{
  holding, name_after, input_after, reported, tool_events_first, tool_events_parts,
}

flush-holding :
    (id name : String) (input : Text)
    → id ≢ ""
    → (flush (holding id name input)).1 ≡ tool_event id name input ∷ []
unfolding flush build_and_reset
flush-holding id name input h = rw (str_eq_other id "" h) refl

-- The calls after the first differ from it, and from no call.
AreDistinct-idle : (id : String) (cs : List Call) → AreDistinct id cs → AreDistinct "" cs
unfolding AreDistinct
AreDistinct-idle id [] d = tt
AreDistinct-idle id (c ∷ cs) (h, _, own, named, d) = (h, h, own, named, d)

-- A named call: its name and its whole input are held at its end.
tool_events_call :
    (c : Call) (rest : List (String × Payload))
    → c.id ≢ ""
    → is_named (c.first ∷ c.later) ≡ true
    → tool_events (holding c.id "" []) (frames c ++ rest)
      ≡ reported c.id c.name (said (c.first ∷ c.later)) c.stops rest
tool_events_call c rest h named =
    tool_events_parts c.id c.name "" [] c.stops c.first c.later rest h
    ∙ ap
        (λ b.
          reported c.id (name_after "" c.name b)
            (input_after [] (has_whole (c.first ∷ c.later)) (said (c.first ∷ c.later))) c.stops
            rest)
        named
    ∙ ap (λ t. reported c.id c.name t c.stops rest)
        (if-intro (λ t. t ≡ said (c.first ∷ c.later)) (has_whole (c.first ∷ c.later)) (λ _. refl)
          (λ _. refl))

tool_events-calls :
    (a : ToolUseAccumulator) (cs : List Call)
    → AreDistinct a.tool_use_id cs
    → tool_events a (all_frames cs) ≡ (flush a).1 ++ map call_event cs
unfolding tool_events AreDistinct flush all_frames
tool_events-calls a [] d = sym (append-nil (flush a).1)
tool_events-calls a (c ∷ cs) (h, other, own, named, d) =
    let input = said (c.first ∷ c.later) in
    let later =
      tool_events-calls (holding c.id c.name input) cs d
      ∙ ap (λ es. es ++ map call_event cs) (flush-holding c.id c.name input h) in
    let stopped = tool_events-calls idle cs (AreDistinct-idle c.id cs d) in
    tool_events_first a c.id c.name c.stops c.first c.later (all_frames cs) h other own
    ∙ ap (◌++◌ (flush a).1) (
        tool_events_call c (all_frames cs) h named
        ∙ if-intro (λ es. es ≡ call_event c ∷ map call_event cs) c.stops
            (λ _. ap (◌∷◌ (call_event c)) stopped) (λ _. later))

-- Whatever way the upstream cuts its tool calls into frames: which of them carry the id, the name,
-- a piece of the input, a whole input that is no JSON string, or the stop: each call is reported
-- once, in order, under its id and name and with its whole input, if no id is empty, no call has
-- the id of the one before it, its first frame carries the id, and one of its frames the name.
pub tool_events-frames :
    (cs : List Call) → AreDistinct "" cs → tool_events idle (all_frames cs) ≡ map call_event cs
unfolding flush
tool_events-frames cs d = tool_events-calls idle cs d
