-- ===== src/Messages/Streaming/Transcript.antt =====
-- What a client receives from handleStreamingResponse.
use claude_code_kiro_models.Kiroproto.Event.{Event}
use claude_code_kiro_models.Messages.Streaming.{
  Ending, conclude_present, Handed, Outcome, consume, conclude, handle_streaming, stopped_at,
}
use claude_code_kiro_models.Messages.Streaming.Signal.{handle_event-Stopped}
use claude_code_kiro_models.Prelude.{
  All, ◌||◌, arith, ◌∙◌, sym, true≢false, some, Bool, true, false, List, [], ◌∷◌, String, Text, ◌≡◌,
  refl, inl, inr, if-intro, Bool-cases,
}
use claude_code_kiro_models.Respconv.State.{Accumulator}
use claude_code_kiro_models.Respconv.Sse.Protocol.{reached_from, Phase, reached, IsAllowed, Closed}
use claude_code_kiro_models.Respconv.Sse.Stream.{
  Ready, handle_event-Continues, handle_event-Ready, write_error-Closed, finish-Closed,
}
use claude_code_kiro_models.Respconv.Sse.{handle_event}
use claude_code_kiro_models.Respconv.SseEvent.{SseWriter, Env, new_sse_writer, is_upstream_error}

-- Where the writer stands once no more events are read.
Reads : SseWriter × Outcome → Type 0
Reads (s, Outcome.broken) = IsAllowed s.written
Reads (s, Outcome.local_stop) = Closed s
Reads (s, Outcome.stream_error _) = Ready s
Reads (s, Outcome.ended) = Ready s

-- No error of the session is seen.
abbrev pub IsPresent : Handed → Type 0
IsPresent h = (h.lost_before ≡ false) × (h.lost_after ≡ false)

Ready-IsAllowed : (s : SseWriter) → Ready s → IsAllowed s.written
Ready-IsAllowed s (inl (_, _, _, (a, _))) = a
Ready-IsAllowed s (inr (inl (_, _, (a, _)))) = a
Ready-IsAllowed s (inr (inr (_, (_, _, _, _, (a, _))))) = a

Reads-IsAllowed : (s : SseWriter) (o : Outcome) → Reads (s, o) → IsAllowed s.written
unfolding Reads
Reads-IsAllowed s Outcome.broken a = a
Reads-IsAllowed s Outcome.local_stop c = c.0
Reads-IsAllowed s (Outcome.stream_error e) r = Ready-IsAllowed s r
Reads-IsAllowed s Outcome.ended r = Ready-IsAllowed s r

module _ (env : Env) where
  handle_event-stopped_at :
      (s : SseWriter) (e : Event)
      → Ready s
      → (handle_event env s e).1 ≡ true
      → Reads ((handle_event env s e).0, stopped_at (handle_event env s e).0 e)
  unfolding stopped_at Reads
  handle_event-stopped_at s e r stop =
      let t = (handle_event env s e).0 in
      if-intro (λ o. Reads (t, o)) (is_upstream_error e.type)
        (λ up. handle_event-Ready env s e up r)
        (λ fine.
          if-intro (λ o. Reads (t, o)) t.acc.stop.local_stop
            (λ _. (handle_event-Continues env s e fine r).1 stop)
            (λ off.
              let on = handle_event-Stopped env s e fine stop in
              absurd (true≢false (sym on ∙ off))))

  handle_event-IsAllowed :
      (s : SseWriter) (e : Event) → Ready s → IsAllowed (handle_event env s e).0.written
  handle_event-IsAllowed s e r = elim (Bool-cases (is_upstream_error e.type)) [
    | inl up ↦ Ready-IsAllowed (handle_event env s e).0 (handle_event-Ready env s e up r)
    | inr fine ↦ elim (Bool-cases (handle_event env s e).1) [
      | inl stop ↦ ((handle_event-Continues env s e fine r).1 stop).0
      | inr go ↦
          Ready-IsAllowed (handle_event env s e).0 ((handle_event-Continues env s e fine r).0 go)
    ]
  ]

  -- An event that does not stop the stream leaves the writer ready: an upstream error always does.
  handle_event-goes_on :
      (s : SseWriter) (e : Event)
      → Ready s
      → (handle_event env s e).1 ≡ false
      → Ready (handle_event env s e).0
  handle_event-goes_on s e r go = elim (Bool-cases (is_upstream_error e.type)) [
    | inl up ↦ handle_event-Ready env s e up r
    | inr fine ↦ (handle_event-Continues env s e fine r).0 go
  ]

  or_false : (a b : Bool) → a || b ≡ true → b ≡ false → a ≡ true
  or_false a b h f = ground (arith, h, f)

  consume-Reads : (s : SseWriter) (hs : List Handed) → Ready s → Reads (consume env s hs)
  unfolding consume Reads
  consume-Reads s [] r = r
  consume-Reads s (h ∷ hs) r =
      let t = (handle_event env s h.event).0 in
      if-intro Reads (s.write_err || h.lost_before) (λ failed. Ready-IsAllowed s r)
        (λ _.
          if-intro Reads (t.write_err || h.lost_after)
            (λ failed. handle_event-IsAllowed s h.event r)
            (λ _.
              if-intro Reads (handle_event env s h.event).1 (handle_event-stopped_at s h.event r)
                (λ go. consume-Reads t hs (handle_event-goes_on s h.event r go))))

  -- Only a failed write breaks the stream of a client that is present.
  Breaks : SseWriter × Outcome → Type 0
  Breaks (s, Outcome.broken) = s.write_err ≡ true
  Breaks _ = Unit

  consume-Breaks : (s : SseWriter) (hs : List Handed) → All IsPresent hs → Breaks (consume env s hs)
  unfolding consume Breaks stopped_at
  consume-Breaks s [] p = tt
  consume-Breaks s (h ∷ hs) ((before, after), p) =
      let t = (handle_event env s h.event).0 in
      if-intro Breaks (s.write_err || h.lost_before)
        (λ failed. or_false s.write_err h.lost_before failed before)
        (λ _.
          if-intro Breaks (t.write_err || h.lost_after)
            (λ failed. or_false t.write_err h.lost_after failed after)
            (λ _.
              if-intro Breaks (handle_event env s h.event).1 (λ _. ground arith)
                (λ go. consume-Breaks t hs p)))

  -- Whatever arrives and whatever the ResponseWriter does, the client reads a transcript that the
  -- protocol allows.
  conclude_present-IsAllowed :
      (final : Event → String × Text) (end : Ending) (q : SseWriter × Outcome)
      → Reads q
      → IsAllowed (conclude_present env final end q).written
  unfolding conclude_present Reads
  conclude_present-IsAllowed final end (s, Outcome.broken) a = a
  conclude_present-IsAllowed final end (s, Outcome.local_stop) c = c.0
  conclude_present-IsAllowed final end (s, Outcome.stream_error e) r =
      (write_error-Closed env s (final e).0 (final e).1 r).0
  conclude_present-IsAllowed final end (s, Outcome.ended) r =
      if-intro (λ (t : SseWriter). IsAllowed t.written) end.parse_failed
        (λ _.
          if-intro (λ (t : SseWriter). IsAllowed t.written) end.gone_later
            (λ _. Ready-IsAllowed s r) (λ _. (write_error-Closed env s _ _ r).0))
        (λ _. (finish-Closed env s r).0)

  conclude_present-closed :
      (final : Event → String × Text) (end : Ending) (q : SseWriter × Outcome)
      → Reads q
      → Breaks q
      → end.gone_later ≡ false
      → (conclude_present env final end q).write_err ≡ false
      → reached (conclude_present env final end q).written ≡ some Phase.closed
  unfolding conclude_present Reads Breaks
  conclude_present-closed final end (s, Outcome.broken) a failed here ok =
      absurd (true≢false (sym failed ∙ ok))
  conclude_present-closed final end (s, Outcome.local_stop) c b here ok = c.1 ok
  conclude_present-closed final end (s, Outcome.stream_error e) r b here ok =
      (write_error-Closed env s (final e).0 (final e).1 r).1 ok
  conclude_present-closed final end (s, Outcome.ended) r b here ok =
      let P = λ (t : SseWriter). t.write_err ≡ false → reached t.written ≡ some Phase.closed in
      if-intro P end.parse_failed
        (λ _.
          if-intro P end.gone_later (λ gone. absurd (true≢false (sym gone ∙ here)))
            (λ _. (write_error-Closed env s _ _ r).1))
        (λ _. (finish-Closed env s r).1) ok

  conclude-IsAllowed :
      (final : Event → String × Text) (end : Ending) (q : SseWriter × Outcome)
      → Reads q
      → IsAllowed (conclude env final end q).written
  unfolding conclude
  conclude-IsAllowed final end (s, o) r =
      if-intro (λ (t : SseWriter). IsAllowed t.written) (s.write_err || end.gone)
        (λ _. Reads-IsAllowed s o r) (λ _. conclude_present-IsAllowed final end (s, o) r)

  conclude-closed :
      (final : Event → String × Text) (end : Ending) (q : SseWriter × Outcome)
      → Reads q
      → Breaks q
      → end.gone ≡ false
      → end.gone_later ≡ false
      → (conclude env final end q).write_err ≡ false
      → reached (conclude env final end q).written ≡ some Phase.closed
  unfolding conclude
  conclude-closed final end (s, o) r b here later =
      let P = λ (t : SseWriter). t.write_err ≡ false → reached t.written ≡ some Phase.closed in
      if-intro P (s.write_err || end.gone)
        (λ failed ok. absurd (true≢false (sym (or_false s.write_err end.gone failed here) ∙ ok)))
        (λ _. conclude_present-closed final end (s, o) r b later)

  new_sse_writer-Ready :
      (model id : String) (acc : Accumulator) → Ready (new_sse_writer model id acc)
  unfolding new_sse_writer reached reached_from
  new_sse_writer-Ready model id acc = inl (refl, refl, refl, ((Phase.fresh, refl), λ _. refl))

-- Whatever events arrive, however the stream ends, whatever the ResponseWriter does and whenever the
-- client goes, what the client of a promoted session has read is the beginning of a well-formed
-- Messages API stream: one message_start, then blocks opened, fed with deltas of their kind and
-- closed, one at a time, at the indices 0, 1, 2 and so on, then message_delta and message_stop; or
-- one error event in place of what follows when no block is open. When no write failed and no error
-- of the session or the context was seen, the stream is complete.
pub handle_streaming-Closed :
    (env : Env) (final : Event → String × Text) (end : Ending) (model id : String)
    (acc : Accumulator) (hs : List Handed)
    → let s = handle_streaming env final end (new_sse_writer model id acc) hs in
      IsAllowed s.written
      × (All IsPresent hs
          → end.gone ≡ false
          → end.gone_later ≡ false
          → s.write_err ≡ false
          → reached s.written ≡ some Phase.closed)
unfolding handle_streaming
handle_streaming-Closed env final end model id acc hs =
    let s = new_sse_writer model id acc in
    let reads = consume-Reads env s hs (new_sse_writer-Ready env model id acc) in
    (
      conclude-IsAllowed env final end _ reads,
      λ present. conclude-closed env final end _ reads (consume-Breaks env s hs present),
    )
