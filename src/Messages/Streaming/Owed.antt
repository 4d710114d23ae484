-- ===== src/Messages/Streaming/Owed.antt =====
-- Finish and a chunk of text pay the client what the buffers of the accumulator hold.
use claude_code_kiro_models.Messages.Streaming.Acc.{
  Keeps, finish-acc, write_thinking_delta-acc, write_text_delta-acc, ensure_started-acc,
}
use claude_code_kiro_models.Messages.Streaming.Adds.{
  texts_in, thoughts_in, Adds, Quiet, kept, Grows-trans, then_Quiet, after_Quiet, write-Adds,
  ensure_started-Quiet, close_active_block-Quiet, flush_pending_redacted-Quiet,
  write_thinking_delta-Adds, write_text_delta-Adds, write_held_thinking-Adds, write_held_text-Adds,
  keep_redacted-Quiet,
}
use claude_code_kiro_models.Prelude.{
  ◌++◌, ◌&&◌, true, Bool, [], ◌∷◌, Text, ◌≡◌, refl, sym, ap, ◌∙◌, ◌⊎◌, inl, inr, is_empty, if-intro,
  append-nil, length, if◌then◌else◌, subst,
}
use claude_code_kiro_models.Respconv.Accumulator.Delivery.{Delivered, finalize_stream-Delivered}
use claude_code_kiro_models.Respconv.Result.{finalize_result}
use claude_code_kiro_models.Respconv.State.{Accumulator, EventDelta}
use claude_code_kiro_models.Respconv.Sse.{
  ensure_started, write, finish, keep_redacted, write_held_text, write_held_thinking,
  close_active_block, flush_pending_redacted, unless_stopped, stop_or_drain, handle_text,
  write_thinking_delta, write_text_delta,
}
use claude_code_kiro_models.Respconv.SseEvent.{Sse, SseWriter, Env}

-- A write has failed, or with `x` and `k` more the client has read the text and the thinking that
-- the buffers hold.
abbrev pub Owes : SseWriter → Text → Text → Type 0
Owes s x k =
    (s.write_err ≡ true)
    ⊎ ((texts_in s.written ++ x ≡ s.acc.text_buf)
        × (thoughts_in s.written ++ k ≡ s.acc.thinking_buf))

abbrev pub Says : SseWriter → Type 0
Says s =
    (s.write_err ≡ true)
    ⊎ ((texts_in s.written ≡ s.acc.text_buf) × (thoughts_in s.written ≡ s.acc.thinking_buf))

pub paid : (s t : SseWriter) (x k : Text) → Owes s x k → Adds s t x k → t.acc ≡ s.acc → Says t
paid s t x k (inl failed) g same = inl (g.stays failed)
paid s t x k (inr (p, q)) g same = elim g.read [
  | inl failed ↦ inl failed
  | inr (a, b) ↦
      inr (a ∙ p ∙ ap (λ c. c.text_buf) (sym same), b ∙ q ∙ ap (λ c. c.thinking_buf) (sym same))
]

-- What an event, or the end, puts into the buffers is owed.
pub Owes-Delivered :
    (s : SseWriter) (r : Accumulator × EventDelta)
    → Says s
    → Delivered s.acc r
    → Owes (record s { acc = r.0 }) r.1.text_delta r.1.thinking_delta
Owes-Delivered s r (inl failed) d = inl failed
Owes-Delivered s r (inr (p, q)) (a, b) =
    inr (ap (λ t. t ++ r.1.text_delta) p ∙ sym a, ap (λ t. t ++ r.1.thinking_delta) q ∙ sym b)

pub Says-Owes : (s : SseWriter) → Says s → Owes s [] []
Says-Owes s (inl failed) = inl failed
Says-Owes s (inr (p, q)) =
    inr (append-nil (texts_in s.written) ∙ p, append-nil (thoughts_in s.written) ∙ q)

pub Quiet-Says : (s t : SseWriter) → Says s → Quiet s t → t.acc ≡ s.acc → Says t
Quiet-Says s t says g same = paid s t [] [] (Says-Owes s says) g same

module _ (env : Env) where
  -- Finish, behind its accumulator's work.
  written_out : SseWriter → EventDelta → SseWriter
  written_out u d = close_active_block env (
      flush_pending_redacted env (
        write_held_text env (write_held_thinking env (keep_redacted env u d) d.thinking_delta)
          d.text_delta))

  written_out-Adds :
      (u : SseWriter) (d : EventDelta) → Adds u (written_out u d) d.text_delta d.thinking_delta
  unfolding written_out
  written_out-Adds u d =
      let a = keep_redacted env u d in
      let b = write_held_thinking env a d.thinking_delta in
      let c = write_held_text env b d.text_delta in
      let e = flush_pending_redacted env c in
      then_Quiet
        (then_Quiet
          (after_Quiet (keep_redacted-Quiet env u d) (
            subst (λ (y : Text). Adds a c d.text_delta y) (append-nil d.thinking_delta)
              (Grows-trans (write_held_thinking-Adds env a d.thinking_delta)
                (write_held_text-Adds env b d.text_delta))))
          (flush_pending_redacted-Quiet env c))
        (close_active_block-Quiet env e)

  pub finish-Says : (s : SseWriter) → Says s → Says (finish env s)
  unfolding finish finalize_result written_out
  finish-Says s says =
      let t = ensure_started env s in
      let (acc, d, res) = finalize_result env.tokens_used t.acc in
      let u = record t { acc = acc } in
      let started = Quiet-Says s t says (ensure_started-Quiet env s) (ensure_started-acc env s) in
      let w = written_out u d in
      let delta =
        Sse.message_delta res.stop_reason res.stop_sequence res.usage w.advisor_iterations in
      paid u (finish env s) d.text_delta d.thinking_delta
        (Owes-Delivered t (acc, d) started (finalize_stream-Delivered t.acc))
        (then_Quiet (then_Quiet (written_out-Adds u d) (write-Adds env w delta))
          (write-Adds env (write env w delta) Sse.message_stop))
        (finish-acc env s
          ∙ ap (λ a. (finalize_result env.tokens_used a).0) (sym (ensure_started-acc env s)))

  -- A step that pays what is owed and then stops, or drains, or goes on.
  pub unless_stopped-Says :
      (d : EventDelta) (s : SseWriter) → Says s → Says (unless_stopped env d s).0
  unfolding stop_or_drain
  unless_stopped-Says d s says =
      let P = λ (r : SseWriter × Bool). Says r.0 in
      if-intro P d.stop_signal
        (λ _.
          if-intro P (s.drain_on_stop && s.acc.has_tool_use) (λ _. says) (λ _. finish-Says s says))
        (λ _. says)

  pub handle_text-Says :
      (s : SseWriter) (d : EventDelta)
      → Owes s d.text_delta d.thinking_delta
      → Says (handle_text env s d).0
  unfolding handle_text
  handle_text-Says s d owes =
      let t = record s {
        pending_redacted_before_text =
            if d.has_assistant_content
            then length s.pending_redacted
            else s.pending_redacted_before_text;
      } in
      let u =
        if is_empty d.thinking_delta then t else write_thinking_delta env t d.thinking_delta in
      let v = if is_empty d.text_delta then u else write_text_delta env u d.text_delta in
      unless_stopped-Says d v (
        paid s v d.text_delta d.thinking_delta owes
          (subst (λ (y : Text). Adds s v d.text_delta y) (append-nil d.thinking_delta)
            (Grows-trans (thinking_written t d.thinking_delta) (text_written u d.text_delta)))
          (if-intro (Keeps s) (is_empty d.text_delta) (λ _. same_thinking t d.thinking_delta)
            (λ _. write_text_delta-acc env u d.text_delta ∙ same_thinking t d.thinking_delta)))
    where
      thinking_written :
          (t : SseWriter) (k : Text)
          → Adds t (if is_empty k then t else write_thinking_delta env t k) [] k
      thinking_written t [] = kept
      thinking_written t (c ∷ k) = write_thinking_delta-Adds env t (c ∷ k)

      text_written :
          (t : SseWriter) (x : Text)
          → Adds t (if is_empty x then t else write_text_delta env t x) x []
      text_written t [] = kept
      text_written t (c ∷ x) = write_text_delta-Adds env t (c ∷ x)

      same_thinking :
          (t : SseWriter) (k : Text)
          → (if is_empty k then t else write_thinking_delta env t k).acc ≡ t.acc
      same_thinking t k =
          if-intro (Keeps t) (is_empty k) (λ _. refl) (λ _. write_thinking_delta-acc env t k)
