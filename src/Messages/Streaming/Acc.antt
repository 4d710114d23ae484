-- ===== src/Messages/Streaming/Acc.antt =====
-- The accumulator of a stream: writing leaves it alone.
use claude_code_kiro_models.Prelude.{
  true, not, ◌&&◌, ◌-◌, ◌+◌, List, [], ◌∷◌, String, Text, ◌≡◌, refl, ap, ◌∙◌, arith, is_empty,
  if-intro,
}
use claude_code_kiro_models.Respconv.State.{EventDelta}
use claude_code_kiro_models.Respconv.Result.{finalize_result}
use claude_code_kiro_models.Respconv.Sse.{
  write_error, write_tool_use, is_active, write_text_delta, after_write, write, ensure_started,
  close_active_block, write_redacted, write_redacted_all, flush_pending_redacted, open_block,
  switch_block, write_delta, fire_visible_output, write_held_text, write_held_thinking,
  write_thinking_delta, finish, keep_redacted,
}
use claude_code_kiro_models.Respconv.SseEvent.{Sse, SseWriter, BlockType, Env}

abbrev pub Keeps : SseWriter → SseWriter → Type 0
Keeps s t = t.acc ≡ s.acc

module _ (env : Env) where
  write-acc : (s : SseWriter) (e : Sse) → (write env s e).acc ≡ s.acc
  unfolding write after_write
  write-acc s e = ground arith

  pub ensure_started-acc : (s : SseWriter) → (ensure_started env s).acc ≡ s.acc
  unfolding ensure_started
  ensure_started-acc s =
      if-intro (Keeps s) s.started (λ _. refl) (λ _. write-acc (record s { started = true }) _)

  close_active_block-acc : (s : SseWriter) → (close_active_block env s).acc ≡ s.acc
  unfolding close_active_block
  close_active_block-acc s = ground (arith, write-acc s (Sse.block_stop (s.block_count - 1)))

  write_redacted-acc : (s : SseWriter) (blob : Text) → (write_redacted env s blob).acc ≡ s.acc
  unfolding write_redacted
  write_redacted-acc s blob =
      write-acc _ _ ∙ write-acc (record s { block_count = s.block_count + 1 }) _

  write_redacted_all-acc :
      (s : SseWriter) (blobs : List Text) → (write_redacted_all env s blobs).acc ≡ s.acc
  unfolding write_redacted_all
  write_redacted_all-acc s [] = refl
  write_redacted_all-acc s (blob ∷ blobs) =
      write_redacted_all-acc (write_redacted env s blob) blobs ∙ write_redacted-acc s blob

  flush_pending_redacted-acc : (s : SseWriter) → (flush_pending_redacted env s).acc ≡ s.acc
  unfolding flush_pending_redacted
  flush_pending_redacted-acc s =
      if-intro (Keeps s) (is_empty s.pending_redacted) (λ _. refl)
        (λ _.
          write_redacted_all-acc _ s.pending_redacted
          ∙ close_active_block-acc
              (record s { pending_redacted_before_text = 0; pending_redacted = [] }))

  switch_block-acc : (s : SseWriter) (k : BlockType) → (switch_block env s k).acc ≡ s.acc
  unfolding switch_block open_block
  switch_block-acc s k =
      let t = flush_pending_redacted env s in
      let flushed = flush_pending_redacted-acc s in
      if-intro (Keeps s) (is_active env t.active_type k) (λ _. flushed)
        (λ _. write-acc _ _ ∙ close_active_block-acc t ∙ flushed)

  fire_visible_output-acc : (s : SseWriter) → (fire_visible_output env s).acc ≡ s.acc
  unfolding fire_visible_output
  fire_visible_output-acc s = if-intro (Keeps s) s.visible_fired (λ _. refl) (λ _. refl)

  write_held_thinking-acc : (s : SseWriter) (t : Text) → (write_held_thinking env s t).acc ≡ s.acc
  unfolding write_held_thinking write_thinking_delta write_delta
  write_held_thinking-acc s t =
      if-intro (Keeps s) (is_empty t) (λ _. refl)
        (λ _.
          write-acc _ _
          ∙ switch_block-acc (ensure_started env s) BlockType.thinking
          ∙ ensure_started-acc s)

  write_held_text-acc : (s : SseWriter) (t : Text) → (write_held_text env s t).acc ≡ s.acc
  unfolding write_held_text write_delta
  write_held_text-acc s t =
      if-intro (Keeps s) (is_empty t) (λ _. refl)
        (λ _.
          write-acc _ _
          ∙ switch_block-acc (fire_visible_output env s) BlockType.text
          ∙ fire_visible_output-acc s)

  keep_redacted-acc : (s : SseWriter) (d : EventDelta) → (keep_redacted env s d).acc ≡ s.acc
  unfolding keep_redacted
  keep_redacted-acc s d =
      if-intro (Keeps s) (not (is_empty s.acc.text_buf) && not s.acc.has_tool_use) (λ _. refl)
        (λ _. refl)

  pub finish-acc : (s : SseWriter) → (finish env s).acc ≡ (finalize_result env.tokens_used s.acc).0
  unfolding finish
  finish-acc s =
      let t = ensure_started env s in
      let (acc, d, res) = finalize_result env.tokens_used t.acc in
      write-acc _ _
      ∙ write-acc _ _
      ∙ close_active_block-acc _
      ∙ flush_pending_redacted-acc _
      ∙ write_held_text-acc _ d.text_delta
      ∙ write_held_thinking-acc _ d.thinking_delta
      ∙ keep_redacted-acc (record t { acc = acc }) d
      ∙ ap (λ a. (finalize_result env.tokens_used a).0) (ensure_started-acc s)

  pub write_thinking_delta-acc :
      (s : SseWriter) (t : Text) → (write_thinking_delta env s t).acc ≡ s.acc
  unfolding write_thinking_delta write_delta
  write_thinking_delta-acc s t =
      write-acc _ _
      ∙ switch_block-acc (ensure_started env s) BlockType.thinking
      ∙ ensure_started-acc s

  pub write_text_delta-acc : (s : SseWriter) (t : Text) → (write_text_delta env s t).acc ≡ s.acc
  unfolding write_text_delta write_delta
  write_text_delta-acc s t =
      write-acc _ _
      ∙ switch_block-acc (fire_visible_output env (ensure_started env s)) BlockType.text
      ∙ fire_visible_output-acc (ensure_started env s)
      ∙ ensure_started-acc s

  pub write_tool_use-acc : (s : SseWriter) (d : EventDelta) → (write_tool_use env s d).acc ≡ s.acc
  unfolding write_tool_use write_delta open_block
  write_tool_use-acc s d =
      write-acc _ _
      ∙ write-acc _ _
      ∙ close_active_block-acc _
      ∙ flush_pending_redacted-acc _
      ∙ fire_visible_output-acc (ensure_started env s)
      ∙ ensure_started-acc s

  pub write_error-acc :
      (s : SseWriter) (type : String) (message : Text)
      → (write_error env s type message).acc ≡ s.acc
  unfolding write_error
  write_error-acc s type message = write-acc _ _ ∙ close_active_block-acc s
