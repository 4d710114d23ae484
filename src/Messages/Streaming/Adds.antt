-- ===== src/Messages/Streaming/Adds.antt =====
-- What the steps of SSEWriter add to the text and the thinking that the client reads.
use claude_code_kiro_models.Prelude.{
  subst, Bool, ◌-◌, ◌+◌, ◌++◌, true, not, ◌&&◌, Option, none, some, List, [], ◌∷◌, String, Text,
  ◌≡◌, refl, sym, ap, ◌∙◌, ◌⊎◌, inl, inr, is_empty, if-intro, append-nil, append_assoc,
}
use claude_code_kiro_models.Respconv.State.{EventDelta}
use claude_code_kiro_models.Respconv.Result.{usage_map}
use claude_code_kiro_models.Prelude.Int.{pos}
use claude_code_kiro_models.Respconv.Sse.{
  write, after_write, ensure_started, close_active_block, write_redacted, write_redacted_all,
  flush_pending_redacted, open_block, is_active, switch_block, write_delta, fire_visible_output,
  write_thinking_delta, write_text_delta, write_held_thinking, write_held_text, write_tool_use,
  hold_redacted, keep_redacted, write_error,
}
use claude_code_kiro_models.Respconv.SseEvent.{
  Sse, SseWriter, Env, WriteResult, BlockType, Block, Delta, block_delta, block_start, block_stop,
  text_delta, thinking_delta, opened_block,
}

-- The deltas of a kind, joined.
abbrev pub texts_in : List Sse → Text
texts_in [] = []
texts_in (block_delta n (text_delta t) ∷ es) = t ++ texts_in es
texts_in (_ ∷ es) = texts_in es

abbrev pub thoughts_in : List Sse → Text
thoughts_in [] = []
thoughts_in (block_delta n (thinking_delta t) ∷ es) = t ++ thoughts_in es
thoughts_in (_ ∷ es) = thoughts_in es

texts_in-append :
    (es : List Sse) (e : Sse) → texts_in (es ++ (e ∷ [])) ≡ texts_in es ++ texts_in (e ∷ [])
texts_in-append [] e = refl
texts_in-append (block_delta n (text_delta t) ∷ es) e =
    ap (◌++◌ t) (texts_in-append es e) ∙ sym (append_assoc t (texts_in es) (texts_in (e ∷ [])))
texts_in-append (block_delta n (thinking_delta t) ∷ es) e = texts_in-append es e
texts_in-append (block_delta n (Delta.input_json_delta t) ∷ es) e = texts_in-append es e
texts_in-append (Sse.message_start a b c ∷ es) e = texts_in-append es e
texts_in-append (block_start n b ∷ es) e = texts_in-append es e
texts_in-append (block_stop n ∷ es) e = texts_in-append es e
texts_in-append (Sse.message_delta a b c d ∷ es) e = texts_in-append es e
texts_in-append (Sse.message_stop ∷ es) e = texts_in-append es e
texts_in-append (Sse.error a b ∷ es) e = texts_in-append es e

thoughts_in-append :
    (es : List Sse) (e : Sse)
    → thoughts_in (es ++ (e ∷ [])) ≡ thoughts_in es ++ thoughts_in (e ∷ [])
thoughts_in-append [] e = refl
thoughts_in-append (block_delta n (thinking_delta t) ∷ es) e =
    ap (◌++◌ t) (thoughts_in-append es e)
    ∙ sym (append_assoc t (thoughts_in es) (thoughts_in (e ∷ [])))
thoughts_in-append (block_delta n (text_delta t) ∷ es) e = thoughts_in-append es e
thoughts_in-append (block_delta n (Delta.input_json_delta t) ∷ es) e = thoughts_in-append es e
thoughts_in-append (Sse.message_start a b c ∷ es) e = thoughts_in-append es e
thoughts_in-append (block_start n b ∷ es) e = thoughts_in-append es e
thoughts_in-append (block_stop n ∷ es) e = thoughts_in-append es e
thoughts_in-append (Sse.message_delta a b c d ∷ es) e = thoughts_in-append es e
thoughts_in-append (Sse.message_stop ∷ es) e = thoughts_in-append es e
thoughts_in-append (Sse.error a b ∷ es) e = thoughts_in-append es e

-- From an error flag and what is written to another, a write fails, or the client reads the text `x`
-- and the thinking `k` more; an error stays.
pub record Grows (failed : Bool) (es : List Sse) (failed' : Bool) (es' : List Sse) (x k : Text)
    : Type 0 where
  pub stays : failed ≡ true → failed' ≡ true
  pub read :
      (failed' ≡ true)
      ⊎ ((texts_in es' ≡ texts_in es ++ x) × (thoughts_in es' ≡ thoughts_in es ++ k))

abbrev pub Adds : SseWriter → SseWriter → Text → Text → Type 0
Adds s t x k = Grows s.write_err s.written t.write_err t.written x k

abbrev pub Quiet : SseWriter → SseWriter → Type 0
Quiet s t = Adds s t [] []

pub kept : {b : Bool} {es : List Sse} → Grows b es b es [] []
kept {es = es} = record {
  stays = λ h. h;
  read = inr (sym (append-nil (texts_in es)), sym (append-nil (thoughts_in es)));
}

-- A write that fails.
pub broken : {b b' : Bool} {es es' : List Sse} {x k : Text} → b' ≡ true → Grows b es b' es' x k
broken h = record { stays = λ _. h; read = inl h }

pub Grows-trans :
    {a b c : Bool} {es fs gs : List Sse} {x k x' k' : Text}
    → Grows a es b fs x k
    → Grows b fs c gs x' k'
    → Grows a es c gs (x ++ x') (k ++ k')
Grows-trans {es = es} {x = x} {k = k} {x' = x'} {k' = k'} p q = record {
  stays = λ h. q.stays (p.stays h);
  read = elim p.read [
    | inl failed ↦ inl (q.stays failed)
    | inr (a, b) ↦ elim q.read [
      | inl failed ↦ inl failed
      | inr (a', b') ↦ inr (
        a' ∙ ap (λ r. r ++ x') a ∙ append_assoc (texts_in es) x x',
        b' ∙ ap (λ r. r ++ k') b ∙ append_assoc (thoughts_in es) k k',
      )
    ]
  ];
}

pub then_Quiet :
    {a b c : Bool} {es fs gs : List Sse} {x k : Text}
    → Grows a es b fs x k
    → Grows b fs c gs [] []
    → Grows a es c gs x k
then_Quiet {a = a} {c = c} {es = es} {gs = gs} {x = x} {k = k} p q =
    subst (λ (y : Text). Grows a es c gs y k) (append-nil x)
      (subst (λ (y : Text). Grows a es c gs (x ++ []) y) (append-nil k) (Grows-trans p q))

pub after_Quiet :
    {a b c : Bool} {es fs gs : List Sse} {x k : Text}
    → Grows a es b fs [] []
    → Grows b fs c gs x k
    → Grows a es c gs x k
after_Quiet p q = Grows-trans p q

module _ (env : Env) where
  pub write-Adds :
      (s : SseWriter) (e : Sse) → Adds s (write env s e) (texts_in (e ∷ [])) (thoughts_in (e ∷ []))
  unfolding write after_write
  write-Adds s e =
      let P = λ (t : SseWriter). Adds s t (texts_in (e ∷ [])) (thoughts_in (e ∷ [])) in
      if-intro P s.write_err (λ failed. broken failed) (λ fine. sent (env.sink s.written))
    where
      sent :
          (r : WriteResult)
          → Adds s (after_write env s e r) (texts_in (e ∷ [])) (thoughts_in (e ∷ []))
      sent WriteResult.delivered = record {
        stays = λ h. h;
        read = inr (texts_in-append s.written e, thoughts_in-append s.written e);
      }
      sent WriteResult.lost = broken refl
      sent WriteResult.flush_failed = broken refl

  pub ensure_started-Quiet : (s : SseWriter) → Quiet s (ensure_started env s)
  unfolding ensure_started
  ensure_started-Quiet s =
      if-intro (λ (t : SseWriter). Quiet s t) s.started (λ _. kept)
        (λ _.
          write-Adds (record s { started = true })
            (Sse.message_start s.msg_id s.model (usage_map s.acc (pos 0) (pos 0))))

  pub close_active_block-Quiet : (s : SseWriter) → Quiet s (close_active_block env s)
  unfolding close_active_block
  close_active_block-Quiet s =
      elim s.active_type
        as (λ (o : Option BlockType). Quiet s (elim o [
          | none ↦ s
          | some _ ↦ record (write env s (block_stop (s.block_count - 1))) { active_type = none }
        ])) [ none ↦ kept | some k ↦ write-Adds s (block_stop (s.block_count - 1)) ]

  write_redacted-Quiet : (s : SseWriter) (blob : Text) → Quiet s (write_redacted env s blob)
  unfolding write_redacted
  write_redacted-Quiet s blob =
      let b = block_start s.block_count (Block.redacted_thinking blob) in
      let t = write env (record s { block_count = s.block_count + 1 }) b in
      after_Quiet (write-Adds (record s { block_count = s.block_count + 1 }) b)
        (write-Adds t (block_stop (t.block_count - 1)))

  write_redacted_all-Quiet :
      (s : SseWriter) (blobs : List Text) → Quiet s (write_redacted_all env s blobs)
  unfolding write_redacted_all
  write_redacted_all-Quiet s [] = kept
  write_redacted_all-Quiet s (blob ∷ blobs) =
      after_Quiet (write_redacted-Quiet s blob)
        (write_redacted_all-Quiet (write_redacted env s blob) blobs)

  pub flush_pending_redacted-Quiet : (s : SseWriter) → Quiet s (flush_pending_redacted env s)
  unfolding flush_pending_redacted
  flush_pending_redacted-Quiet s =
      let t = record s { pending_redacted_before_text = 0; pending_redacted = [] } in
      if-intro (λ (t : SseWriter). Quiet s t) (is_empty s.pending_redacted) (λ _. kept)
        (λ _.
          after_Quiet (close_active_block-Quiet t)
            (write_redacted_all-Quiet (close_active_block env t) s.pending_redacted))

  pub open_block-Quiet :
      (s : SseWriter) (k : BlockType) (b : Block) → Quiet s (open_block env s k b)
  unfolding open_block
  open_block-Quiet s k b =
      write-Adds (record s { block_count = s.block_count + 1; active_type = some k })
        (block_start s.block_count b)

  pub switch_block-Quiet : (s : SseWriter) (k : BlockType) → Quiet s (switch_block env s k)
  unfolding switch_block
  switch_block-Quiet s k =
      let t = flush_pending_redacted env s in
      let c = close_active_block env t in
      let flushed = flush_pending_redacted-Quiet s in
      if-intro (λ (t : SseWriter). Quiet s t) (is_active env t.active_type k) (λ _. flushed)
        (λ _.
          after_Quiet flushed (
            after_Quiet (close_active_block-Quiet t) (open_block-Quiet c k (opened_block k t.acc))))

  pub fire_visible_output-Quiet : (s : SseWriter) → Quiet s (fire_visible_output env s)
  unfolding fire_visible_output
  fire_visible_output-Quiet s =
      if-intro (λ (t : SseWriter). Quiet s t) s.visible_fired (λ _. kept)
        (λ _.
          if-intro (λ b. Quiet s (record s { visible_fired = true; write_err = b })) env.promotes
            (λ _. kept) (λ _. broken refl))

  pub write_thinking_delta-Adds :
      (s : SseWriter) (t : Text) → Adds s (write_thinking_delta env s t) [] t
  unfolding write_thinking_delta write_delta
  write_thinking_delta-Adds s t =
      let u = ensure_started env s in
      let v = switch_block env u BlockType.thinking in
      after_Quiet (ensure_started-Quiet s) (
        after_Quiet (switch_block-Quiet u BlockType.thinking) (
          subst (λ (y : Text). Adds v (write_delta env v (thinking_delta t)) [] y) (append-nil t)
            (write-Adds v (block_delta (v.block_count - 1) (thinking_delta t)))))

  write_text-Adds :
      (s : SseWriter) (t : Text)
      → Adds s
          (write_delta env
            (switch_block env (fire_visible_output env s) BlockType.text)
            (text_delta t))
          t
          []
  unfolding write_delta
  write_text-Adds s t =
      let u = fire_visible_output env s in
      let v = switch_block env u BlockType.text in
      after_Quiet (fire_visible_output-Quiet s) (
        after_Quiet (switch_block-Quiet u BlockType.text) (
          subst (λ (y : Text). Adds v (write_delta env v (text_delta t)) y []) (append-nil t)
            (write-Adds v (block_delta (v.block_count - 1) (text_delta t)))))

  pub write_text_delta-Adds : (s : SseWriter) (t : Text) → Adds s (write_text_delta env s t) t []
  unfolding write_text_delta
  write_text_delta-Adds s t =
      after_Quiet (ensure_started-Quiet s) (write_text-Adds (ensure_started env s) t)

  pub write_held_thinking-Adds :
      (s : SseWriter) (t : Text) → Adds s (write_held_thinking env s t) [] t
  unfolding write_held_thinking
  write_held_thinking-Adds s [] = kept
  write_held_thinking-Adds s (c ∷ t) = write_thinking_delta-Adds s (c ∷ t)

  pub write_held_text-Adds : (s : SseWriter) (t : Text) → Adds s (write_held_text env s t) t []
  unfolding write_held_text
  write_held_text-Adds s [] = kept
  write_held_text-Adds s (c ∷ t) = write_text-Adds s (c ∷ t)

  pub write_tool_use-Quiet : (s : SseWriter) (d : EventDelta) → Quiet s (write_tool_use env s d)
  unfolding write_tool_use write_delta
  write_tool_use-Quiet s d =
      let a = ensure_started env s in
      let b = fire_visible_output env a in
      let c = flush_pending_redacted env b in
      let t = close_active_block env c in
      let block = Block.tool_use d.tool_use_id d.tool_name in
      let u = open_block env t BlockType.tool_use block in
      after_Quiet (ensure_started-Quiet s) (
        after_Quiet (fire_visible_output-Quiet a) (
          after_Quiet (flush_pending_redacted-Quiet b) (
            after_Quiet (close_active_block-Quiet c) (
              after_Quiet (open_block-Quiet t BlockType.tool_use block) (
                write-Adds u
                  (block_delta (u.block_count - 1) (Delta.input_json_delta d.tool_input)))))))

  pub hold_redacted-Quiet : (s : SseWriter) (blob : Text) → Quiet s (hold_redacted env s blob)
  unfolding hold_redacted
  hold_redacted-Quiet s blob = ensure_started-Quiet s

  pub keep_redacted-Quiet : (s : SseWriter) (d : EventDelta) → Quiet s (keep_redacted env s d)
  unfolding keep_redacted
  keep_redacted-Quiet s d =
      if-intro (λ (t : SseWriter). Quiet s t)
        (not (is_empty s.acc.text_buf) && not s.acc.has_tool_use) (λ _. kept) (λ _. kept)

  pub write_error-Quiet :
      (s : SseWriter) (type : String) (message : Text) → Quiet s (write_error env s type message)
  unfolding write_error
  write_error-Quiet s type message =
      after_Quiet (close_active_block-Quiet s)
        (write-Adds (close_active_block env s) (Sse.error type message))
