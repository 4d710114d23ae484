-- ===== src/Respconv/Sse/Steps.antt =====
-- The steps of SSEWriter keep to the protocol, whatever the ResponseWriter does.
use claude_code_kiro_models.Prelude.{
  subst, if-intro, ℕ, suc, if◌then◌else◌, ◌+◌, ◌-◌, inl, inr, if-intro, is_empty, Bool, true, false,
  List, [], ◌∷◌, Option, none, some, Text, ◌≡◌, refl, sym, ap, ◌∙◌, arith,
}
use claude_code_kiro_models.Respconv.Sse.Protocol.{
  Phase, step, Tracks, Fresh, Idle, Active, Live, fits, kind_of,
}
use claude_code_kiro_models.Respconv.Sse.{
  write_opt_delta, Accumulator, is_active, write, ensure_started, close_active_block,
  write_redacted, write_redacted_all, flush_pending_redacted, open_block, switch_block, write_delta,
  write_block, fire_visible_output,
}
use claude_code_kiro_models.Respconv.SseEvent.{
  Sse, SseWriter, Block, BlockType, Delta, Env, opened_block, same_block,
}
use claude_code_kiro_models.Respconv.Sse.Writes.{
  write-Tracks, write-started, write-active_type, write-block_count, write-Idle, write-Active,
}

add_one : (n : ℕ) → n + 1 ≡ suc n
add_one n = ground arith

-- What the automaton does at the index that the writer gives.
step-start :
    (n : ℕ) (b : Block)
    → step (Phase.between n) (Sse.block_start n b) ≡ some (Phase.inside n (kind_of b))
unfolding step
step-start n b = ground arith

step-stop :
    (n c : ℕ) (k : Option BlockType)
    → c ≡ suc n
    → step (Phase.inside n k) (Sse.block_stop (c - 1)) ≡ some (Phase.between c)
unfolding step
step-stop n c k h = ground arith

step-delta :
    (n c : ℕ) (k : Option BlockType) (d : Delta)
    → c ≡ suc n
    → fits k d ≡ true
    → step (Phase.inside n k) (Sse.block_delta (c - 1) d) ≡ some (Phase.inside n k)
unfolding step
step-delta n c k d h f = ground arith

module _ (env : Env) where
  pub ensure_started-Fresh : (s : SseWriter) → Fresh s → Idle (ensure_started env s)
  unfolding ensure_started step
  ensure_started-Fresh s (off, none_open, count, t) =
      if-intro Idle s.started (λ on. ground arith)
        (λ _.
          write-Idle env (record s { started = true }) _ Phase.fresh refl none_open t
            (ap (λ n. some (Phase.between n)) (sym count)))

  Live-started : (s : SseWriter) → Live s → s.started ≡ true
  Live-started s (inl (on, _, _)) = on
  Live-started s (inr (_, (_, on, _, _, _))) = on

  pub ensure_started-Live : (s : SseWriter) → Live s → Live (ensure_started env s)
  unfolding ensure_started
  ensure_started-Live s l =
      let on = Live-started s l in if-intro Live s.started (λ _. l) (λ off. ground arith)

  pub close_active_block-none :
      (s : SseWriter) → s.active_type ≡ none → close_active_block env s ≡ s
  unfolding close_active_block
  close_active_block-none s none_open =
      ap
        (λ a. elim a [
          | none ↦ s
          | some _ ↦ record (write env s (Sse.block_stop (s.block_count - 1))) {
            active_type = none;
          }
        ])
        none_open

  close_active_block-active :
      (s : SseWriter) (k : BlockType)
      → s.active_type ≡ some k
      → close_active_block env s
        ≡ record (write env s (Sse.block_stop (s.block_count - 1))) { active_type = none }
  unfolding close_active_block
  close_active_block-active s k opened =
      ap
        (λ a. elim a [
          | none ↦ s
          | some _ ↦ record (write env s (Sse.block_stop (s.block_count - 1))) {
            active_type = none;
          }
        ])
        opened

  pub close_active_block-Idle : (s : SseWriter) → Live s → Idle (close_active_block env s)
  close_active_block-Idle s (inl i) = subst Idle (sym (close_active_block-none s i.1)) i
  close_active_block-Idle s (inr (k, (n, on, opened, count, t))) =
      let e = Sse.block_stop (s.block_count - 1) in
      subst Idle (sym (close_active_block-active s k opened)) (
        write-started env s e ∙ on,
        refl,
        subst (λ m. Tracks (write env s e) (Phase.between m)) (sym (write-block_count env s e))
            (write-Tracks env s e (Phase.inside n (some k)) (Phase.between s.block_count) t
              (step-stop n s.block_count (some k) count)),
      )

  write_redacted-Idle : (s : SseWriter) (blob : Text) → Idle s → Idle (write_redacted env s blob)
  unfolding write_redacted kind_of
  write_redacted-Idle s blob (on, none_open, t) =
      let b = Block.redacted_thinking blob in
      let r = record s { block_count = s.block_count + 1 } in
      let e = Sse.block_start s.block_count b in
      write-Idle env (write env r e) _ (Phase.inside s.block_count none)
        (write-started env r e ∙ on) (write-active_type env r e ∙ none_open)
        (write-Tracks env r e (Phase.between s.block_count) (Phase.inside s.block_count none) t
          (step-start s.block_count b))
        (step-stop s.block_count (write env r e).block_count none
          (write-block_count env r e ∙ add_one s.block_count))

  write_redacted_all-Idle :
      (s : SseWriter) (blobs : List Text) → Idle s → Idle (write_redacted_all env s blobs)
  unfolding write_redacted_all
  write_redacted_all-Idle s [] i = i
  write_redacted_all-Idle s (blob ∷ blobs) i =
      write_redacted_all-Idle (write_redacted env s blob) blobs (write_redacted-Idle s blob i)

  pub flush_pending_redacted-Live : (s : SseWriter) → Live s → Live (flush_pending_redacted env s)
  unfolding flush_pending_redacted
  flush_pending_redacted-Live s l =
      if-intro Live (is_empty s.pending_redacted) (λ _. l)
        (λ _. inl (
          write_redacted_all-Idle _ s.pending_redacted (
            close_active_block-Idle
              (record s { pending_redacted_before_text = 0; pending_redacted = [] }) l)))

  pub open_block-Active :
      (s : SseWriter) (k : BlockType) (b : Block)
      → kind_of b ≡ some k
      → Idle s
      → Active (open_block env s k b) k
  unfolding open_block
  open_block-Active s k b kind (on, _, t) =
      write-Active env (record s { block_count = s.block_count + 1; active_type = some k })
        (Sse.block_start s.block_count b) (Phase.between s.block_count) k s.block_count on refl
        (ground arith) t
        (step-start s.block_count b ∙ ap (λ o. some (Phase.inside s.block_count o)) kind)

  same_block→eq : (j k : BlockType) → same_block j k ≡ true → j ≡ k
  unfolding same_block
  same_block→eq j k h = ground arith

  Live-Active :
      (s : SseWriter) (k : BlockType) → Live s → is_active env s.active_type k ≡ true → Active s k
  Live-Active s k (inl (_, none_open, _)) h = ground arith
  Live-Active s k (inr (j, (n, on, opened, count, t))) h =
      subst (Active s) (same_block→eq j k (ap (λ a. is_active env a k) (sym opened) ∙ h))
        (n, on, opened, count, t)

  pub switch_block-Active :
      (s : SseWriter) (k : BlockType)
      → ((acc : Accumulator) → kind_of (opened_block k acc) ≡ some k)
      → Live s
      → Active (switch_block env s k) k
  unfolding switch_block
  switch_block-Active s k kind l =
      let t = flush_pending_redacted env s in
      let live = flush_pending_redacted-Live s l in
      if-intro (λ r. Active r k) (is_active env t.active_type k) (Live-Active t k live)
        (λ _.
          open_block-Active (close_active_block env t) k (opened_block k t.acc) (kind t.acc)
            (close_active_block-Idle t live))

  pub write_delta-Active :
      (s : SseWriter) (k : BlockType) (d : Delta)
      → fits (some k) d ≡ true
      → Active s k
      → Active (write_delta env s d) k
  unfolding write_delta
  write_delta-Active s k d fit (n, on, opened, count, t) =
      write-Active env s (Sse.block_delta (s.block_count - 1) d) (Phase.inside n (some k)) k n on
        opened count t (step-delta n s.block_count (some k) d count fit)

  err_set-Live :
      (s : SseWriter) (b : Bool)
      → (b ≡ false → s.write_err ≡ false)
      → Live s
      → Live (record s { visible_fired = true; write_err = b })
  err_set-Live s b h (inl (on, none_open, (a, t))) = inl (on, none_open, (a, λ ok. t (h ok)))
  err_set-Live s b h (inr (k, (n, on, opened, count, (a, t)))) =
      inr (k, (n, on, opened, count, (a, λ ok. t (h ok))))

  pub fire_visible_output-Live : (s : SseWriter) → Live s → Live (fire_visible_output env s)
  unfolding fire_visible_output
  fire_visible_output-Live s l =
      if-intro Live s.visible_fired (λ _. l)
        (λ _. err_set-Live s (if env.promotes then s.write_err else true) (λ ok. ground arith) l)

  write_opt_delta-Tracks :
      (s : SseWriter) (n : ℕ) (k : Option BlockType) (d : Option Delta)
      → s.block_count ≡ suc n
      → Tracks s (Phase.inside n k)
      → ((x : Delta) → d ≡ some x → fits k x ≡ true)
      → Tracks (write_opt_delta env s d) (Phase.inside n k)
  unfolding write_opt_delta write_delta
  write_opt_delta-Tracks s n k none count t fit = t
  write_opt_delta-Tracks s n k (some d) count t fit =
      write-Tracks env s _ (Phase.inside n k) (Phase.inside n k) t
        (step-delta n s.block_count k d count (fit d refl))

  write_opt_delta-fields :
      (s : SseWriter) (d : Option Delta)
      → ((write_opt_delta env s d).started ≡ s.started)
        × ((write_opt_delta env s d).active_type ≡ s.active_type)
        × ((write_opt_delta env s d).block_count ≡ s.block_count)
  unfolding write_opt_delta write_delta
  write_opt_delta-fields s none = (refl, refl, refl)
  write_opt_delta-fields s (some d) =
      let e = Sse.block_delta (s.block_count - 1) d in
      (write-started env s e, write-active_type env s e, write-block_count env s e)

  pub write_block-Idle :
      (s : SseWriter) (b : Block) (d : Option Delta)
      → ((x : Delta) → d ≡ some x → fits (kind_of b) x ≡ true)
      → Live s
      → Idle (write_block env s b d)
  unfolding write_block
  write_block-Idle s b d fit l =
      let t = close_active_block env (flush_pending_redacted env s) in
      let (on, none_open, at) = close_active_block-Idle _ (flush_pending_redacted-Live s l) in
      let r = record t { block_count = t.block_count + 1 } in
      let e = Sse.block_start t.block_count b in
      let u = write env r e in
      let inside = Phase.inside t.block_count (kind_of b) in
      let (fs, fa, fc) = write_opt_delta-fields u d in
      let count : u.block_count ≡ suc t.block_count =
        write-block_count env r e ∙ add_one t.block_count in
      write-Idle env (write_opt_delta env u d) _ inside (fs ∙ write-started env r e ∙ on)
        (fa ∙ write-active_type env r e ∙ none_open)
        (write_opt_delta-Tracks u t.block_count (kind_of b) d count
          (write-Tracks env r e (Phase.between t.block_count) inside at
            (step-start t.block_count b))
          fit)
        (step-stop t.block_count _ (kind_of b) (fc ∙ count))
