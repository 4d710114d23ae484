-- ===== src/Respconv/Sse/Writes.antt =====
-- What one write does to the place in the protocol.
use claude_code_kiro_models.Prelude.{
  subst, if-intro, ℕ, suc, if-intro, true, false, none, some, ◌≡◌, sym, ◌∙◌, arith,
}
use claude_code_kiro_models.Respconv.Sse.Protocol.{Phase, step, reached-snoc, Tracks, Idle, Active}
use claude_code_kiro_models.Respconv.Sse.{after_write, write}
use claude_code_kiro_models.Respconv.SseEvent.{Sse, SseWriter, BlockType, Env, WriteResult}

module _ (env : Env) where
  after_write-Tracks :
      (s : SseWriter) (e : Sse) (r : WriteResult) (p q : Phase)
      → s.write_err ≡ false
      → Tracks s p
      → step p e ≡ some q
      → Tracks (after_write env s e r) q
  unfolding after_write
  after_write-Tracks s e WriteResult.delivered p q ok (a, t) h =
      let snoc = reached-snoc s.written e p (t ok) ∙ h in ((q, snoc), λ _. snoc)
  after_write-Tracks s e WriteResult.lost p q ok (a, t) h = (a, λ bad. ground arith)
  after_write-Tracks s e WriteResult.flush_failed p q ok (a, t) h =
      ((q, reached-snoc s.written e p (t ok) ∙ h), λ bad. ground arith)

  pub write-Tracks :
      (s : SseWriter) (e : Sse) (p q : Phase)
      → Tracks s p
      → step p e ≡ some q
      → Tracks (write env s e) q
  unfolding write
  write-Tracks s e p q t h =
      if-intro (λ r. Tracks r q) s.write_err (λ bad. (t.0, λ ok. ground arith))
        (λ ok. after_write-Tracks s e (env.sink s.written) p q ok t h)

  -- The fields that a write leaves alone.
  pub write-started : (s : SseWriter) (e : Sse) → (write env s e).started ≡ s.started
  unfolding write after_write
  write-started s e = ground arith

  pub write-active_type : (s : SseWriter) (e : Sse) → (write env s e).active_type ≡ s.active_type
  unfolding write after_write
  write-active_type s e = ground arith

  pub write-block_count : (s : SseWriter) (e : Sse) → (write env s e).block_count ≡ s.block_count
  unfolding write after_write
  write-block_count s e = ground arith

  pub write-Idle :
      (s : SseWriter) (e : Sse) (p : Phase)
      → s.started ≡ true
      → s.active_type ≡ none
      → Tracks s p
      → step p e ≡ some (Phase.between s.block_count)
      → Idle (write env s e)
  write-Idle s e p on none_open t h = (
    write-started s e ∙ on,
    write-active_type s e ∙ none_open,
    subst (λ n. Tracks (write env s e) (Phase.between n)) (sym (write-block_count s e))
        (write-Tracks s e p (Phase.between s.block_count) t h),
  )

  pub write-Active :
      (s : SseWriter) (e : Sse) (p : Phase) (k : BlockType) (n : ℕ)
      → s.started ≡ true
      → s.active_type ≡ some k
      → s.block_count ≡ suc n
      → Tracks s p
      → step p e ≡ some (Phase.inside n (some k))
      → Active (write env s e) k
  write-Active s e p k n on opened count t h = (
    n,
    write-started s e ∙ on,
    write-active_type s e ∙ opened,
    write-block_count s e ∙ count,
    write-Tracks s e p (Phase.inside n (some k)) t h,
  )
