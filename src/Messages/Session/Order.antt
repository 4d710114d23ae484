-- ===== src/Messages/Session/Order.antt =====
-- What a session sends of what is written to it.
use claude_code_kiro_models.Messages.Session.Interleaving.{
  Operation, apply, apply_all, setting_headers, discarding, stopping, client_gone, flushing,
  promoting, beating, begun, ended, heading, writing, failing,
}
use claude_code_kiro_models.Messages.Session.{
  Session, new_stream_session, Connection, Output, header, keep_alive, semantic, final,
  set_sse_headers, discard, stop, write_header, begin_final, end_final, write_socket, flush_socket,
  write_and_flush, write_keep_alive, write, flush, promote, send_status, send_buffer,
  write_direct_sse_error, write_final_error, is_some, keep_alive_comment,
}
use claude_code_kiro_models.Prelude.{
  true, false, List, [], ◌∷◌, ◌++◌, Text, ◌≡◌, refl, sym, ap, ◌∙◌, arith, All, append-nil,
  append_assoc,
}
use claude_code_kiro_models.Messages.Session.Sent.{
  sent, IsPlain, taken, taken_all, accepted, write_socket-Sends, flush_socket-Sends, flush-Same,
  promote-Same, write_keep_alive-Same, write_header-Same, untaken,
}

module _ (net : Connection) where
  -- A promoted session that is not broken holds nothing back.
  abbrev IsDrained : Session → Type 0
  IsDrained s = s.promoted ≡ true → is_some s.first_err ≡ false → s.buf ≡ []

  send_buffer-IsDrained :
      (s : Session)
      → is_some (send_buffer net s).0.first_err ≡ false
      → (send_buffer net s).0.buf ≡ []
  unfolding send_buffer
  send_buffer-IsDrained s h = ground (arith, write_socket-Sends net s semantic s.buf)

  flush_socket-kept :
      (s : Session)
      → ((flush_socket net s).0.buf ≡ s.buf)
        × ((flush_socket net s).0.promoted ≡ s.promoted)
        × (is_some (flush_socket net s).0.first_err ≡ false → is_some s.first_err ≡ false)
  flush_socket-kept s = let (a, b, c) = flush_socket-Sends net s in (a, b, λ h. (c h).0)

  write_and_flush-kept :
      (s : Session) (f : Text → Output) (p : Text)
      → let t = (write_and_flush net s f p).0 in
        (t.buf ≡ s.buf)
        × (t.promoted ≡ s.promoted)
        × (is_some t.first_err ≡ false → is_some s.first_err ≡ false)
  unfolding write_and_flush
  write_and_flush-kept s f p =
      let w = write_socket net s f p in
      ground (arith, write_socket-Sends net s f p, flush_socket-kept w.0)

  promote-IsDrained : (s : Session) → IsDrained s → IsDrained (promote net s).0
  unfolding promote
  promote-IsDrained s i =
      let p = record s { promoted = true } in
      let t = send_buffer net (send_status net p) in
      ground (arith, send_buffer-IsDrained (send_status net p), flush_socket-kept t.0)

  apply-IsDrained : (s : Session) (o : Operation) → IsDrained s → IsDrained (apply net s o)
  unfolding apply set_sse_headers discard stop write_header begin_final end_final write flush
      write_keep_alive write_final_error write_direct_sse_error
  apply-IsDrained s (writing p) i = ground (arith, write_socket-Sends net s semantic p)
  apply-IsDrained s flushing i = ground (arith, flush_socket-kept s)
  apply-IsDrained s promoting i = promote-IsDrained s i
  apply-IsDrained s beating i = ground (arith, write_and_flush-kept s keep_alive keep_alive_comment)
  apply-IsDrained s (heading status) i = ground arith
  apply-IsDrained s discarding i = ground arith
  apply-IsDrained s (failing err) i =
      let t = record s { buf = []; status_code = 0 } in
      ground (
        arith,
        write_and_flush-kept s final err.sse_payload,
        write_and_flush-kept t final err.sse_payload,
        write_socket-Sends net (record t { output = t.output ++ (header err.status ∷ []) }) final
            err.json_body,
      )
  apply-IsDrained s setting_headers i = ground arith
  apply-IsDrained s stopping i = ground arith
  apply-IsDrained s client_gone i = ground arith
  apply-IsDrained s begun i = ground arith
  apply-IsDrained s ended i = ground arith

  apply-accepted :
      (s : Session) (o : Operation)
      → IsPlain o
      → IsDrained s
      → is_some (apply net s o).first_err ≡ false
      → (is_some s.first_err ≡ false) × (accepted (apply net s o) ≡ accepted s ++ taken net s o)
  unfolding apply taken set_sse_headers discard stop write_header begin_final end_final write
  apply-accepted s (writing p) i d h = ground (
    arith,
    write_socket-Sends net s semantic p,
    append_assoc (sent s.output) s.buf p,
    append-nil (sent s.output ++ s.buf),
    append-nil (sent s.output),
    append-nil (sent s.output ++ p),
  )
  apply-accepted s flushing i d h = untaken net s (flush net s) (flush-Same net s) h
  apply-accepted s promoting i d h = untaken net s (promote net s).0 (promote-Same net s) h
  apply-accepted s beating i d h =
      untaken net s (write_keep_alive net s).0 (write_keep_alive-Same net s) h
  apply-accepted s (heading status) i d h =
      untaken net s (write_header s status) (write_header-Same net s status) h
  apply-accepted s discarding i d h = elim i [ ]
  apply-accepted s (failing err) i d h = elim i [ ]
  apply-accepted s setting_headers i d h = ground (arith, append-nil (accepted s))
  apply-accepted s stopping i d h = ground (arith, append-nil (accepted s))
  apply-accepted s client_gone i d h = ground (arith, append-nil (accepted s))
  apply-accepted s begun i d h = ground (arith, append-nil (accepted s))
  apply-accepted s ended i d h = ground (arith, append-nil (accepted s))

  apply_all_from :
      (s : Session) (os : List Operation)
      → All IsPlain os
      → IsDrained s
      → is_some (apply_all net s os).first_err ≡ false
      → (is_some s.first_err ≡ false)
        × (accepted (apply_all net s os) ≡ accepted s ++ taken_all net s os)
  unfolding apply_all taken_all
  apply_all_from s [] i d h = (h, sym (append-nil (accepted s)))
  apply_all_from s (o ∷ os) (i, is) d h =
      let (fine, later) = apply_all_from (apply net s o) os is (apply-IsDrained s o d) h in
      let (ok, now) = apply-accepted s o i d fine in
      (
        ok,
        later
            ∙ ap (λ x. x ++ taken_all net (apply net s o) os) now
            ∙ append_assoc (accepted s) (taken net s o) (taken_all net (apply net s o) os),
      )

-- Without a discard or a final error, in any interleaving with heartbeats, flushes and promotion: a
-- session that no transport error has broken has sent, in order and once, the bytes of every write
-- that succeeded, except those it still holds in its buffer.
pub apply_all-accepted :
    (net : Connection) (os : List Operation)
    → All IsPlain os
    → is_some (apply_all net new_stream_session os).first_err ≡ false
    → accepted (apply_all net new_stream_session os) ≡ taken_all net new_stream_session os
apply_all-accepted net os i h = (apply_all_from net new_stream_session os i (λ on ok. refl) h).1
