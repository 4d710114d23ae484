-- ===== src/Messages/Session/Held.antt =====
-- What a session that has not been promoted has let out.
use claude_code_kiro_models.Messages.Session.Interleaving.{
  Operation, apply, apply_all, flushing, promoting, beating, heading, writing, failing,
}
use claude_code_kiro_models.Messages.Session.Sent.{sent, sent-snoc, bytes_of}
use claude_code_kiro_models.Messages.Session.{
  Session, new_stream_session, Connection, Output, header, keep_alive, semantic, final, flushed,
  store_error, set_sse_headers, discard, stop, write_header, begin_final, end_final, write_socket,
  flush_socket, write_and_flush, write_keep_alive, write, flush, promote, send_status, send_buffer,
  write_direct_sse_error, write_final_error, keep_alive_comment,
}
use claude_code_kiro_models.Prelude.{
  true, false, List, [], ◌∷◌, ◌++◌, Text, ◌≡◌, refl, arith, append-nil, take, min, length,
}

module _ (net : Connection) where
  -- The session is as promoted as before, and no semantic byte has been sent.
  abbrev Silent : Session → Session → Type 0
  Silent s t = (t.promoted ≡ s.promoted) × (sent t.output ≡ sent s.output)

  write_socket-Silent :
      (s : Session) (f : Text → Output) (p : Text)
      → ((q : Text) → bytes_of (f q) ≡ [])
      → Silent s (write_socket net s f p).0
  unfolding write_socket store_error
  write_socket-Silent s f p h =
      let q = take (min (net.accepts s.output p) (length p)) p in
      ground (arith, sent-snoc s.output (f q), h q, append-nil (sent s.output))

  flush_socket-Silent : (s : Session) → Silent s (flush_socket net s).0
  unfolding flush_socket store_error
  flush_socket-Silent s = ground (arith, sent-snoc s.output flushed, append-nil (sent s.output))

  write_and_flush-Silent :
      (s : Session) (f : Text → Output) (p : Text)
      → ((q : Text) → bytes_of (f q) ≡ [])
      → Silent s (write_and_flush net s f p).0
  unfolding write_and_flush
  write_and_flush-Silent s f p h =
      ground (arith, write_socket-Silent s f p h, flush_socket-Silent (write_socket net s f p).0)

  write_socket-promoted :
      (s : Session) (f : Text → Output) (p : Text)
      → (write_socket net s f p).0.promoted ≡ s.promoted
  unfolding write_socket store_error
  write_socket-promoted s f p = ground arith

  promote-IsHeld :
      (s : Session)
      → (s.promoted ≡ false → sent s.output ≡ [])
      → (promote net s).0.promoted ≡ false
      → sent (promote net s).0.output ≡ []
  unfolding promote send_buffer send_status
  promote-IsHeld s i =
      let p = send_status net (record s { promoted = true }) in
      let t = send_buffer net p in
      ground (arith, write_socket-promoted p semantic p.buf, flush_socket-Silent t.0)

  abbrev IsHeld : Session → Type 0
  IsHeld s = s.promoted ≡ false → sent s.output ≡ []

  apply-IsHeld : (s : Session) (o : Operation) → IsHeld s → IsHeld (apply net s o)
  unfolding apply set_sse_headers discard stop write_header begin_final end_final write flush
      write_keep_alive write_final_error write_direct_sse_error
  apply-IsHeld s (writing p) i = ground (arith, write_socket-promoted s semantic p)
  apply-IsHeld s flushing i = ground (arith, flush_socket-Silent s)
  apply-IsHeld s promoting i = promote-IsHeld s i
  apply-IsHeld s beating i =
      ground (arith, write_and_flush-Silent s keep_alive keep_alive_comment (λ q. refl))
  apply-IsHeld s (heading status) i = ground arith
  apply-IsHeld s (failing err) i =
      let t = record s { buf = []; status_code = 0 } in
      let u = record t { output = t.output ++ (header err.status ∷ []) } in
      ground (
        arith,
        write_and_flush-Silent t final err.sse_payload (λ q. refl),
        write_and_flush-Silent s final err.sse_payload (λ q. refl),
        write_socket-Silent u final err.json_body (λ q. refl),
        sent-snoc s.output (header err.status),
        append-nil (sent s.output),
      )
  apply-IsHeld s _ i = ground arith

  apply_all-IsHeld : (s : Session) (os : List Operation) → IsHeld s → IsHeld (apply_all net s os)
  unfolding apply_all
  apply_all-IsHeld s [] i = i
  apply_all-IsHeld s (o ∷ os) i = apply_all-IsHeld (apply net s o) os (apply-IsHeld s o i)

-- Until it is promoted, a session sends nothing of the reply: only keep-alive comments, a status, and a
-- final error reach the client, whatever the interleaving and the connection.
pub apply_all-held :
    (net : Connection) (os : List Operation)
    → (apply_all net new_stream_session os).promoted ≡ false
    → sent (apply_all net new_stream_session os).output ≡ []
apply_all-held net os = apply_all-IsHeld net new_stream_session os (λ _. refl)
