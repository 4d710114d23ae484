-- ===== src/Messages/Session/Sent.antt =====
-- What each operation of a session sends.
use claude_code_kiro_models.Messages.Session.Interleaving.{
  Operation, apply, discarding, writing, failing,
}
use claude_code_kiro_models.Messages.Session.{
  Session, Connection, Error, Output, header, keep_alive, semantic, flushed, store_error,
  write_header, write_socket, flush_socket, write_and_flush, write_keep_alive, write, flush,
  promote, send_status, send_buffer, is_some, keep_alive_comment,
}
use claude_code_kiro_models.Prelude.{
  ℕ, true, false, List, [], ◌∷◌, ◌++◌, Option, Text, ◌≡◌, refl, sym, ap, ◌∙◌, arith, if◌then◌else◌,
  take_all, append-nil, append_assoc, length, min,
}

abbrev pub bytes_of : Output → Text
bytes_of (semantic p) = p
bytes_of _ = []

-- The semantic bytes that have been sent.
abbrev pub sent : List Output → Text
sent [] = []
sent (o ∷ os) = bytes_of o ++ sent os

pub sent-snoc : (os : List Output) (o : Output) → sent (os ++ (o ∷ [])) ≡ sent os ++ bytes_of o
sent-snoc [] o = append-nil (bytes_of o)
sent-snoc (x ∷ os) o =
    ap (◌++◌ (bytes_of x)) (sent-snoc os o) ∙ sym (append_assoc (bytes_of x) (sent os) (bytes_of o))

-- The operations that neither drop the buffer nor end the response with an error.
abbrev pub IsPlain : Operation → Type 0
IsPlain discarding = ⊥
IsPlain (failing err) = ⊥
IsPlain _ = Unit

-- What an operation adds to the semantic bytes: those of a write that returns no error.
unfoldable pub taken : Connection → Session → Operation → Text
taken net s (writing p) = if is_some (write net s p).1 then [] else p
taken net s _ = []

unfoldable pub taken_all : Connection → Session → List Operation → Text
taken_all net s [] = []
taken_all net s (o ∷ os) = taken net s o ++ taken_all net (apply net s o) os

-- The bytes that have been taken, sent or held.
abbrev pub accepted : Session → Text
accepted s = sent s.output ++ s.buf

store_error_fails : (s : Session) → is_some (store_error s).first_err ≡ true
unfolding store_error
store_error_fails s = ground arith

module _ (net : Connection) where
  -- A socket write that leaves no error behind has sent all its bytes.
  abbrev pub Sends : Session → Output → Session × Option Error → Type 0
  Sends s o (t, err) =
      (t.buf ≡ s.buf)
      × (t.promoted ≡ s.promoted)
      × (is_some t.first_err ≡ false
          → (is_some s.first_err ≡ false)
            × (is_some err ≡ false)
            × (sent t.output ≡ sent s.output ++ bytes_of o))

  pub write_socket-Sends :
      (s : Session) (f : Text → Output) (p : Text) → Sends s (f p) (write_socket net s f p)
  unfolding write_socket store_error
  write_socket-Sends s f p =
      let n = min (net.accepts s.output p) (length p) in
      ground (arith, sent-snoc s.output (f p), take_all n p)

  pub flush_socket-Sends : (s : Session) → Sends s flushed (flush_socket net s)
  unfolding flush_socket store_error
  flush_socket-Sends s = ground (arith, sent-snoc s.output flushed)

  -- Where nothing is taken.
  abbrev pub Same : Session → Session → Type 0
  Same s t = is_some t.first_err ≡ false → (is_some s.first_err ≡ false) × (accepted t ≡ accepted s)

  write_and_flush-Same :
      (s : Session) (f : Text → Output) (p : Text)
      → bytes_of (f p) ≡ []
      → Same s (write_and_flush net s f p).0
  unfolding write_and_flush
  write_and_flush-Same s f p none_here =
      let w = write_socket net s f p in
      ground (
        arith,
        write_socket-Sends s f p,
        flush_socket-Sends w.0,
        append-nil (sent s.output),
        append-nil (sent w.0.output),
      )

  pub write_keep_alive-Same : (s : Session) → Same s (write_keep_alive net s).0
  unfolding write_keep_alive
  write_keep_alive-Same s =
      ground (arith, write_and_flush-Same s keep_alive keep_alive_comment refl)

  pub flush-Same : (s : Session) → Same s (flush net s)
  unfolding flush
  flush-Same s = ground (arith, flush_socket-Sends s, append-nil (sent s.output))

  send_status-Same : (s : Session) → Same s (send_status net s)
  unfolding send_status
  send_status-Same s =
      ground (arith, sent-snoc s.output (header s.status_code), append-nil (sent s.output))

  send_buffer-Same : (s : Session) → Same s (send_buffer net s).0
  unfolding send_buffer
  send_buffer-Same s = ground (
    arith,
    write_socket-Sends s semantic s.buf,
    append-nil (sent s.output),
    append-nil (sent s.output ++ s.buf),
  )

  pub promote-Same : (s : Session) → Same s (promote net s).0
  unfolding promote
  promote-Same s =
      let p = record s { promoted = true } in
      let t = send_buffer net (send_status net p) in
      ground (
        arith,
        send_status-Same p,
        send_buffer-Same (send_status net p),
        flush_socket-Sends t.0,
        append-nil (sent t.0.output),
      )

  pub write_header-Same : (s : Session) (status : ℕ) → Same s (write_header s status)
  unfolding write_header
  write_header-Same s status =
      ground (arith, sent-snoc s.output (header status), append-nil (sent s.output))

  pub untaken :
      (s t : Session)
      → Same s t
      → is_some t.first_err ≡ false
      → (is_some s.first_err ≡ false) × (accepted t ≡ accepted s ++ [])
  untaken s t same h = let (fine, eq) = same h in (fine, eq ∙ sym (append-nil (accepted s)))
