-- ===== src/Messages/Session/Interleaving.antt =====
-- internal/app/messages/stream_session.go, gate_writer.go: the operations of a session in the order
-- in which its mutex lets them through.
use claude_code_kiro_models.Messages.Session.{
  Session, Connection, FinalError, set_sse_headers, discard, stop, write_header, begin_final,
  end_final, write_keep_alive, write, flush, promote, write_final_error,
}
use claude_code_kiro_models.Prelude.{ℕ, true, List, [], ◌∷◌, Text}

-- `client_gone` is the end of the request's context, `beating` the heartbeat's WriteKeepAlive,
-- `begun` and `ended` a WriteFinalError with a callback.
pub data Operation : Type 0 where
  setting_headers discarding stopping client_gone flushing promoting beating begun ended : Operation
  heading : ℕ → Operation
  writing : Text → Operation
  failing : FinalError → Operation

unfoldable pub apply : Connection → Session → Operation → Session
apply net s setting_headers = set_sse_headers s
apply net s discarding = discard s
apply net s stopping = stop s
apply net s client_gone = record s { context_done = true }
apply net s flushing = flush net s
apply net s promoting = (promote net s).0
apply net s beating = (write_keep_alive net s).0
apply net s begun = begin_final s
apply net s ended = end_final s
apply net s (heading status) = write_header s status
apply net s (writing p) = (write net s p).0
apply net s (failing err) = (write_final_error net s err).0

unfoldable pub apply_all : Connection → Session → List Operation → Session
apply_all net s [] = s
apply_all net s (o ∷ os) = apply_all net (apply net s o) os
