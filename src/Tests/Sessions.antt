-- ===== src/Tests/Sessions.antt =====
-- A session that is written to, promoted and stopped, with heartbeats in between.
use claude_code_kiro_models.Messages.Session.Held.{apply_all-held}
use claude_code_kiro_models.Messages.Session.Interleaving.{
  Operation, apply, apply_all, heading, writing, beating, promoting, flushing,
}
use claude_code_kiro_models.Messages.Session.Order.{apply_all-accepted}
use claude_code_kiro_models.Messages.Session.Sent.{accepted, taken_all, sent}
use claude_code_kiro_models.Messages.Session.Quiet.{IsQuiet, apply_all-IsQuiet}
use claude_code_kiro_models.Messages.Session.{
  write_header, write, promote, send_status, send_buffer, write_socket, flush_socket,
  write_keep_alive, write_and_flush, flush, unavailable, Session, Connection, new_stream_session,
}
use claude_code_kiro_models.Prelude.{true, false, List, [], ◌∷◌, codes, length, ◌≡◌, refl}

abbrev open_line : Connection
open_line = record {
  accepts = λ sent p. length p;
  write_fails = λ sent p. false;
  flush_fails = λ sent. false;
}

abbrev operations : List Operation
operations =
    heading 200
    ∷ writing (codes "one")
    ∷ beating
    ∷ promoting
    ∷ writing (codes "two")
    ∷ flushing
    ∷ []

apply_all-accepted_example :
    accepted (apply_all open_line new_stream_session operations)
    ≡ taken_all open_line new_stream_session operations
unfolding apply_all apply write_header write promote send_status send_buffer write_socket
    flush_socket write_keep_alive write_and_flush flush unavailable
apply_all-accepted_example =
    apply_all-accepted open_line operations (tt, (tt, (tt, (tt, (tt, (tt, tt)))))) refl

abbrev before : List Operation
before = heading 200 ∷ writing (codes "one") ∷ beating ∷ []

apply_all-held_example : sent (apply_all open_line new_stream_session before).output ≡ []
unfolding apply_all apply write_header write promote send_status send_buffer write_socket
    flush_socket write_keep_alive write_and_flush flush unavailable
apply_all-held_example = apply_all-held open_line before refl

abbrev ended_session : Session
ended_session = record new_stream_session { stopped = true; context_done = true; promoted = true }

apply_all-IsQuiet_example : IsQuiet ended_session (apply_all open_line ended_session operations)
apply_all-IsQuiet_example = apply_all-IsQuiet open_line ended_session operations refl
