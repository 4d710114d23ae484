-- ===== src/Messages/Session/Quiet.antt =====
-- When a session has nothing more to say.
use claude_code_kiro_models.Messages.Session.Interleaving.{
  Operation, apply, apply_all, setting_headers, discarding, stopping, client_gone, flushing,
  promoting, beating, begun, ended, heading, writing, failing,
}
use claude_code_kiro_models.Messages.Session.{
  Session, Connection, unavailable, set_sse_headers, discard, stop, write_header, begin_final,
  end_final, write_keep_alive, write, flush, promote, write_final_error, is_some,
}
use claude_code_kiro_models.Prelude.{true, List, [], ◌∷◌, ◌≡◌, refl, ◌∙◌, arith, ◌||◌}

-- Stopped, finalized, or broken by a transport error.
abbrev pub IsOver : Session → Type 0
IsOver s = (s.stopped || s.finalized || is_some s.first_err) ≡ true

-- Over, and nothing new has been sent.
abbrev pub IsQuiet : Session → Session → Type 0
IsQuiet s t = IsOver t × (t.output ≡ s.output)

apply-IsQuiet :
    (net : Connection) (s : Session) (o : Operation) → IsOver s → IsQuiet s (apply net s o)
unfolding apply set_sse_headers discard stop write_header begin_final end_final unavailable flush
    write write_keep_alive promote write_final_error
apply-IsQuiet net s setting_headers h = ground arith
apply-IsQuiet net s discarding h = ground arith
apply-IsQuiet net s stopping h = ground arith
apply-IsQuiet net s client_gone h = ground arith
apply-IsQuiet net s flushing h = ground arith
apply-IsQuiet net s promoting h = ground arith
apply-IsQuiet net s beating h = ground arith
apply-IsQuiet net s begun h = ground arith
apply-IsQuiet net s ended h = ground arith
apply-IsQuiet net s (heading status) h = ground arith
apply-IsQuiet net s (writing p) h = ground arith
apply-IsQuiet net s (failing err) h = ground arith

-- Once a session is stopped, finalized or broken, no operation, in whatever order the request and
-- the heartbeat come, sends a byte, a status or a flush, and it stays that way.
pub apply_all-IsQuiet :
    (net : Connection) (s : Session) (os : List Operation)
    → IsOver s
    → IsQuiet s (apply_all net s os)
unfolding apply_all
apply_all-IsQuiet net s [] h = (h, refl)
apply_all-IsQuiet net s (o ∷ os) h =
    let (over, same) = apply-IsQuiet net s o h in
    let (later, still) = apply_all-IsQuiet net (apply net s o) os over in (later, still ∙ same)
