-- ===== src/Messages/Session.antt =====
-- internal/app/messages/stream_session.go, gate_writer.go: streamSession. Each method runs under the
-- session's mutex, so an interleaving of the request and the heartbeat is a list of operations.
pub mod Held
pub mod Interleaving
pub mod Order
pub mod Quiet
pub mod Sent
use claude_code_kiro_models.Prelude.{
  ℕ, Bool, true, false, not, ◌&&◌, ◌||◌, List, [], ◌∷◌, ◌++◌, Option, none, some, Text, codes, ◌==◌,
  ltb, if◌then◌else◌, length, take, is_empty, min,
}

-- context.Canceled, or what the connection reported.
pub data Error : Type 0 where
  canceled transport : Error

-- What has gone to the ResponseWriter: a status, the bytes it took of a keep-alive comment, of a
-- semantic write, of a final error, or a flush.
pub data Output : Type 0 where
  header : ℕ → Output
  keep_alive semantic final : Text → Output
  flushed : Output

-- `canceled` says that the session's context is done. `status_code` is 0 before WriteHeader.
pub record Session : Type 0 where
  pub output : List Output
  pub buf : Text
  pub status_code : ℕ
  pub promoted : Bool
  pub committed : Bool
  pub pending_flush : Bool
  pub first_err : Option Error
  pub context_done : Bool
  pub stopped : Bool
  pub headers_set : Bool
  pub finalizing : Bool
  pub finalized : Bool

-- newStreamSession
abbrev pub new_stream_session : Session
new_stream_session = record {
  output = [];
  buf = [];
  status_code = 0;
  promoted = false;
  committed = false;
  pending_flush = false;
  first_err = none;
  context_done = false;
  stopped = false;
  headers_set = false;
  finalizing = false;
  finalized = false;
}

-- The connection, by what it has been sent: how many bytes of a write it takes and whether the
-- write reports an error, and whether a flush does.
pub record Connection : Type 0 where
  pub accepts : List Output → Text → ℕ
  pub write_fails : List Output → Text → Bool
  pub flush_fails : List Output → Bool

-- streamFinalError, as the bytes of its two forms.
pub record FinalError : Type 0 where
  pub status : ℕ
  pub json_body : Text
  pub sse_payload : Text

abbrev pub keep_alive_comment : Text
keep_alive_comment = codes ": keep-alive\n\n"

-- unavailableLocked
unfoldable pub unavailable : Session → Option Error
unavailable s = elim s.first_err [
  | some e ↦ some e
  | none ↦ if s.stopped || s.finalized || s.context_done then some canceled else none
]

-- storeErrorLocked
unfoldable pub store_error : Session → Session
store_error s = elim s.first_err [
  | some e ↦ s
  | none ↦ record s { first_err = some transport; context_done = true }
]

-- SetSSEHeaders: that the three headers are set is all that the session keeps of them.
unfoldable pub set_sse_headers : Session → Session
set_sse_headers s =
    if s.headers_set || s.committed || s.finalized then s else record s { headers_set = true }

-- Discard
unfoldable pub discard : Session → Session
discard s = if s.promoted then s else record s { buf = []; status_code = 0 }

-- Stop
unfoldable pub stop : Session → Session
stop s = if s.stopped then s else record s { stopped = true; context_done = true }

abbrev pub is_some : Option Error → Bool
is_some none = false
is_some (some e) = true

-- WriteHeader
unfoldable pub write_header : Session → ℕ → Session
write_header s status =
    if is_some s.first_err || s.stopped || s.finalized
    then s
    else if s.promoted
    then record s { output = s.output ++ (header status ∷ []) }
    else record s { status_code = status }

-- WriteFinalError on a promoted session with a callback: the mutex is free while it runs.
unfoldable pub begin_final : Session → Session
begin_final s = elim (unavailable s) [
  | some e ↦ s
  | none ↦ if s.promoted then record s { finalizing = true } else s
]

unfoldable pub end_final : Session → Session
end_final s = if s.finalizing then record s { finalizing = false; finalized = true } else s

module _ (net : Connection) where
  -- writeSocketLocked; `as_output` is what the bytes are.
  unfoldable pub write_socket : Session → (Text → Output) → Text → Session × Option Error
  write_socket s as_output p =
      let n = min (net.accepts s.output p) (length p) in
      let t = record s {
        output = s.output ++ (as_output (take n p) ∷ []);
        committed = if ltb 0 n then true else s.committed;
      } in
      if net.write_fails s.output p || not (n == length p)
      then (let u = store_error t in (u, u.first_err))
      else (record t { pending_flush = true }, none)

  -- flushSocketLocked
  unfoldable pub flush_socket : Session → Session × Option Error
  flush_socket s = elim s.first_err [
    | some e ↦ (s, some e)
    | none ↦
        if net.flush_fails s.output
        then (let u = store_error s in (u, u.first_err))
        else (record s { output = s.output ++ (flushed ∷ []); pending_flush = false }, none)
  ]

  unfoldable pub write_and_flush : Session → (Text → Output) → Text → Session × Option Error
  write_and_flush s as_output p =
      let (t, err) = write_socket s as_output p in
      elim err [ some e ↦ (t, some e) | none ↦ flush_socket t ]

  -- WriteKeepAlive, which the heartbeat calls.
  unfoldable pub write_keep_alive : Session → Session × Option Error
  write_keep_alive s =
      if s.finalizing || s.finalized then (s, some canceled) else elim (unavailable s) [
        | some e ↦ (s, some e)
        | none ↦ write_and_flush s keep_alive keep_alive_comment
      ]

  -- Write
  unfoldable pub write : Session → Text → Session × Option Error
  write s p = elim (unavailable s) [
    | some e ↦ (s, some e)
    | none ↦ if s.promoted then write_socket s semantic p else (record s { buf = s.buf ++ p }, none)
  ]

  -- Flush
  unfoldable pub flush : Session → Session
  flush s =
      if not s.promoted || is_some s.first_err || s.stopped || s.finalized
      then s
      else (flush_socket s).0

  -- Promote: the status that was held back.
  unfoldable pub send_status : Session → Session
  send_status s =
      if s.status_code == 0
      then s
      else record s { output = s.output ++ (header s.status_code ∷ []) }

  -- Promote: the bytes that were held back.
  unfoldable pub send_buffer : Session → Session × Option Error
  send_buffer s =
      let (t, err) = write_socket s semantic s.buf in
      if is_empty s.buf then (s, none) else (if is_some err then t else record t { buf = [] }, err)

  -- Promote
  unfoldable pub promote : Session → Session × Option Error
  promote s = elim (unavailable s) [
    | some e ↦ (s, some e)
    | none ↦
        if s.promoted
        then (s, s.first_err)
        else let had_output = not (s.status_code == 0) || not (is_empty s.buf) in
          let (t, err) = send_buffer (send_status (record s { promoted = true })) in
          let (u, err') = flush_socket t in
          if is_some err
          then (t, err)
          else if is_some err'
          then (u, err')
          else (if had_output then record u { committed = true } else u, none)
  ]

  -- writeDirectSSEErrorLocked
  unfoldable pub write_direct_sse_error : Session → Text → Session × Option Error
  write_direct_sse_error s payload = write_and_flush s final payload

  -- WriteFinalError without a callback, or before promotion. The status of a response that is not
  -- committed comes before the JSON body.
  unfoldable pub write_final_error : Session → FinalError → Session × Option Error
  write_final_error s err = elim (unavailable s) [
    | some e ↦ (s, some e)
    | none ↦
        let t = if s.promoted then s else record s { buf = []; status_code = 0 } in
        let (u, e) =
          if s.promoted || s.committed
          then write_direct_sse_error t err.sse_payload
          else write_socket (record t { output = t.output ++ (header err.status ∷ []) }) final
              err.json_body in
        (record u { finalized = true }, e)
  ]
