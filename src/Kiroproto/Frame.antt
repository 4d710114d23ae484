-- ===== src/Kiroproto/Frame.antt =====
-- internal/kiroproto/frame.go: readFrame. The reader is the bytes that are left of the reply, and
-- whether the connection breaks after them or ends.
pub mod RoundTrip
pub mod Sound
pub mod Truncated
use claude_code_kiro_models.Kiroproto.Checksum.{checksum, update, big_endian, put_uint32}
use claude_code_kiro_models.Prelude.{
  ℕ, suc, Bool, true, false, List, [], ◌∷◌, ◌++◌, ◌+◌, ◌-◌, ◌≡◌, ltb, leb, ◌==◌, if◌then◌else◌,
  length, take, drop,
}

pub record Reader : Type 0 where
  pub unread : List ℕ
  pub breaks : Bool

-- io.EOF, io.ErrUnexpectedEOF, and what else a read may fail with.
pub data ReadError : Type 0 where
  eof unexpected_eof broken : ReadError

-- A buffer that io.ReadFull fills, or the count of what it read and its error.
pub data ReadOutcome : Type 0 where
  full : List ℕ → Reader → ReadOutcome
  short : ℕ → ReadError → ReadOutcome

unfoldable pub short_error : Reader → ReadError
short_error r = if r.breaks then broken else if length r.unread == 0 then eof else unexpected_eof

unfoldable pub read_full : ℕ → Reader → ReadOutcome
read_full n r =
    if leb n (length r.unread)
    then full (take n r.unread) (record r { unread = drop n r.unread })
    else short (length r.unread) (short_error r)

pub data FrameError : Type 0 where
  end_of_stream : FrameError
  truncated_prelude : ℕ → FrameError
  reading_prelude : ReadError → FrameError
  prelude_mismatch : ℕ → ℕ → FrameError
  too_small too_large headers_exceed : ℕ → FrameError
  reading_body : ReadError → FrameError
  message_mismatch : ℕ → ℕ → FrameError

-- The headers, the payload and the reader after them, or an error.
pub data FrameResult : Type 0 where
  ok : List ℕ → List ℕ → Reader → FrameResult
  err : FrameError → FrameResult

abbrev pub max_frame_size : ℕ
max_frame_size = 4194304

unfoldable pub prelude_error : ℕ → ReadError → FrameError
prelude_error n eof = if n == 0 then end_of_stream else reading_prelude eof
prelude_error n unexpected_eof = if n == 0 then end_of_stream else truncated_prelude n
prelude_error n broken = reading_prelude broken

-- The frame's body is read: its last four bytes are the message's checksum.
unfoldable pub check_message : List ℕ → ℕ → List ℕ → Reader → FrameResult
check_message prelude headers_len remaining r =
    let message_crc = big_endian 0 (drop (length remaining - 4) remaining) in
    let body = take (length remaining - 4) remaining in
    let computed = update (update 0 prelude) body in
    if computed == message_crc
    then ok (take headers_len body) (drop headers_len body) r
    else err (message_mismatch computed message_crc)

unfoldable pub read_body : List ℕ → ℕ → ReadOutcome → FrameResult
read_body prelude headers_len (short n e) = err (reading_body e)
read_body prelude headers_len (full remaining r) = check_message prelude headers_len remaining r

-- The prelude's two lengths are checked before the body is read.
unfoldable pub check_lengths : List ℕ → ℕ → ℕ → Reader → FrameResult
check_lengths prelude total_len headers_len r =
    if ltb total_len 16
    then err (too_small total_len)
    else if ltb max_frame_size total_len
    then err (too_large total_len)
    else if ltb (total_len - 12 - 4) headers_len
    then err (headers_exceed headers_len)
    else read_body prelude headers_len (read_full (total_len - 12) r)

unfoldable pub read_prelude : ReadOutcome → FrameResult
read_prelude (short n e) = err (prelude_error n e)
read_prelude (full prelude r) =
    let prelude_crc = big_endian 0 (drop 8 prelude) in
    let computed = checksum (take 8 prelude) in
    if computed == prelude_crc
    then check_lengths prelude (big_endian 0 (take 4 prelude))
        (big_endian 0 (take 4 (drop 4 prelude))) r
    else err (prelude_mismatch computed prelude_crc)

unfoldable pub read_frame : Reader → FrameResult
read_frame r = read_prelude (read_full 12 r)
