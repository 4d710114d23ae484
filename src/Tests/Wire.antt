-- ===== src/Tests/Wire.antt =====
-- Frames of one reply, in bytes.
use claude_code_kiro_models.Kiroproto.Checksum.{
  complement, xor, shift_bit, shift_bits, fold_bytes, IsByte, put_uint32, update, checksum,
}
use claude_code_kiro_models.Kiroproto.Frame.RoundTrip.{encode, read_frame-encode}
use claude_code_kiro_models.Kiroproto.Frame.Sound.{read_frame-encode_only, encode-IsByte}
use claude_code_kiro_models.Kiroproto.Frame.Truncated.{cut_error, read_frame_cut}
use claude_code_kiro_models.Kiroproto.Frame.{
  Reader, ok, err, truncated_prelude, read_frame, max_frame_size,
}
use claude_code_kiro_models.Kiroproto.Headers.RoundTrip.{Header}
use claude_code_kiro_models.Kiroproto.Wire.Arrivals.{Message}
use claude_code_kiro_models.Kiroproto.Wire.{Decoders}
use claude_code_kiro_models.Prelude.{
  ◌≤◌, All-append, ℕ, List, [], ◌∷◌, ◌++◌, ◌≡◌, none, some, String, arith, codes, All, false, true,
  refl,
}

-- The check value of CRC-32.
checksum_nine : checksum (codes "123456789") ≡ 3421780262
unfolding checksum update fold_bytes shift_bits shift_bit xor complement
checksum_nine = refl

abbrev event_headers : List Header
event_headers =
    record { name = codes ":message-type"; value_type = 7; value = codes "event" }
    ∷ record { name = codes "flag"; value_type = 0; value = [] }
    ∷ record { name = codes ":event-type"; value_type = 7; value = codes "assistantResponseEvent" }
    ∷ []

abbrev message : Message
message = record { headers = event_headers; payload = codes "{}" }

read_frame-encode_example :
    read_frame (record { unread = encode (codes "h") (codes "{}") ++ codes "more"; breaks = true })
    ≡ ok (codes "h") (codes "{}") (record { unread = codes "more"; breaks = true })
read_frame-encode_example =
    read_frame-encode (codes "h") (codes "{}") (codes "more") true (omega arith)

abbrev one_frame : Reader
one_frame = record { unread = encode (codes "h") (codes "{}") ++ []; breaks = false }

one_frame-IsByte : All IsByte one_frame.unread
one_frame-IsByte =
    All-append IsByte (encode (codes "h") (codes "{}")) []
      (encode-IsByte (codes "h") (codes "{}") (omega arith, tt) (omega arith, (omega arith, tt))) tt

read_frame-encode_only_example :
    (one_frame.unread ≡ encode (codes "h") (codes "{}") ++ [])
    × ((19 ≤ max_frame_size) × (false ≡ one_frame.breaks))
read_frame-encode_only_example =
    read_frame-encode_only one_frame (record { unread = []; breaks = false }) (codes "h")
      (codes "{}") one_frame-IsByte
      (read_frame-encode (codes "h") (codes "{}") [] false (omega arith))

read_frame_cut_example :
    read_frame (record { unread = 0 ∷ 0 ∷ 0 ∷ []; breaks = false }) ≡ err (truncated_prelude 3)
unfolding encode put_uint32 cut_error
read_frame_cut_example = read_frame_cut [] [] (0 ∷ 0 ∷ 0 ∷ []) _ (omega arith) refl (omega arith)

-- A decoder that decodes only an assistant's text, which is the payload itself.
abbrev plain : Decoders
plain = record {
  exception_message = λ p. p;
  content = λ p. some p;
  reasoning = λ p. none;
  tool_use = λ p. none;
  token_usage = λ p. none;
  metering = λ p. none;
  invalid_state = λ p. none;
  message_metadata = λ p. none;
  context_usage = λ p. none;
}

abbrev constant_id : ℕ → String
constant_id n = "id"

abbrev three_bytes : Reader
three_bytes = record { unread = 1 ∷ 2 ∷ 3 ∷ []; breaks = false }
