-- ===== src/Kiroproto/Wire/Arrivals.antt =====
-- The loop of ParseStream over the bytes of a reply.
use claude_code_kiro_models.Kiroproto.Frame.RoundTrip.{encode}
use claude_code_kiro_models.Kiroproto.Frame.{FrameResult, ok, err, max_frame_size}
use claude_code_kiro_models.Kiroproto.Headers.RoundTrip.{Header, IsHeader, encode_headers, types_of}
use claude_code_kiro_models.Kiroproto.Headers.{extract_frame_headers, no_types}
use claude_code_kiro_models.Kiroproto.Stream.{Arrival, frame}
use claude_code_kiro_models.Kiroproto.Wire.{
  Decoders, typed_frame, read_arrivals, next_frame, ending,
}
use claude_code_kiro_models.Prelude.{
  ℕ, suc, List, [], ◌∷◌, ◌++◌, ◌≤◌, ◌+◌, Option, some, String, length, All,
}
use mathlib.Core.Option

module _ (decode : Decoders) (new_ids : ℕ → String) where
  -- The turns on a reply, from what readFrame returns.
  abbrev turns : ℕ → ℕ → FrameResult → Option (List Arrival)
  turns turn fuel o = elim o [
    | err e ↦ some (ending e)
    | ok headers payload rest ↦
        Option.bind (read_arrivals decode new_ids (suc turn) fuel rest)
          (next_frame decode new_ids turn payload (extract_frame_headers headers))
  ]

-- A message as the upstream frames it: its headers and its payload.
pub record Message : Type 0 where
  pub headers : List Header
  pub payload : List ℕ

unfoldable pub IsMessage : Message → Type 0
IsMessage m =
    All IsHeader m.headers
    × (16 + (length (encode_headers m.headers) + length m.payload) ≤ max_frame_size)

unfoldable pub encode_messages : List Message → List ℕ
encode_messages [] = []
encode_messages (m ∷ ms) = encode (encode_headers m.headers) m.payload ++ encode_messages ms

module _ (decode : Decoders) (new_ids : ℕ → String) where
  unfoldable pub message_frames : ℕ → List Message → List Arrival
  message_frames turn [] = []
  message_frames turn (m ∷ ms) =
      frame (typed_frame decode (new_ids turn) (types_of no_types m.headers) m.payload)
      ∷ message_frames (suc turn) ms
