-- ===== src/Kiroproto/Stream/Delivery.antt =====
-- The callback of ParseStream against the events of the stream.
use claude_code_kiro_models.Kiroproto.Event.{Event}
use claude_code_kiro_models.Kiroproto.Stream.{
  Arrival, cancelled, unreadable, frame, Result, ok, failed, events, last, decode_error,
  read_frame_event, contains_func,
}
use claude_code_kiro_models.Kiroproto.ToolUse.{ToolUseAccumulator, flush}
use claude_code_kiro_models.Prelude.{Bool, List, [], ◌∷◌, ◌++◌, if◌then◌else◌}

-- The events of a stream, read to its end with no callback, and how the reading ends.
unfoldable pub reports : ToolUseAccumulator → List Arrival → List Event × Result
reports acc [] = ((flush acc).1, ok)
reports acc (cancelled ∷ xs) = ([], failed)
reports acc (unreadable ∷ xs) = ([], failed)
reports acc (frame f ∷ xs) = elim (read_frame_event acc f) [
  | decode_error ↦ ([], failed)
  | last e ↦ (e ∷ [], ok)
  | events b es ↦ let (rest, result) = reports b xs in (es ++ rest, result)
]

module _ {ℓ} {S : Type ℓ} (callback : S → Event → S × Bool) where
  -- The events are handed over in order until the callback says stop, which is no error.
  abbrev pub handed : S → List Event × Result → S × Result
  handed s (es, result) =
      let (t, stop) = contains_func callback s es in (t, if stop then ok else result)
