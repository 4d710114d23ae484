-- ===== src/Tests/Frames.antt =====
-- Two tool calls, one of them with no stop frame, and a stream of frames.
use claude_code_kiro_models.Kiroproto.Event.{Event}
use claude_code_kiro_models.Kiroproto.Stream.{Arrival, Frame, frame, unreadable}
use claude_code_kiro_models.Kiroproto.ToolUse.Calls.{tool_events-frames}
use claude_code_kiro_models.Kiroproto.ToolUse.Sent.{
  is_named, Call, AreDistinct, all_frames, call_event,
}
use claude_code_kiro_models.Kiroproto.ToolUse.{Input, idle, tool_events}
use claude_code_kiro_models.Prelude.{
  str_eq_differs, ℕ, suc, Bool, true, false, List, [], ◌∷◌, some, codes, ltb, map, ◌≡◌, refl,
}

-- A frame with the id, the name and a piece of the input; one with a piece alone; one that stops.
abbrev calls : List Call
calls =
    record {
      id = "a";
      name = "read";
      first = record {
        has_id = true;
        has_name = true;
        denies_stop = false;
        input = Input.fragment (codes "{\"p\":");
        new_id = "x";
      };
      later =
          record {
            has_id = false;
            has_name = false;
            denies_stop = true;
            input = Input.fragment (codes "1}");
            new_id = "y";
          }
          ∷ [];
      stops = false;
    }
    ∷ record {
      id = "b";
      name = "write";
      first = record {
        has_id = true;
        has_name = true;
        denies_stop = false;
        input = Input.whole (codes "{}");
        new_id = "z";
      };
      later = [];
      stops = true;
    }
    ∷ []

tool_events-frames_example : tool_events idle (all_frames calls) ≡ map call_event calls
unfolding AreDistinct is_named
tool_events-frames_example = tool_events-frames calls (
  str_eq_differs "a" "" refl,
  str_eq_differs "a" "" refl,
  refl,
  refl,
  (str_eq_differs "b" "" refl, str_eq_differs "b" "a" refl, refl, refl, tt),
)

-- A callback that counts, and stops at the second event.
abbrev count : ℕ → Event → ℕ × Bool
count n e = (suc n, ltb 0 n)

abbrev arrivals : List Arrival
arrivals =
    frame (Frame.assistant_response (some (codes "a")))
    ∷ frame Frame.ignored
    ∷ frame (Frame.assistant_response (some (codes "b")))
    ∷ unreadable
    ∷ []
