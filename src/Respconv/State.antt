-- ===== src/Respconv/State.antt =====
-- internal/respconv/accumulator.go: responseAccumulator, its deltas, and what is read off it. The
-- fields of the stop handling and of the tag parser are grouped.
use text.Mathlib.Text.{◌==◌ as str_eq}
use claude_code_kiro_models.Prelude.Int.{ℤ, pos, ltb_ℤ}
use claude_code_kiro_models.Prelude.Numbers.{Float64, finite}
use claude_code_kiro_models.Prelude.{
  Bool, true, false, not, ◌&&◌, ◌||◌, List, [], ◌∷◌, Option, none, some, String, Text, is_empty,
  if◌then◌else◌,
}
use claude_code_kiro_models.Respconv.Stop.{StopReason, StopState, init_stop_sequences}
use claude_code_kiro_models.Respconv.ThinkingTags.{TagState}

pub record ToolCall : Type 0 where
  pub id : String
  pub name : String
  pub input : Text

-- EventDelta; `none` is the empty stop reason.
pub record EventDelta : Type 0 where
  pub has_assistant_content : Bool
  pub text_delta : Text
  pub thinking_delta : Text
  pub redacted_content : Text
  pub tool_stop : Bool
  pub tool_use_id : String
  pub tool_name : String
  pub tool_input : Text
  pub is_error : Bool
  pub error_message : Text
  pub stop_signal : Bool
  pub stop_reason : Option StopReason
  pub stop_sequence : Text

abbrev pub no_delta : EventDelta
no_delta = record {
  has_assistant_content = false;
  text_delta = [];
  thinking_delta = [];
  redacted_content = [];
  tool_stop = false;
  tool_use_id = "";
  tool_name = "";
  tool_input = [];
  is_error = false;
  error_message = [];
  stop_signal = false;
  stop_reason = none;
  stop_sequence = [];
}

-- responseAccumulator. The two maps are association lists.
pub record Accumulator : Type 0 where
  pub text_buf : Text
  pub thinking_buf : Text
  pub tool_calls : List ToolCall
  pub has_tool_use : Bool
  pub tool_parse_error : Bool
  pub has_metadata : Bool
  pub input_tokens : ℤ
  pub output_tokens : ℤ
  pub cache_read_input_tokens : ℤ
  pub cache_write_input_tokens : ℤ
  pub has_context_usage : Bool
  pub context_usage_percentage : Float64
  pub context_window_size : ℤ
  pub has_credits : Bool
  pub credits : Float64
  pub signature : Text
  pub redacted_contents : List Text
  pub conversation_id : String
  pub has_text : Bool
  pub pre_counted_input_tokens : ℤ
  pub stop : StopState
  pub tags : TagState
  pub drop_tool_names : List String
  pub tool_name_map : List (String × String)

-- newAccumulator
unfoldable pub new_accumulator : ℤ → List Text → ℤ → ℤ → Accumulator
unfolding init_stop_sequences
new_accumulator window stop_sequences max_tokens pre_counted = record {
  text_buf = [];
  thinking_buf = [];
  tool_calls = [];
  has_tool_use = false;
  tool_parse_error = false;
  has_metadata = false;
  input_tokens = pos 0;
  output_tokens = pos 0;
  cache_read_input_tokens = pos 0;
  cache_write_input_tokens = pos 0;
  has_context_usage = false;
  context_usage_percentage = finite (pos 0);
  context_window_size = window;
  has_credits = false;
  credits = finite (pos 0);
  signature = [];
  redacted_contents = [];
  conversation_id = "";
  has_text = false;
  pre_counted_input_tokens = pre_counted;
  stop =
      init_stop_sequences
        (record {
          local_stop = false;
          reason = none;
          matched = [];
          stop_sequences = [];
          stop_seq_max_keep = 0;
          stop_seq_pending = [];
          max_tokens_budget = max_tokens;
          output_rune_count = 0;
        })
        stop_sequences;
  tags = record { inside = false; buf = []; suppress = false };
  drop_tool_names = [];
  tool_name_map = [];
}

unfoldable pub lookup_name : String → List (String × String) → Option String
lookup_name k [] = none
lookup_name k ((j, v) ∷ m) = if str_eq j k then some v else lookup_name k m

unfoldable pub has_name : String → List String → Bool
has_name k [] = false
has_name k (j ∷ names) = if str_eq j k then true else has_name k names

-- hasUsableTokenCounts
unfoldable pub has_usable_token_counts : ℤ → ℤ → Bool
has_usable_token_counts input output = ltb_ℤ (pos 0) input || ltb_ℤ (pos 0) output

-- IsEmptyVisibleEndTurn
unfoldable pub is_empty_visible_end_turn : Accumulator → Bool
is_empty_visible_end_turn a =
    if a.stop.local_stop
    then false
    else (not (is_empty a.thinking_buf) || not (is_empty a.redacted_contents))
      && is_empty a.text_buf
      && not a.has_tool_use
