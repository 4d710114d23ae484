-- ===== src/Kiroproto/Event.antt =====
-- internal/kiroproto/eventstream.go: Event and its types. Texts that are counted or cut are lists of
-- runes; identifiers are strings.
use claude_code_kiro_models.Prelude.Int.{ℤ, pos}
use claude_code_kiro_models.Prelude.Numbers.{Float64, finite}
use claude_code_kiro_models.Prelude.{Bool, false, [], String, Text, is_empty, if◌then◌else◌}

-- The values of Event.Type; `unknown` is any string that is no constant of the package.
pub data EventType : Type 0 where
  assistant_response reasoning_content tool_use metadata metering : EventType
  invalid_state exception message_metadata followup_prompt citation : EventType
  code code_reference supplementary_links intents interaction_comps : EventType
  dry_run_succeed context_usage initial_response : EventType
  unknown : String → EventType

pub record Event : Type 0 where
  pub type : EventType
  pub content : Text
  pub thinking_text : Text
  pub tool_name : String
  pub tool_use_id : String
  pub tool_input : Text
  pub tool_stop : Bool
  pub credits : Float64
  pub input_tokens : ℤ
  pub output_tokens : ℤ
  pub uncached_input_tokens : ℤ
  pub cache_read_input_tokens : ℤ
  pub cache_write_input_tokens : ℤ
  pub total_tokens : ℤ
  pub signature : Text
  pub redacted_content : Text
  pub context_usage_percentage : Float64
  pub conversation_id : String
  pub utterance_id : String
  pub invalid_state_reason : Text
  pub error_message : Text

-- Event{Type: t}
abbrev pub event : EventType → Event
event t = record {
  type = t;
  content = [];
  thinking_text = [];
  tool_name = "";
  tool_use_id = "";
  tool_input = [];
  tool_stop = false;
  credits = finite (pos 0);
  input_tokens = pos 0;
  output_tokens = pos 0;
  uncached_input_tokens = pos 0;
  cache_read_input_tokens = pos 0;
  cache_write_input_tokens = pos 0;
  total_tokens = pos 0;
  signature = [];
  redacted_content = [];
  context_usage_percentage = finite (pos 0);
  conversation_id = "";
  utterance_id = "";
  invalid_state_reason = [];
  error_message = [];
}

-- ErrorText
unfoldable pub error_text : Event → Text
error_text e = if is_empty e.error_message then e.invalid_state_reason else e.error_message
