-- ===== src/Tests/Payloads.antt =====
-- A conversation with an image, tool calls and their results, and tools of which some are deferred.
use mathlib.Core.List.{Perm}
use claude_code_kiro_models.Respconv.ToolCalls.{rune_len, byte_length}
use claude_code_kiro_models.Reqconv.Normalizer.{text_parts, all_parts, extract_text_content}
use claude_code_kiro_models.Reqconv.Dereference.{
  replace_escape, unescape, step_into, split_slash, walk, lookup_ref, texts_of_fields,
}
use claude_code_kiro_models.Prelude.{
  contains, join, text_eq, starts_with, true, false, List, [], ◌∷◌, Option, none, some, String,
  Text, codes, ◌≡◌, refl, All, map,
}
use claude_code_kiro_models.Reqconv.Message.{
  is_tool_use, Role, BlockKind, NestedContent, Message, MessageContent, block,
}
use claude_code_kiro_models.Reqconv.History.{
  first_call, attributed, replayable, extract_replayable, answers_tool_uses, id_seed, tool_uses_of,
  extract_tool_uses, shorten_uses, HistoryEntry, build_history, history_after, assistant_turn,
}
use claude_code_kiro_models.Reqconv.Json.{lookup_field, string, object, Fields, field, no_fields}
use claude_code_kiro_models.Reqconv.Payload.Built.{build_payload_total}
use claude_code_kiro_models.Reqconv.Payload.Said.{IsSaid, IsSaidEntry}
use claude_code_kiro_models.Reqconv.Payload.Turns.{TakesTurns}
use claude_code_kiro_models.Reqconv.Payload.{
  Payload, Request, BuildOptions, SystemPrompt, build_payload,
}
use claude_code_kiro_models.Reqconv.ToolNames.RoundTrip.{wire}
use claude_code_kiro_models.Reqconv.ToolNames.{shorten, ToolNameMap, new_tool_name_map}
use claude_code_kiro_models.Reqconv.Tools.Offered.{
  IsCallable, tool_name, is_marked, spec_name, specifications, marks, convert_tools-offered,
}
use claude_code_kiro_models.Reqconv.Tools.Promotion.{
  all_tools, NoneDeferred, ordinary, promote_tools-kept,
}
use claude_code_kiro_models.Reqconv.Tools.{
  without, sort_tool, sort_tools, search_tool, is_tool_search_tool, is_server_tool, callable_tools,
  Tool, ToolEntry, ToolType, Context, SearchType, convert_tools, apply_tool_cache_points,
  new_context, promote_tools,
}

abbrev no_input : String → Text
no_input input = codes "{}"

abbrev no_digest : Text → Text
no_digest name = codes "0123456789abcdef"

abbrev itself : Text → Text
itself seed = seed

abbrev no_env : Text → Option String
no_env prompt = none

abbrev linked : Fields
linked =
    field (codes "$ref") (string (codes "#/$defs/A"))
      (field (codes "$defs") (object (field (codes "A") (object no_fields) no_fields)) no_fields)

abbrev tool : String → Fields → Tool
tool name schema = record {
  type = ToolType.custom;
  name = codes name;
  description = [];
  input_schema = schema;
  cache_control = true;
  defer_loading = false;
}

abbrev picture : Message
picture = record {
  role = Role.user;
  content = MessageContent.blocks (
      record (block BlockKind.image) {
        source = some (record {
          type = codes "base64";
          media_type = codes "image/png";
          bytes = codes "AA==";
        });
      }
      ∷ []);
}

abbrev call : Message
call = record {
  role = Role.assistant;
  content = MessageContent.blocks (
      record (block BlockKind.tool_use) { id = codes "t1"; name = codes "ls"; input = "{}" }
      ∷ record (block BlockKind.redacted_thinking) { redacted = codes "blob" }
      ∷ []);
}

abbrev result : Message
result = record {
  role = Role.user;
  content = MessageContent.blocks (
      record (block BlockKind.tool_result) {
        tool_use_id = codes "t1";
        content = NestedContent.plain (codes "a.txt");
      }
      ∷ []);
}

abbrev request : Request
request = record {
  system = SystemPrompt.plain (codes "be brief");
  messages = picture ∷ call ∷ result ∷ [];
  tools = tool "ls" linked ∷ [];
}

abbrev options : BuildOptions
options = record {
  profile_arn = [];
  model_id = codes "claude-sonnet-4.5";
  conversation_id = codes "c1";
  effort = [];
  tool_search = none;
  advises = false;
}

build_payload_total_example :
    (r : Payload × ToolNameMap) × (build_payload no_input no_digest itself no_env request options
      ≡ some r)
    × TakesTurns Role.user r.0.history
    × All IsSaidEntry r.0.history
    × IsSaid r.0.current.content r.0.current.tool_results
unfolding callable_tools is_server_tool is_tool_search_tool texts_of_fields lookup_ref walk
    split_slash starts_with step_into lookup_field text_eq unescape replace_escape
build_payload_total_example =
    build_payload_total no_input no_digest itself no_env request options ((refl, tt), tt)

-- The turn that is answered is replayed with its blob.
call_history :
    (build_history no_digest itself (call ∷ []) new_tool_name_map (codes "t1" ∷ [])).1
    ≡ HistoryEntry.assistant_response (record {
      message_id = codes "assistant-msg::t1";
      content = [];
      tool_uses = record { tool_use_id = codes "t1"; name = codes "ls"; input = "{}" } ∷ [];
      reasoning = some (codes "blob");
    })
      ∷ []
unfolding build_history history_after assistant_turn extract_text_content shorten_uses join
    extract_tool_uses all_parts tool_uses_of text_parts is_tool_use id_seed shorten
    answers_tool_uses byte_length contains rune_len text_eq extract_replayable replayable attributed
    first_call
call_history = refl

-- A turn of the assistant that only thinks has neither a text nor a call.
abbrev thought : Message
thought = record {
  role = Role.assistant;
  content = MessageContent.blocks (block BlockKind.thinking ∷ []);
}

thought_history :
    (build_history no_digest itself (thought ∷ []) new_tool_name_map []).1
    ≡ HistoryEntry.assistant_response (record {
      message_id = codes "assistant-msg:";
      content = [];
      tool_uses = [];
      reasoning = none;
    })
      ∷ []
unfolding build_history history_after assistant_turn extract_text_content shorten_uses join
    extract_tool_uses all_parts tool_uses_of text_parts is_tool_use id_seed
thought_history = refl

abbrev tools : List Tool
tools = tool "ls" linked ∷ record (tool "cat" no_fields) { cache_control = false } ∷ []

convert_tools-offered_example :
    (r : ToolNameMap × List ToolEntry) × (convert_tools no_digest new_tool_name_map tools ≡ some r)
    × (map spec_name (specifications (apply_tool_cache_points tools r.1))
        ≡ map (wire no_digest) (map tool_name tools))
    × All IsCallable (specifications (apply_tool_cache_points tools r.1))
    × (marks (apply_tool_cache_points tools r.1) ≡ map is_marked tools)
unfolding texts_of_fields lookup_ref walk split_slash starts_with step_into lookup_field text_eq
    unescape replace_escape
convert_tools-offered_example = convert_tools-offered no_digest tools ((refl, tt), (tt, tt))

abbrev searched : List Tool
searched =
    record (tool "search" no_fields) { type = ToolType.search_regex }
    ∷ tool "ls" no_fields
    ∷ record (tool "cat" no_fields) { defer_loading = true }
    ∷ []

abbrev search_context : Context
search_context = record {
  search_type = SearchType.regex;
  search_tool_name = codes "search";
  deferred_tools = (codes "cat", record (tool "cat" no_fields) { defer_loading = true }) ∷ [];
  active_tools = tool "ls" no_fields ∷ [];
}

promote_tools-kept_example :
    Perm (all_tools (promote_tools search_context (codes "cat" ∷ []))) (ordinary searched)
    × NoneDeferred (codes "cat" ∷ []) (promote_tools search_context (codes "cat" ∷ []))
unfolding text_eq new_context search_tool is_tool_search_tool sort_tools sort_tool without
promote_tools-kept_example =
    promote_tools-kept searched search_context (codes "cat" ∷ [])
      ((refl, (refl, tt)), ((refl, tt), (tt, tt))) refl
