-- ===== src/Reqconv/Payload.antt =====
-- internal/reqconv/build_payload.go: BuildPayload, and content_text.go's ExtractSystemPrompt.
pub mod Turns
pub mod Said
pub mod Built
use mathlib.Core.Option
use claude_code_kiro_models.Models.Effort.{is_reasoning_model}
use claude_code_kiro_models.Prelude.{
  Bool, true, false, not, ◌&&◌, List, [], ◌∷◌, ◌++◌, Option, none, some, String, Text, codes,
  if◌then◌else◌, is_empty, join,
}
use claude_code_kiro_models.Reqconv.Content.{Image, scan_message_content}
use claude_code_kiro_models.Reqconv.History.{
  HistoryEntry, build_history, extract_tool_use_ids, call_ids_before,
}
use claude_code_kiro_models.Reqconv.Message.{Role, MessageContent, Message, same_role}
use claude_code_kiro_models.Reqconv.Normalizer.{normalize, extract_text_content, newline}
use claude_code_kiro_models.Reqconv.ToolNames.{ToolNameMap, new_tool_name_map}
use claude_code_kiro_models.Reqconv.ToolResults.{ToolResult, reorder_tool_results}
use claude_code_kiro_models.Reqconv.Tools.{
  Tool, ToolEntry, Context, callable_tools, apply_tool_cache_points, convert_tools,
}

-- SystemPrompt: a string, or the blocks of an array with whether each is of type `text`.
pub data SystemPrompt : Type 0 where
  plain : Text → SystemPrompt
  blocks : List (Bool × Text) → SystemPrompt

unfoldable pub system_parts : List (Bool × Text) → List Text
system_parts [] = []
system_parts ((is_text, t) ∷ bs) =
    let rest = system_parts bs in if is_text && not (is_empty t) then t ∷ rest else rest

-- ExtractSystemPrompt
unfoldable pub extract_system_prompt : SystemPrompt → Text
extract_system_prompt (SystemPrompt.plain t) = t
extract_system_prompt (SystemPrompt.blocks bs) = join newline (system_parts bs)

-- BuildOptions; `advises` is whether there is an advisor's context.
pub record BuildOptions : Type 0 where
  pub profile_arn : Text
  pub model_id : Text
  pub conversation_id : Text
  pub effort : Text
  pub tool_search : Option Context
  pub advises : Bool

-- The part of a request that is converted.
pub record Request : Type 0 where
  pub system : SystemPrompt
  pub messages : List Message
  pub tools : List Tool

-- UserInputMessage; its context is left out where its three parts are, and its origin is fixed.
-- `env_state` is what ParseEnvState reads of the system prompt.
pub record UserInput : Type 0 where
  pub content : Text
  pub model_id : Text
  pub env_state : Option String
  pub tools : List ToolEntry
  pub tool_results : List ToolResult
  pub images : List Image

-- AdditionalModelRequestFields
pub data ModelFields : Type 0 where
  output_config reasoning : Text → ModelFields

-- The payload, less its two constants.
pub record Payload : Type 0 where
  pub conversation_id : Text
  pub history : List HistoryEntry
  pub current : UserInput
  pub profile_arn : Text
  pub model_fields : Option ModelFields

abbrev pub synthetic_continue : Text
synthetic_continue = codes "Continue"

abbrev pub continuation : Message
continuation = record { role = Role.user; content = MessageContent.plain synthetic_continue }

-- splitMessages: the last message is the current one, unless it is the assistant's.
unfoldable pub split_from : Message → List Message → List Message × Message
split_from m [] = if same_role m.role Role.assistant then (m ∷ [], continuation) else ([], m)
split_from m (n ∷ msgs) = let r = split_from n msgs in (m ∷ r.0, r.1)

unfoldable pub split_messages : List Message → List Message × Message
split_messages [] = ([], record { role = Role.other []; content = MessageContent.plain [] })
split_messages (m ∷ msgs) = split_from m msgs

abbrev pub synthetic_ack : Text
synthetic_ack =
    codes
      "I will fully incorporate this information when generating my responses, and explicitly acknowledge relevant parts of the summary when answering questions."

abbrev pub last_message : List Message → Option Message
last_message [] = none
last_message (m ∷ []) = some m
last_message (m ∷ n ∷ msgs) = last_message (n ∷ msgs)

-- The IDs of the calls of the last message of the history.
abbrev pub preceding_ids : Option Message → List Text
preceding_ids none = []
preceding_ids (some m) = extract_tool_use_ids m

abbrev pub result_ids : List ToolResult → List Text
result_ids [] = []
result_ids (r ∷ rs) = r.tool_use_id ∷ result_ids rs

-- buildCurrentMessage
unfoldable pub build_current_message :
    Text
    → Text
    → List ToolEntry
    → Option String
    → List ToolResult
    → List Image
    → List Text
    → UserInput
build_current_message content model_id tools env_state results images ids =
    let ordered = reorder_tool_results results ids in
    record {
      content = if is_empty content && is_empty ordered then synthetic_continue else content;
      model_id = model_id;
      env_state = env_state;
      tools = tools;
      tool_results = ordered;
      images = images;
    }

unfoldable pub model_fields : Text → Text → Option ModelFields
model_fields model_id effort =
    if is_empty effort
    then none
    else if is_reasoning_model model_id
    then some (ModelFields.reasoning effort)
    else some (ModelFields.output_config effort)

-- The entries of the tools that the proxy emulates.
abbrev pub emulated : Option Context → Bool → List ToolEntry
emulated none advises = if advises then ToolEntry.advisor_entry ∷ [] else []
emulated (some c) advises =
    ToolEntry.tool_search ∷ (if advises then ToolEntry.advisor_entry ∷ [] else [])

abbrev pub offered : List Tool → Option Context → List Tool
offered tools none = tools
offered tools (some c) = c.active_tools

-- `marshal` is json.Marshal of a tool's input, `parse_env_state` is ParseEnvState; the other two are
-- as in the history.
module _ (marshal : String → Text) (hex_digest uuid : Text → Text)
    (parse_env_state : Text → Option String) where
  -- buildSystemAndTools
  unfoldable pub build_tools : Request → BuildOptions → Option (ToolNameMap × List ToolEntry)
  build_tools req options =
      let callable = callable_tools (offered req.tools options.tool_search) in
      let emulated_entries = emulated options.tool_search options.advises in
      Option.map
        (λ (r : ToolNameMap × List ToolEntry).
          (r.0, apply_tool_cache_points callable r.1 ++ emulated_entries))
        (convert_tools hex_digest new_tool_name_map callable)

  -- placeSystemPrompt
  unfoldable pub place_system_prompt : Text → List HistoryEntry → List HistoryEntry
  place_system_prompt prompt history =
      if is_empty prompt
      then history
      else HistoryEntry.user_input (record { content = prompt; images = []; tool_results = [] })
        ∷ HistoryEntry.assistant_response (record {
          message_id = uuid (codes "synthetic-ack:" ++ synthetic_ack);
          content = synthetic_ack;
          tool_uses = [];
          reasoning = none;
        })
        ∷ history

  -- BuildPayload, once the tools are converted.
  unfoldable pub build_with :
      Request → BuildOptions → ToolNameMap → List ToolEntry → Payload × ToolNameMap
  build_with req options names tools =
      let prompt = extract_system_prompt req.system in
      let split = split_messages (normalize marshal req.messages (not (is_empty tools))) in
      let scanned = scan_message_content split.1.content in
      let history = build_history hex_digest uuid split.0 names (result_ids scanned.0) in
      let payload : Payload = record {
        conversation_id = options.conversation_id;
        history = place_system_prompt prompt history.1;
        current =
            build_current_message (extract_text_content split.1.content) options.model_id tools
              (parse_env_state prompt) scanned.0 scanned.1 (preceding_ids (last_message split.0));
        profile_arn = options.profile_arn;
        model_fields = model_fields options.model_id options.effort;
      } in
      (payload, history.0)

  -- BuildPayload; it never returns an error, and is `none` if a tool's schema panics.
  unfoldable pub build_payload : Request → BuildOptions → Option (Payload × ToolNameMap)
  build_payload req options =
      Option.map (λ (r : ToolNameMap × List ToolEntry). build_with req options r.0 r.1)
        (build_tools req options)
