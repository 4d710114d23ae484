-- ===== src/Reqconv/ServerTools.antt =====
-- internal/reqconv/server_tool_history.go: ExpandServerToolResults.
pub mod Expansion
use claude_code_kiro_models.Prelude.{
  Bool, true, false, not, ◌&&◌, ◌||◌, List, [], ◌∷◌, ◌++◌, Text, codes, is_empty, join,
  if◌then◌else◌,
}
use claude_code_kiro_models.Reqconv.Message.{
  Role, BlockKind, Nested, NestedContent, ContentBlock, MessageContent, Message, block,
  is_server_tool_result, same_role,
}

abbrev pub nested : NestedContent → List Nested
nested (NestedContent.plain t) = []
nested (NestedContent.blocks bs) = bs

-- serverToolResultIsError
unfoldable pub any_error : List Nested → Bool
any_error [] = false
any_error (b ∷ bs) = elim b.type [
  | BlockKind.advisor_result_error ↦ true
  | BlockKind.tool_search_result_error ↦ true
  | _ ↦ any_error bs
]

unfoldable pub server_tool_result_is_error : ContentBlock → Bool
server_tool_result_is_error b = any_error (nested b.content)

-- ServerToolResultText: `add`
unfoldable pub add_part : Text → List Text
add_part s = if is_empty s then [] else s ∷ []

unfoldable pub named_only : List Text → List Text
named_only [] = []
named_only (name ∷ names) = add_part name ++ named_only names

unfoldable pub result_parts : Nested → List Text
result_parts b = elim b.type [
  | BlockKind.advisor_result ↦ add_part b.text
  | BlockKind.advisor_redacted_result ↦
      add_part (codes "[advisor guidance was redacted and is unavailable]")
  | BlockKind.advisor_result_error ↦ add_part (codes "advisor error: " ++ b.error_code)
  | BlockKind.tool_search_result_error ↦ add_part (codes "tool search error: " ++ b.error_code)
  | BlockKind.text ↦ add_part b.text
  | BlockKind.tool_search_search_result ↦
      let names = named_only b.tool_references in
      if is_empty names then [] else add_part (codes "Found tools: " ++ join (codes ", ") names)
  | _ ↦ []
]

unfoldable pub all_result_parts : List Nested → List Text
all_result_parts [] = []
all_result_parts (b ∷ bs) = result_parts b ++ all_result_parts bs

unfoldable pub server_tool_result_text : ContentBlock → Text
server_tool_result_text b = elim b.content [
  | NestedContent.plain t ↦ t
  | NestedContent.blocks bs ↦ join (10 ∷ []) (all_result_parts bs)
]

-- The tool_result that stands for a server tool's result.
unfoldable pub replayed_result : ContentBlock → ContentBlock
replayed_result b = record (block BlockKind.tool_result) {
  tool_use_id = b.tool_use_id;
  content = NestedContent.plain (server_tool_result_text b);
  is_error = server_tool_result_is_error b;
}

unfoldable pub any_server_tool_result : List ContentBlock → Bool
any_server_tool_result [] = false
any_server_tool_result (b ∷ bs) =
    let rest = any_server_tool_result bs in if is_server_tool_result b then true else rest

-- messageHasServerToolResult
unfoldable pub message_has_server_tool_result : Message → Bool
message_has_server_tool_result m = elim m.content [
  | MessageContent.plain t ↦ false
  | MessageContent.blocks bs ↦ same_role m.role Role.assistant && any_server_tool_result bs
]

-- expandAssistantMessage: flush, on the segments in hand.
abbrev pub turn : Role → List ContentBlock → List Message
turn r [] = []
turn r (b ∷ bs) = record { role = r; content = MessageContent.blocks (b ∷ bs) } ∷ []

unfoldable pub flush_turns : List ContentBlock → List ContentBlock → List Message
flush_turns assistant results = turn Role.assistant assistant ++ turn Role.user results

-- expandAssistantMessage: the loop, from the segments in hand, and the flush behind it.
unfoldable pub expand_blocks :
    List ContentBlock → List ContentBlock → List ContentBlock → List Message
expand_blocks assistant results [] = flush_turns assistant results
expand_blocks assistant results (b ∷ bs) =
    let answered = expand_blocks assistant (results ++ (replayed_result b ∷ [])) bs in
    let next = expand_blocks (b ∷ []) [] bs in
    let on = expand_blocks (assistant ++ (b ∷ [])) results bs in
    if is_server_tool_result b
    then answered
    else if is_empty results
    then on
    else flush_turns assistant results ++ next

unfoldable pub expand_assistant_message : Message → List Message
expand_assistant_message m = elim m.content [
  | MessageContent.plain t ↦ m ∷ []
  | MessageContent.blocks bs ↦
      let out = expand_blocks [] [] bs in if is_empty out then m ∷ [] else out
]

-- ExpandServerToolResults
unfoldable pub expand_server_tool_results : List Message → List Message
expand_server_tool_results [] = []
expand_server_tool_results (m ∷ msgs) =
    (if message_has_server_tool_result m then expand_assistant_message m else m ∷ [])
    ++ expand_server_tool_results msgs
