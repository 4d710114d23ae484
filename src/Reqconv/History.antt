-- ===== src/Reqconv/History.antt =====
-- internal/reqconv/history.go: buildHistory, and tool_results.go's ExtractToolUses.
use claude_code_kiro_models.Prelude.{
  Bool, true, false, not, ◌&&◌, List, [], ◌∷◌, ◌++◌, Option, none, some, String, Text, codes,
  if◌then◌else◌, is_empty, contains,
}
use claude_code_kiro_models.Reqconv.Content.{Image, scan_message_content}
use claude_code_kiro_models.Reqconv.Message.{
  Role, BlockKind, ContentBlock, MessageContent, Message, is_tool_use, same_role,
}
use claude_code_kiro_models.Reqconv.Normalizer.{extract_text_content}
use claude_code_kiro_models.Reqconv.ToolNames.{ToolNameMap, shorten}
use claude_code_kiro_models.Reqconv.ToolResults.{ToolResult, reorder_tool_results}

pub record HistoryToolUse : Type 0 where
  pub tool_use_id : Text
  pub name : Text
  pub input : String

-- HistoryUserInputMessage; its context is left out where it has no tool results, and its origin is
-- fixed.
pub record UserTurn : Type 0 where
  pub content : Text
  pub images : List Image
  pub tool_results : List ToolResult

-- AssistantResponseMessage; `reasoning` is its redacted content.
pub record AssistantTurn : Type 0 where
  pub message_id : Text
  pub content : Text
  pub tool_uses : List HistoryToolUse
  pub reasoning : Option Text

pub data HistoryEntry : Type 0 where
  user_input : UserTurn → HistoryEntry
  assistant_response : AssistantTurn → HistoryEntry

abbrev pub synthetic_empty : Text
synthetic_empty = codes "(empty)"

-- ExtractToolUses
unfoldable pub tool_uses_of : List ContentBlock → List HistoryToolUse
tool_uses_of [] = []
tool_uses_of (b ∷ bs) =
    let rest = tool_uses_of bs in
    if is_tool_use b
    then record { tool_use_id = b.id; name = b.name; input = b.input } ∷ rest
    else rest

unfoldable pub extract_tool_uses : MessageContent → List HistoryToolUse
extract_tool_uses (MessageContent.plain t) = []
extract_tool_uses (MessageContent.blocks bs) = tool_uses_of bs

-- extractToolUseIDs
unfoldable pub use_ids : List HistoryToolUse → List Text
use_ids [] = []
use_ids (u ∷ us) = u.tool_use_id ∷ use_ids us

unfoldable pub extract_tool_use_ids : Message → List Text
extract_tool_use_ids m = use_ids (extract_tool_uses m.content)

-- answersToolUses
unfoldable pub answers_tool_uses : List HistoryToolUse → List Text → Bool
answers_tool_uses [] ids = false
answers_tool_uses (u ∷ us) ids =
    let rest = answers_tool_uses us ids in if contains ids u.tool_use_id then true else rest

-- extractReplayableRedactedThinking: the nearest call of the blocks, and whether it is answered. An
-- IsToolUse block is a server tool's too.
unfoldable pub first_call : List ContentBlock → Option ContentBlock
first_call [] = none
first_call (b ∷ bs) = let rest = first_call bs in if is_tool_use b then some b else rest

abbrev pub is_answered : List Text → Option ContentBlock → Bool
is_answered ids none = false
is_answered ids (some b) = contains ids b.id

unfoldable pub attributed : List Text → Option ContentBlock → Option ContentBlock → Bool
attributed ids before (some next) = is_answered ids (some next)
attributed ids before none = is_answered ids before

abbrev pub is_redacted : BlockKind → Bool
is_redacted BlockKind.redacted_thinking = true
is_redacted _ = false

-- The loop over the blocks; `before` is the nearest call behind, and `found` is `data`.
unfoldable pub replayable : List Text → Option ContentBlock → Text → List ContentBlock → Text
replayable ids before found [] = found
replayable ids before found (b ∷ bs) =
    replayable ids (if is_tool_use b then some b else before)
      (if is_redacted b.type && (not (is_empty b.redacted) && attributed ids before (first_call bs))
        then b.redacted
        else found)
      bs

unfoldable pub extract_replayable : MessageContent → List Text → Text
extract_replayable (MessageContent.plain t) ids = []
extract_replayable (MessageContent.blocks bs) ids = replayable ids none [] bs

-- A user's turn, after the message `before` it.
abbrev pub call_ids_before : Option Message → List Text
call_ids_before none = []
call_ids_before (some m) = if same_role m.role Role.assistant then extract_tool_use_ids m else []

unfoldable pub user_turn : Option Message → Message → UserTurn
user_turn before m =
    let scanned = scan_message_content m.content in
    let content = extract_text_content m.content in
    record {
      content = if is_empty content && is_empty scanned.0 then synthetic_empty else content;
      images = scanned.1;
      tool_results = reorder_tool_results scanned.0 (call_ids_before before);
    }

-- The seed of a message's ID.
unfoldable pub id_seed : List HistoryToolUse → Text
id_seed [] = []
id_seed (u ∷ us) = codes ":" ++ (u.tool_use_id ++ id_seed us)

abbrev pub some_text : Text → Option Text
some_text [] = none
some_text (r ∷ t) = some (r ∷ t)

-- `hex_digest` is the hexadecimal SHA-256 of a name, and `uuid` the UUID of SHA-1 that is made of a
-- seed.
module _ (hex_digest uuid : Text → Text) where
  unfoldable pub shorten_uses :
      ToolNameMap → List HistoryToolUse → ToolNameMap × List HistoryToolUse
  shorten_uses names [] = (names, [])
  shorten_uses names (u ∷ us) =
      let r = shorten hex_digest names u.name in
      let rest = shorten_uses r.0 us in (rest.0, record u { name = r.1 } ∷ rest.1)

  unfoldable pub assistant_turn : Message → List HistoryToolUse → Bool → List Text → AssistantTurn
  assistant_turn m uses is_last ids = record {
    message_id = uuid (codes "assistant-msg:" ++ (extract_text_content m.content ++ id_seed uses));
    content = extract_text_content m.content;
    tool_uses = uses;
    reasoning =
        if not (is_empty uses) && (is_last && answers_tool_uses uses ids)
        then some_text (extract_replayable m.content ids)
        else none;
  }

  -- buildHistory; a message of another role has no entry.
  unfoldable pub history_after :
      List Text → ToolNameMap → Option Message → List Message → ToolNameMap × List HistoryEntry
  history_after ids names before [] = (names, [])
  history_after ids names before (m ∷ msgs) = elim m.role [
    | Role.user ↦
        let rest = history_after ids names (some m) msgs in
        (rest.0, HistoryEntry.user_input (user_turn before m) ∷ rest.1)
    | Role.assistant ↦
        let uses = shorten_uses names (extract_tool_uses m.content) in
        let rest = history_after ids uses.0 (some m) msgs in
        (
          rest.0,
          HistoryEntry.assistant_response (assistant_turn m uses.1 (is_empty msgs) ids) ∷ rest.1,
        )
    | Role.other t ↦ history_after ids names (some m) msgs
  ]

  unfoldable pub build_history :
      List Message → ToolNameMap → List Text → ToolNameMap × List HistoryEntry
  build_history msgs names ids = history_after ids names none msgs
