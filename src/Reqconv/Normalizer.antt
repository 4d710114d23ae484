-- ===== src/Reqconv/Normalizer.antt =====
-- internal/reqconv/message_normalizer.go: Normalize, and content_text.go's ExtractTextContent.
pub mod Roles
pub mod Texts
use claude_code_kiro_models.Prelude.{
  Bool, true, false, not, ◌&&◌, List, [], ◌∷◌, ◌++◌, map, Option, none, some, String, Text, codes,
  text_eq, is_empty, join, if◌then◌else◌,
}
use claude_code_kiro_models.Reqconv.Message.{
  Role, BlockKind, Nested, NestedContent, ContentBlock, MessageContent, Message, block, text_block,
  is_text, is_tool_use, is_tool_result, is_server_tool_result, same_role,
}
use claude_code_kiro_models.Reqconv.ServerTools.{expand_server_tool_results}

abbrev pub newline : Text
newline = 10 ∷ []

abbrev pub type_name : BlockKind → Text
type_name BlockKind.advisor_tool_result = codes "advisor_tool_result"
type_name BlockKind.advisor_result = codes "advisor_result"
type_name BlockKind.advisor_redacted_result = codes "advisor_redacted_result"
type_name BlockKind.advisor_result_error = codes "advisor_tool_result_error"
type_name BlockKind.tool_search_search_result = codes "tool_search_tool_search_result"
type_name BlockKind.tool_search_result_error = codes "tool_search_tool_result_error"
type_name (BlockKind.unknown t) = t
type_name _ = []

-- textualizeUnknownBlock
unfoldable pub textualize_unknown_block : ContentBlock → Text
textualize_unknown_block b =
    let identifier =
      if not (is_empty b.tool_name)
      then b.tool_name
      else if is_empty b.name
      then b.id
      else b.name in
    if is_empty identifier
    then codes "[" ++ (type_name b.type ++ codes "]")
    else codes "[" ++ (type_name b.type ++ (codes ": " ++ (identifier ++ codes "]")))

-- ExtractTextContent: what a block adds to the parts.
unfoldable pub text_parts : ContentBlock → List Text
text_parts b = elim b.type [
  | BlockKind.text ↦ b.text ∷ []
  | BlockKind.thinking ↦ []
  | BlockKind.redacted_thinking ↦ []
  | BlockKind.tool_use ↦ []
  | BlockKind.tool_result ↦ []
  | BlockKind.image ↦ []
  | BlockKind.tool_reference ↦ []
  | BlockKind.server_tool_use ↦ []
  | BlockKind.tool_search_tool_result ↦ []
  | _ ↦ textualize_unknown_block b ∷ []
]

unfoldable pub all_parts : List ContentBlock → List Text
all_parts [] = []
all_parts (b ∷ bs) = text_parts b ++ all_parts bs

-- ExtractTextContent
unfoldable pub extract_text_content : MessageContent → Text
extract_text_content (MessageContent.plain t) = t
extract_text_content (MessageContent.blocks bs) = join (codes " ") (all_parts bs)

-- extractToolResultContentText
unfoldable pub reference_parts : List Text → List Text
reference_parts [] = []
reference_parts (name ∷ names) =
    let rest = reference_parts names in
    if is_empty name then rest else (codes "tool_reference: " ++ name) ∷ rest

unfoldable pub nested_parts : List Nested → List Text
nested_parts [] = []
nested_parts (b ∷ bs) =
    (if is_text b.type then b.text ∷ [] else reference_parts b.tool_references) ++ nested_parts bs

unfoldable pub extract_tool_result_content_text : ContentBlock → Text
extract_tool_result_content_text b = elim b.content [
  | NestedContent.plain t ↦ t
  | NestedContent.blocks bs ↦ join newline (nested_parts bs)
]

-- A `var newBlocks []ContentBlock` that nothing was appended to is nil.
abbrev pub of_blocks : List ContentBlock → MessageContent
of_blocks [] = MessageContent.plain []
of_blocks (b ∷ bs) = MessageContent.blocks (b ∷ bs)

unfoldable pub tool_result_text : ContentBlock → ContentBlock
tool_result_text b = text_block (
    codes "[Tool Result ("
    ++ (b.tool_use_id ++ (codes ")]" ++ (newline ++ extract_tool_result_content_text b))))

-- normalizeRoles
unfoldable pub normalize_role : Message → Message
normalize_role m = elim m.role [
  | Role.user ↦ m
  | Role.assistant ↦ m
  | Role.other t ↦ record m { role = Role.user }
]

unfoldable pub normalize_roles : List Message → List Message
normalize_roles = map normalize_role

-- isPlainTextContent
unfoldable pub only_text : List ContentBlock → Bool
only_text [] = true
only_text (b ∷ bs) = is_text b.type && only_text bs

unfoldable pub is_plain_text_content : MessageContent → Bool
is_plain_text_content (MessageContent.plain t) = true
is_plain_text_content (MessageContent.blocks bs) = only_text bs

-- mergeAdjacentSameRole: `first` begins a run, and `run` holds the texts of the messages that follow
-- it there.
unfoldable pub close_run : Message → List Text → Message
close_run first [] = first
close_run first (t ∷ run) = record {
  role = first.role;
  content = MessageContent.plain (join newline (extract_text_content first.content ∷ t ∷ run));
}

unfoldable pub merge_run : Message → List Text → List Message → List Message
merge_run first run [] = close_run first run ∷ []
merge_run first run (m ∷ msgs) =
    let longer = merge_run first (run ++ (extract_text_content m.content ∷ [])) msgs in
    let next = merge_run m [] msgs in
    if is_plain_text_content first.content
      && same_role m.role first.role
      && is_plain_text_content m.content
    then longer
    else close_run first run ∷ next

unfoldable pub merge_adjacent_same_role : List Message → List Message
merge_adjacent_same_role [] = []
merge_adjacent_same_role (m ∷ msgs) = merge_run m [] msgs

abbrev pub synthetic : Role → Message
synthetic r = record { role = r; content = MessageContent.plain (codes "(empty)") }

-- ensureStartsWithUser
unfoldable pub ensure_starts_with_user : List Message → List Message
ensure_starts_with_user [] = []
ensure_starts_with_user (m ∷ msgs) =
    if same_role m.role Role.user then m ∷ msgs else synthetic Role.user ∷ m ∷ msgs

-- ensureAlternatingRoles
abbrev pub opposite_role : Role → Role
opposite_role Role.assistant = Role.user
opposite_role _ = Role.assistant

unfoldable pub alternate_after : Role → List Message → List Message
alternate_after last [] = []
alternate_after last (m ∷ msgs) =
    let rest = m ∷ alternate_after m.role msgs in
    if same_role m.role last then synthetic (opposite_role m.role) ∷ rest else rest

unfoldable pub ensure_alternating_roles : List Message → List Message
ensure_alternating_roles [] = []
ensure_alternating_roles (m ∷ msgs) = m ∷ alternate_after m.role msgs

-- `marshal` is json.Marshal of a tool's input.
module _ (marshal : String → Text) where
  -- textualizeAllToolContent
  unfoldable pub textualize_block : ContentBlock → ContentBlock
  textualize_block b =
      if is_tool_use b
      then text_block (
          codes "[Tool: "
          ++ (b.name ++ (codes " (" ++ (b.id ++ (codes ")]" ++ (newline ++ marshal b.input))))))
      else if is_tool_result b
      then tool_result_text b
      else b

  unfoldable pub textualize_content : MessageContent → MessageContent
  textualize_content (MessageContent.plain t) = MessageContent.plain t
  textualize_content (MessageContent.blocks bs) = of_blocks (map textualize_block bs)

  unfoldable pub textualize_message : Message → Message
  textualize_message m = record m { content = textualize_content m.content }

  unfoldable pub textualize_all_tool_content : List Message → List Message
  textualize_all_tool_content = map textualize_message

  -- textualizeOrphanToolResults
  unfoldable pub has_tool_use_id : Text → List ContentBlock → Bool
  has_tool_use_id id [] = false
  has_tool_use_id id (b ∷ bs) =
      let rest = has_tool_use_id id bs in if is_tool_use b && text_eq b.id id then true else rest

  abbrev pub blocks_of : MessageContent → List ContentBlock
  blocks_of (MessageContent.plain t) = []
  blocks_of (MessageContent.blocks bs) = bs

  -- The blocks of the message before, if it is the assistant's.
  abbrev pub assistant_blocks : Option Message → List ContentBlock
  assistant_blocks none = []
  assistant_blocks (some m) = if same_role m.role Role.assistant then blocks_of m.content else []

  unfoldable pub textualize_orphan : List ContentBlock → ContentBlock → ContentBlock
  textualize_orphan calls b =
      if is_tool_result b && not (has_tool_use_id b.tool_use_id calls)
      then tool_result_text b
      else b

  unfoldable pub textualize_orphans_of : Option Message → Message → Message
  textualize_orphans_of before m = elim m.content [
    | MessageContent.plain t ↦ m
    | MessageContent.blocks bs ↦
        if same_role m.role Role.user
        then record m { content = of_blocks (map (textualize_orphan (assistant_blocks before)) bs) }
        else m
  ]

  unfoldable pub textualize_orphans_after : Option Message → List Message → List Message
  textualize_orphans_after before [] = []
  textualize_orphans_after before (m ∷ msgs) =
      textualize_orphans_of before m ∷ textualize_orphans_after (some m) msgs

  -- textualizeToolContent
  unfoldable pub textualize_tool_content : List Message → Bool → List Message
  textualize_tool_content msgs has_tools =
      if has_tools then textualize_orphans_after none msgs else textualize_all_tool_content msgs

  -- Normalize
  unfoldable pub normalize : List Message → Bool → List Message
  normalize msgs has_tools = ensure_alternating_roles (
      ensure_starts_with_user (
        merge_adjacent_same_role
          (normalize_roles (textualize_tool_content (expand_server_tool_results msgs) has_tools))))
