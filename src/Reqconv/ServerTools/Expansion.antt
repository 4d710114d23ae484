-- ===== src/Reqconv/ServerTools/Expansion.antt =====
-- The blocks of an expanded message.
use claude_code_kiro_models.Prelude.{List, [], ◌∷◌, ◌++◌, map, if◌then◌else◌}
use claude_code_kiro_models.Reqconv.Message.{
  Role, Message, MessageContent, ContentBlock, is_server_tool_result, same_role,
}
use claude_code_kiro_models.Reqconv.ServerTools.{replayed_result}

-- The blocks of the messages, in order.
abbrev pub content_blocks : MessageContent → List ContentBlock
content_blocks (MessageContent.plain t) = []
content_blocks (MessageContent.blocks bs) = bs

abbrev pub all_blocks : List Message → List ContentBlock
all_blocks [] = []
all_blocks (m ∷ msgs) = content_blocks m.content ++ all_blocks msgs

-- A server tool's result becomes a tool_result; every other block stays as it is.
abbrev pub replay : ContentBlock → ContentBlock
replay b = if is_server_tool_result b then replayed_result b else b

-- What expansion leaves of a message: the assistant's server tool results are replayed.
abbrev pub replayed_blocks : Message → List ContentBlock
replayed_blocks m =
    if same_role m.role Role.assistant
    then map replay (content_blocks m.content)
    else content_blocks m.content

abbrev pub all_replayed : List Message → List ContentBlock
all_replayed [] = []
all_replayed (m ∷ msgs) = replayed_blocks m ++ all_replayed msgs
