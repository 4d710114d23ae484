-- ===== src/Tests/Requests.antt =====
-- A conversation with a server tool round, an unknown role and two user messages in a row.
use claude_code_kiro_models.Prelude.{true, List, [], ◌∷◌, String, Text, codes}
use claude_code_kiro_models.Reqconv.Message.{
  Role, BlockKind, NestedContent, Message, MessageContent, block, text_block,
}
use claude_code_kiro_models.Reqconv.Normalizer.Roles.{Alternates, normalize-Alternates}
use claude_code_kiro_models.Reqconv.Normalizer.{normalize}

abbrev plain_message : Role → String → Message
plain_message r t = record { role = r; content = MessageContent.plain (codes t) }

abbrev advised : Message
advised = record {
  role = Role.assistant;
  content = MessageContent.blocks (
      text_block (codes "let me ask")
      ∷ record (block BlockKind.server_tool_use) { id = codes "s1"; name = codes "advisor" }
      ∷ record (block BlockKind.advisor_tool_result) {
        tool_use_id = codes "s1";
        content = NestedContent.plain (codes "do it");
      }
      ∷ text_block (codes "done")
      ∷ []);
}

abbrev conversation : List Message
conversation =
    plain_message (Role.other (codes "developer")) "rules"
    ∷ plain_message Role.user "hello"
    ∷ advised
    ∷ plain_message Role.user "more"
    ∷ plain_message Role.user "and more"
    ∷ []

abbrev no_input : String → Text
no_input input = codes "{}"

normalize-Alternates_example : Alternates Role.user (normalize no_input conversation true)
normalize-Alternates_example = normalize-Alternates no_input conversation true
