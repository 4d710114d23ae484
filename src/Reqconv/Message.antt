-- ===== src/Reqconv/Message.antt =====
-- internal/anthropic/types.go: messages and their content. A block nested in a tool result is what
-- the conversion reads of it; `redacted` is the field Data of a block of redacted thinking. A tool's input and what no conversion looks into are kept as they are.
use claude_code_kiro_models.Prelude.{
  Bool, true, false, List, [], Option, none, String, Text, text_eq,
}

pub data Role : Type 0 where
  user assistant : Role
  other : Text → Role

-- ContentBlock.Type; `unknown` is any string that is no constant of the package.
pub data BlockKind : Type 0 where
  text thinking redacted_thinking tool_use server_tool_use tool_result : BlockKind
  tool_search_tool_result tool_search_search_result tool_search_result_error : BlockKind
  advisor_tool_result advisor_result advisor_redacted_result advisor_result_error : BlockKind
  image tool_reference : BlockKind
  unknown : Text → BlockKind

pub record ImageSource : Type 0 where
  pub type : Text
  pub media_type : Text
  pub bytes : Text

pub record Nested : Type 0 where
  pub type : BlockKind
  pub text : Text
  pub source : Option ImageSource
  pub error_code : Text
  pub tool_references : List Text

pub data NestedContent : Type 0 where
  plain : Text → NestedContent
  blocks : List Nested → NestedContent

pub record ContentBlock : Type 0 where
  pub type : BlockKind
  pub text : Text
  pub id : Text
  pub name : Text
  pub tool_name : Text
  pub input : String
  pub tool_use_id : Text
  pub content : NestedContent
  pub is_error : Bool
  pub source : Option ImageSource
  pub redacted : Text
  pub opaque_fields : String

-- MessageContent: Blocks is nil, or not.
pub data MessageContent : Type 0 where
  plain : Text → MessageContent
  blocks : List ContentBlock → MessageContent

pub record Message : Type 0 where
  pub role : Role
  pub content : MessageContent

-- A block of the type with no other field set.
abbrev pub block : BlockKind → ContentBlock
block t = record {
  type = t;
  text = [];
  id = [];
  name = [];
  tool_name = [];
  input = "";
  tool_use_id = [];
  content = NestedContent.plain [];
  is_error = false;
  source = none;
  redacted = [];
  opaque_fields = "";
}

abbrev pub text_block : Text → ContentBlock
text_block t = record (block BlockKind.text) { text = t }

abbrev pub is_text : BlockKind → Bool
is_text BlockKind.text = true
is_text _ = false

-- IsToolUse
unfoldable pub is_tool_use : ContentBlock → Bool
is_tool_use b = elim b.type [
  | BlockKind.tool_use ↦ true
  | BlockKind.server_tool_use ↦ true
  | _ ↦ false
]

-- IsToolResult
unfoldable pub is_tool_result : ContentBlock → Bool
is_tool_result b = elim b.type [
  | BlockKind.tool_result ↦ true
  | BlockKind.tool_search_tool_result ↦ true
  | _ ↦ false
]

-- IsServerToolResult
unfoldable pub is_server_tool_result : ContentBlock → Bool
is_server_tool_result b = elim b.type [
  | BlockKind.tool_search_tool_result ↦ true
  | BlockKind.advisor_tool_result ↦ true
  | _ ↦ false
]

-- `==` on roles
unfoldable pub same_role : Role → Role → Bool
same_role Role.user Role.user = true
same_role Role.assistant Role.assistant = true
same_role (Role.other a) (Role.other b) = text_eq a b
same_role _ _ = false
