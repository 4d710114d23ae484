-- ===== src/Reqconv/Content.antt =====
-- internal/reqconv/content_scan.go: what is taken from a user message besides its text, and the
-- types of internal/kiroproto/types.go that it stands in.
use claude_code_kiro_models.Prelude.{
  ℕ, zero, suc, ◌+◌, ◌/◌, ◌%◌, Bool, true, false, List, [], ◌∷◌, ◌++◌, Option, none, some, Text,
  codes, if◌then◌else◌, is_empty, text_eq, length, ltb, ◌==◌, or_else,
}
use claude_code_kiro_models.Reqconv.Message.{
  BlockKind, ImageSource, Nested, NestedContent, ContentBlock, MessageContent, is_tool_result,
}
use claude_code_kiro_models.Reqconv.Normalizer.{extract_tool_result_content_text, newline}
use claude_code_kiro_models.Reqconv.ToolResults.{ToolResult}

pub record Image : Type 0 where
  pub format : Text
  pub bytes : Text

-- What follows the last `/`.
unfoldable pub after_slash : Text → Option Text
after_slash [] = none
after_slash (r ∷ s) = elim (after_slash s) [
  | some t ↦ some t
  | none ↦ if r == 47 then some s else none
]

-- convertImageBlock
unfoldable pub convert_image_block : Option ImageSource → Option Image
convert_image_block none = none
convert_image_block (some i) =
    if text_eq i.type (codes "base64")
    then some (record { format = or_else (after_slash i.media_type) i.media_type; bytes = i.bytes })
    else none

abbrev pub is_image : BlockKind → Bool
is_image BlockKind.image = true
is_image _ = false

abbrev pub opt_image : Option Image → List Image → List Image
opt_image none images = images
opt_image (some i) images = i ∷ images

-- extractToolResultImages
unfoldable pub nested_images : List Nested → List Image
nested_images [] = []
nested_images (b ∷ bs) =
    let rest = nested_images bs in
    if is_image b.type then opt_image (convert_image_block b.source) rest else rest

unfoldable pub extract_tool_result_images : ContentBlock → List Image
extract_tool_result_images b = elim b.content [
  | NestedContent.plain t ↦ []
  | NestedContent.blocks bs ↦ nested_images bs
]

-- A number in decimal; each turn cuts a digit off, so the number itself is fuel enough.
unfoldable pub decimal : ℕ → ℕ → Text → Text
decimal zero n t = (48 + n % 10) ∷ t
decimal (suc fuel) n t =
    let more = decimal fuel (n / 10) ((48 + n % 10) ∷ t) in if ltb n 10 then (48 + n) ∷ t else more

-- appendImageNotice
unfoldable pub append_image_notice : Text → ℕ → Text
append_image_notice text n =
    let notice =
      codes "["
      ++ (decimal n n [] ++ codes " image(s) from this tool result attached to the message]") in
    if is_empty text then notice else text ++ (newline ++ notice)

-- The text of a tool result, of which `promoted` images are moved to the message.
unfoldable pub result_stdout : ContentBlock → List Image → Text
result_stdout b promoted =
    let text = extract_tool_result_content_text b in
    let noted = if is_empty promoted then text else append_image_notice text (length promoted) in
    if is_empty noted then codes "(empty result)" else noted

abbrev pub result_of : ContentBlock → Text → ToolResult
result_of b stdout = record {
  tool_use_id = b.tool_use_id;
  status = if b.is_error then "error" else "success";
  content =
      record {
        exit_status = if b.is_error then codes "1" else codes "0";
        stdout = stdout;
        stderr = [];
      }
      ∷ [];
}

-- scanMessageContent
unfoldable pub scan_blocks : List ContentBlock → List ToolResult × List Image
scan_blocks [] = ([], [])
scan_blocks (b ∷ bs) =
    let rest = scan_blocks bs in
    let promoted = extract_tool_result_images b in
    if is_tool_result b
    then (result_of b (result_stdout b promoted) ∷ rest.0, promoted ++ rest.1)
    else if is_image b.type
    then (rest.0, opt_image (convert_image_block b.source) rest.1)
    else rest

unfoldable pub scan_message_content : MessageContent → List ToolResult × List Image
scan_message_content (MessageContent.plain t) = ([], [])
scan_message_content (MessageContent.blocks bs) = scan_blocks bs
