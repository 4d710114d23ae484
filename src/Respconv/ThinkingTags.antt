-- ===== src/Respconv/ThinkingTags.antt =====
-- internal/respconv/thinking_tags.go: `<thinking>` tags in a stream of text chunks.
pub mod Rounds
pub mod Scan
pub mod Found
pub mod Chunks
use claude_code_kiro_models.Prelude.{
  ℕ, zero, suc, ◌+◌, ◌-◌, min, Bool, true, false, not, ◌&&◌, List, [], ◌∷◌, ◌++◌, Option, none,
  some, ltb, if◌then◌else◌, Text, codes, text_eq, index, contains_rune, length, is_empty, take,
  drop,
}

unfoldable pub thinking_open_tag : Text
thinking_open_tag = codes "<thinking>"

unfoldable pub thinking_close_tag : Text
thinking_close_tag = codes "</thinking>"

-- The parser's part of responseAccumulator.
pub record TagState : Type 0 where
  pub inside : Bool
  pub buf : Text
  pub suppress : Bool

-- The state after a chunk, and what the chunk sends to the text and to the thinking buffer.
pub record Routed : Type 0 where
  pub state : TagState
  pub text_out : Text
  pub thinking_out : Text

-- `for n := maxLen; n > 0; n--` in partialTagSuffix
unfoldable pub suffix_from : ℕ → Text → Text → ℕ
suffix_from zero s tag = 0
suffix_from (suc n) s tag =
    let rest = suffix_from n s tag in
    if text_eq (drop (length s - suc n) s) (take (suc n) tag) then suc n else rest

unfoldable pub partial_tag_suffix : Text → Text → ℕ
partial_tag_suffix s tag = suffix_from (min (length tag - 1) (length s)) s tag

-- No tag in the buffer: what is sent on, and the possible start of a tag that is kept.
unfoldable pub hold : Text → Text → Text × Text
hold buf tag =
    let keep = partial_tag_suffix buf tag in
    if ltb 0 keep then (take (length buf - keep) buf, drop (length buf - keep) buf) else (buf, [])

-- WriteString on the two builders, before what the rest of the loop writes.
abbrev pub write_text : Text → Routed → Routed
write_text t r = record r { text_out = t ++ r.text_out }

abbrev pub write_thinking : Text → Routed → Routed
write_thinking t r = record r { thinking_out = t ++ r.thinking_out }

-- The loop of parseThinkingTags. Each round but the last takes a tag off the buffer.
unfoldable pub tag_loop : ℕ → TagState → Routed
tag_loop zero s = record { state = s; text_out = []; thinking_out = [] }
tag_loop (suc fuel) s = elim (is_empty s.buf) [
  | true ↦ record { state = s; text_out = []; thinking_out = [] }
  | false ↦ elim s.inside [
    | true ↦ elim (index thinking_close_tag s.buf) [
      | some idx ↦ write_thinking (take idx s.buf) (
          tag_loop fuel
            (record s { buf = drop (idx + length thinking_close_tag) s.buf; inside = false }))
      | none ↦
          let (out, kept) = hold s.buf thinking_close_tag in
          record { state = record s { buf = kept }; text_out = []; thinking_out = out }
    ]
    | false ↦ elim (index thinking_open_tag s.buf) [
      | some idx ↦ write_text (take idx s.buf) (
          tag_loop fuel (record s {
            buf = drop (idx + length thinking_open_tag) s.buf;
            inside = true;
            suppress = true;
          }))
      | none ↦
          let (out, kept) = hold s.buf thinking_open_tag in
          record { state = record s { buf = kept }; text_out = out; thinking_out = [] }
    ]
  ]
]

-- parseThinkingTags
unfoldable pub parse_thinking_tags : TagState → Text → Routed
parse_thinking_tags s delta =
    if is_empty s.buf && not s.inside && not (contains_rune b'<' delta)
    then record { state = s; text_out = delta; thinking_out = [] }
    else let buf = s.buf ++ delta in tag_loop (suc (length buf)) (record s { buf = buf })

-- finalizeThinkingTags
unfoldable pub finalize_thinking_tags : TagState → Routed
finalize_thinking_tags s =
    if is_empty s.buf
    then record { state = s; text_out = []; thinking_out = [] }
    else if s.inside
    then record { state = record s { buf = [] }; text_out = []; thinking_out = s.buf }
    else record { state = record s { buf = [] }; text_out = s.buf; thinking_out = [] }
