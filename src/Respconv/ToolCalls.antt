-- ===== src/Respconv/ToolCalls.antt =====
-- internal/respconv/tool_calls.go: DeduplicateToolCalls.
pub mod Longest
pub mod Distinct
use text.Mathlib.Text.{◌==◌ as str_eq}
use claude_code_kiro_models.Prelude.{
  ℕ, suc, ◌+◌, Bool, true, false, ◌&&◌, List, [], ◌∷◌, String, Text, if◌then◌else◌, ltb, leb,
  length, text_eq,
}
use claude_code_kiro_models.Respconv.State.{ToolCall}

-- `len` of a string is its length in UTF-8.
unfoldable pub rune_len : ℕ → ℕ
rune_len r = if ltb r 128 then 1 else if ltb r 2048 then 2 else if ltb r 65536 then 3 else 4

unfoldable pub byte_length : Text → ℕ
byte_length [] = 0
byte_length (r ∷ s) = rune_len r + byte_length s

-- byID and order are one list: the call that is kept for each id, in the order of the ids.
unfoldable pub longer_of : ToolCall → ToolCall → ToolCall
longer_of existing c =
    if ltb (byte_length existing.input) (byte_length c.input) then c else existing

unfoldable pub keep_longest : List ToolCall → ToolCall → List ToolCall
keep_longest [] c = c ∷ []
keep_longest (x ∷ xs) c =
    let rest = keep_longest xs c in if str_eq x.id c.id then longer_of x c ∷ xs else x ∷ rest

unfoldable pub dedupe_by_id : List ToolCall → List ToolCall → List ToolCall
dedupe_by_id kept [] = kept
dedupe_by_id kept (c ∷ cs) = dedupe_by_id (keep_longest kept c) cs

abbrev pub same_key : String × Text → String × Text → Bool
same_key k l = str_eq k.0 l.0 && text_eq k.1 l.1

-- `normalize` stands for normalizeJSON, the JSON library's decoder and encoder.
module _ (normalize : Text → Text) where
  abbrev pub key : ToolCall → String × Text
  key c = (c.name, normalize c.input)

  unfoldable pub is_seen : String × Text → List (String × Text) → Bool
  is_seen k [] = false
  is_seen k (l ∷ seen) = if same_key l k then true else is_seen k seen

  unfoldable pub dedupe_by_key : List (String × Text) → List ToolCall → List ToolCall
  dedupe_by_key seen [] = []
  dedupe_by_key seen (c ∷ cs) =
      let skipped = dedupe_by_key seen cs in
      let kept = dedupe_by_key (key c ∷ seen) cs in
      if is_seen (key c) seen then skipped else c ∷ kept

  -- DeduplicateToolCalls
  unfoldable pub deduplicate_tool_calls : List ToolCall → List ToolCall
  deduplicate_tool_calls calls =
      if leb (length calls) 1 then calls else dedupe_by_key [] (dedupe_by_id [] calls)
