-- ===== src/Reqconv/Payload/Said.antt =====
-- What the user's turns of a payload say.
use claude_code_kiro_models.Prelude.{
  true, false, not, ◌&&◌, ◌||◌, List, [], ◌∷◌, ◌++◌, Option, none, some, String, Text, ◌≡◌, refl,
  sym, subst, if◌then◌else◌, if-intro, arith, is_empty, text_eq, Bool-cases, inl, inr, Option-cases,
  All, true≢false, ltb, length,
}
use claude_code_kiro_models.Reqconv.Content.{scan_message_content}
use claude_code_kiro_models.Reqconv.History.{
  HistoryEntry, history_after, build_history, user_turn, shorten_uses, extract_tool_uses,
  call_ids_before, synthetic_empty,
}
use claude_code_kiro_models.Reqconv.Message.{Message}
use claude_code_kiro_models.Reqconv.Normalizer.{extract_text_content}
use claude_code_kiro_models.Reqconv.Payload.{
  place_system_prompt, build_with, split_messages, preceding_ids, last_message, result_ids,
  extract_system_prompt, synthetic_continue, build_current_message, Request, BuildOptions,
}
use claude_code_kiro_models.Reqconv.Normalizer.{normalize}
use claude_code_kiro_models.Reqconv.Payload.Turns.{
  user_step, assistant_step, other_step, role_cases,
}
use claude_code_kiro_models.Reqconv.ToolNames.{ToolNameMap}
use claude_code_kiro_models.Reqconv.ToolResults.{
  ToolResult, last_with, append_found, by_id, is_used, unused, reorder_tool_results,
}
use claude_code_kiro_models.Reqconv.Tools.{ToolEntry}

-- There is a text or a tool result.
abbrev pub IsSaid : Text → List ToolResult → Type 0
IsSaid content results = (is_empty content && is_empty results) ≡ false

abbrev pub IsSaidEntry : HistoryEntry → Type 0
IsSaidEntry (HistoryEntry.user_input t) = IsSaid t.content t.tool_results
IsSaidEntry (HistoryEntry.assistant_response t) = Unit

append_right :
    (xs : List ToolResult) (y : ToolResult) (ys : List ToolResult)
    → is_empty (xs ++ (y ∷ ys)) ≡ false
append_right [] y ys = refl
append_right (x ∷ xs) y ys = refl

append_left : (xs ys : List ToolResult) → is_empty xs ≡ false → is_empty (xs ++ ys) ≡ false
append_left [] ys h = absurd (true≢false h)
append_left (x ∷ xs) ys h = refl

append_found-is_empty :
    (o : Option ToolResult) (rs : List ToolResult)
    → is_empty rs ≡ false
    → is_empty (append_found o rs) ≡ false
append_found-is_empty none rs h = h
append_found-is_empty (some r) rs h = refl

last_with-first :
    (r : ToolResult) (rs : List ToolResult) (id : Text) (found : List ToolResult)
    → text_eq r.tool_use_id id ≡ true
    → is_empty (append_found (last_with id (r ∷ rs)) found) ≡ false
unfolding last_with
last_with-first r rs id found h = elim (Option-cases (last_with id rs)) [
  | inl missing ↦ rw missing (rw h refl)
  | inr (q, later) ↦ rw later refl
]

by_id-is_empty :
    (r : ToolResult) (rs : List ToolResult) (ids : List Text)
    → is_used r.tool_use_id ids ≡ true
    → is_empty (by_id (r ∷ rs) ids) ≡ false
unfolding by_id is_used
by_id-is_empty r rs [] h = absurd (true≢false (sym h))
by_id-is_empty r rs (id ∷ ids) h = elim (Bool-cases (text_eq r.tool_use_id id)) [
  | inl same ↦ last_with-first r rs id (by_id (r ∷ rs) ids) same
  | inr other ↦
      append_found-is_empty (last_with id (r ∷ rs)) (by_id (r ∷ rs) ids)
        (by_id-is_empty r rs ids (ground (arith, h, other)))
]

reordered-is_empty :
    (r : ToolResult) (rs : List ToolResult) (ids : List Text)
    → is_empty (by_id (r ∷ rs) ids ++ unused ids (r ∷ rs)) ≡ false
unfolding unused
reordered-is_empty r rs ids = elim (Bool-cases (is_used r.tool_use_id ids)) [
  | inl used ↦ append_left (by_id (r ∷ rs) ids) _ (by_id-is_empty r rs ids used)
  | inr free ↦ rw free (append_right (by_id (r ∷ rs) ids) r (unused ids rs))
]

reorder_tool_results-is_empty :
    (rs : List ToolResult) (ids : List Text) → is_empty (reorder_tool_results rs ids) ≡ is_empty rs
unfolding reorder_tool_results
reorder_tool_results-is_empty [] ids = refl
reorder_tool_results-is_empty (r ∷ rs) ids =
    if-intro (λ (xs : List ToolResult). is_empty xs ≡ false)
      (ltb (length (r ∷ rs)) 2 || is_empty ids) (λ _. refl) (λ _. reordered-is_empty r rs ids)

filled :
    (content by : Text) (rs : List ToolResult) (ids : List Text)
    → is_empty by ≡ false
    → IsSaid (if is_empty content && is_empty rs then by else content) (reorder_tool_results rs ids)
filled content by rs ids h = ground (arith, h, reorder_tool_results-is_empty rs ids)

current-IsSaid :
    (content : Text) (rs : List ToolResult)
    → IsSaid (if is_empty content && is_empty rs then synthetic_continue else content) rs
current-IsSaid content rs = ground arith

user_turn-IsSaid :
    (before : Option Message) (m : Message)
    → IsSaidEntry (HistoryEntry.user_input (user_turn before m))
unfolding user_turn
user_turn-IsSaid before m =
    filled (extract_text_content m.content) synthetic_empty (scan_message_content m.content).0
      (call_ids_before before) refl

module _ (hex_digest uuid : Text → Text) where
  history_after-IsSaid :
      (ids : List Text) (names : ToolNameMap) (before : Option Message) (msgs : List Message)
      → All IsSaidEntry (history_after hex_digest uuid ids names before msgs).1
  unfolding history_after
  history_after-IsSaid ids names before [] = tt
  history_after-IsSaid ids names before (m ∷ msgs) =
      let uses = shorten_uses hex_digest uuid names (extract_tool_uses m.content) in
      let said = history_after-IsSaid ids names (some m) msgs in
      let answered = history_after-IsSaid ids uses.0 (some m) msgs in
      elim (role_cases m.role) [
        | inl asks ↦
            subst (All IsSaidEntry) (sym (user_step hex_digest uuid ids names before m msgs asks))
              (user_turn-IsSaid before m, said)
        | inr (inl answers) ↦
            subst (All IsSaidEntry)
              (sym (assistant_step hex_digest uuid ids names before m msgs answers)) (tt, answered)
        | inr (inr other) ↦
            subst (All IsSaidEntry)
              (sym (other_step hex_digest uuid ids names before m msgs other.1)) said
      ]

-- No turn of the user is empty, whether it is the system prompt or of the conversation, and the
-- current message is not.
pub build_with-IsSaid :
    (marshal : String → Text) (hex_digest uuid : Text → Text)
    (parse_env_state : Text → Option String)
    → (req : Request) (options : BuildOptions) (names : ToolNameMap) (tools : List ToolEntry)
    → let p = (build_with marshal hex_digest uuid parse_env_state req options names tools).0 in
      All IsSaidEntry p.history × IsSaid p.current.content p.current.tool_results
unfolding build_with build_history build_current_message place_system_prompt
build_with-IsSaid marshal hex_digest uuid parse_env_state req options names tools =
    let prompt = extract_system_prompt req.system in
    let split = split_messages (normalize marshal req.messages (not (is_empty tools))) in
    let scanned = scan_message_content split.1.content in
    let ids = preceding_ids (last_message split.0) in
    let said = history_after-IsSaid hex_digest uuid (result_ids scanned.0) names none split.0 in
    (
      if-intro (All IsSaidEntry) (is_empty prompt) (λ _. said)
          (λ some_prompt. (ground (arith, some_prompt), (tt, said))),
      current-IsSaid (extract_text_content split.1.content) (reorder_tool_results scanned.0 ids),
    )
