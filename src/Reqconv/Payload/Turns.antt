-- ===== src/Reqconv/Payload/Turns.antt =====
-- Whose turn each entry of the history is.
use claude_code_kiro_models.Prelude.{
  inr, inl, ◌⊎◌, true, false, not, List, [], ◌∷◌, Option, none, some, String, Text, ◌≡◌, refl, sym,
  subst, if-intro, arith, is_empty,
}
use claude_code_kiro_models.Reqconv.Content.{scan_message_content}
use claude_code_kiro_models.Reqconv.History.{
  HistoryEntry, history_after, build_history, user_turn, assistant_turn, shorten_uses,
  extract_tool_uses,
}
use claude_code_kiro_models.Reqconv.Message.{Role, Message, same_role}
use claude_code_kiro_models.Reqconv.Normalizer.Roles.{Alternates, IsStandard, normalize-Alternates}
use claude_code_kiro_models.Reqconv.Normalizer.{normalize, opposite_role}
use claude_code_kiro_models.Reqconv.Payload.{
  split_from, split_messages, place_system_prompt, build_with, result_ids, Request, BuildOptions,
  extract_system_prompt,
}
use claude_code_kiro_models.Reqconv.ToolNames.{ToolNameMap}
use claude_code_kiro_models.Reqconv.Tools.{ToolEntry}

-- From the role that is due on, user and assistant take turns, up to a turn of the assistant.
abbrev Pairs : Role → List Message → Type 0
Pairs due [] = due ≡ Role.user
Pairs due (m ∷ msgs) = (m.role ≡ due) × Pairs (opposite_role due) msgs

abbrev pub role_of : HistoryEntry → Role
role_of (HistoryEntry.user_input t) = Role.user
role_of (HistoryEntry.assistant_response t) = Role.assistant

abbrev pub TakesTurns : Role → List HistoryEntry → Type 0
TakesTurns due [] = due ≡ Role.user
TakesTurns due (e ∷ es) = (role_of e ≡ due) × TakesTurns (opposite_role due) es

last_user :
    (due r : Role) → IsStandard due → r ≡ due → same_role r Role.assistant ≡ false → due ≡ Role.user
unfolding same_role
last_user due r h e n = ground arith

last_assistant :
    (due r : Role) → r ≡ due → same_role r Role.assistant ≡ true → opposite_role due ≡ Role.user
unfolding same_role
last_assistant due r e t = ground arith

opposite-IsStandard : (r : Role) → IsStandard r → IsStandard (opposite_role r)
opposite-IsStandard r h = ground arith

split_from-Pairs :
    (due : Role) (m : Message) (msgs : List Message)
    → IsStandard due
    → Alternates due (m ∷ msgs)
    → Pairs due (split_from m msgs).0
unfolding split_from
split_from-Pairs due m [] h (e, _) =
    if-intro (λ (r : List Message × Message). Pairs due r.0) (same_role m.role Role.assistant)
      (λ t. (e, last_assistant due m.role e t)) (λ f. last_user due m.role h e f)
split_from-Pairs due m (n ∷ msgs) h (e, rest) =
    (e, split_from-Pairs (opposite_role due) n msgs (opposite-IsStandard due h) rest)

split_messages-Pairs :
    (msgs : List Message) → Alternates Role.user msgs → Pairs Role.user (split_messages msgs).0
unfolding split_messages
split_messages-Pairs [] h = refl
split_messages-Pairs (m ∷ msgs) h = split_from-Pairs Role.user m msgs tt h

pub role_cases :
    (r : Role) → (r ≡ Role.user) ⊎ ((r ≡ Role.assistant) ⊎ ((t : Text) × (r ≡ Role.other t)))
role_cases Role.user = inl refl
role_cases Role.assistant = inr (inl refl)
role_cases (Role.other t) = inr (inr (t, refl))

module _ (hex_digest uuid : Text → Text) where
  pub user_step :
      (ids : List Text) (names : ToolNameMap) (before : Option Message) (m : Message)
      → (msgs : List Message) → m.role ≡ Role.user
      → (history_after hex_digest uuid ids names before (m ∷ msgs)).1
        ≡ HistoryEntry.user_input (user_turn before m)
          ∷ (history_after hex_digest uuid ids names (some m) msgs).1
  unfolding history_after
  user_step ids names before m msgs e = ground arith

  pub assistant_step :
      (ids : List Text) (names : ToolNameMap) (before : Option Message) (m : Message)
      → (msgs : List Message) → m.role ≡ Role.assistant
      → (history_after hex_digest uuid ids names before (m ∷ msgs)).1
        ≡ HistoryEntry.assistant_response (
            assistant_turn hex_digest uuid m
              (shorten_uses hex_digest uuid names (extract_tool_uses m.content)).1
              (is_empty msgs)
              ids)
          ∷ (history_after hex_digest uuid ids
              (shorten_uses hex_digest uuid names (extract_tool_uses m.content)).0
              (some m)
              msgs).1
  unfolding history_after
  assistant_step ids names before m msgs e = ground arith

  pub other_step :
      (ids : List Text) (names : ToolNameMap) (before : Option Message) (m : Message)
      → (msgs : List Message) {t : Text} → m.role ≡ Role.other t
      → (history_after hex_digest uuid ids names before (m ∷ msgs)).1
        ≡ (history_after hex_digest uuid ids names (some m) msgs).1
  unfolding history_after
  other_step ids names before m msgs e = ground arith

  history_after-TakesTurns :
      (due : Role) (ids : List Text) (names : ToolNameMap) (before : Option Message)
      → (msgs : List Message) → IsStandard due
      → Pairs due msgs
      → TakesTurns due (history_after hex_digest uuid ids names before msgs).1
  unfolding history_after
  history_after-TakesTurns due ids names before [] h p = p
  history_after-TakesTurns Role.user ids names before (m ∷ msgs) h (e, p) =
      subst (TakesTurns Role.user) (sym (user_step ids names before m msgs e))
        (refl, history_after-TakesTurns Role.assistant ids names (some m) msgs tt p)
  history_after-TakesTurns Role.assistant ids names before (m ∷ msgs) h (e, p) =
      subst (TakesTurns Role.assistant) (sym (assistant_step ids names before m msgs e))
        (refl, history_after-TakesTurns Role.user ids _ (some m) msgs tt p)
  history_after-TakesTurns (Role.other t) ids names before (m ∷ msgs) h p = absurd h

place_system_prompt-TakesTurns :
    (marshal : String → Text) (hex_digest uuid : Text → Text)
    (parse_env_state : Text → Option String)
    → (prompt : Text) (history : List HistoryEntry) → TakesTurns Role.user history
    → TakesTurns Role.user
        (place_system_prompt marshal hex_digest uuid parse_env_state prompt history)
unfolding place_system_prompt
place_system_prompt-TakesTurns marshal hex_digest uuid parse_env_state prompt history h =
    if-intro (TakesTurns Role.user) (is_empty prompt) (λ _. h) (λ _. (refl, (refl, h)))

-- Whatever the request: the history of the payload takes turns from the user to the assistant, with
-- the system prompt's pair in front if there is a prompt, and ends with the assistant, so that the
-- current message, the user's, comes in its turn.
pub build_with-TakesTurns :
    (marshal : String → Text) (hex_digest uuid : Text → Text)
    (parse_env_state : Text → Option String)
    → (req : Request) (options : BuildOptions) (names : ToolNameMap) (tools : List ToolEntry)
    → TakesTurns Role.user
        (build_with marshal hex_digest uuid parse_env_state req options names tools).0.history
unfolding build_with build_history
build_with-TakesTurns marshal hex_digest uuid parse_env_state req options names tools =
    let has_tools = not (is_empty tools) in
    let msgs = normalize marshal req.messages has_tools in
    let split = split_messages msgs in
    place_system_prompt-TakesTurns marshal hex_digest uuid parse_env_state
      (extract_system_prompt req.system) _
      (history_after-TakesTurns hex_digest uuid Role.user
        (result_ids (scan_message_content split.1.content).0) names none split.0 tt
        (split_messages-Pairs msgs (normalize-Alternates marshal req.messages has_tools)))
