-- ===== src/Reqconv/Normalizer/Roles.antt =====
-- The roles of a normalized conversation.
use claude_code_kiro_models.Prelude.{
  Bool, true, false, List, [], ◌∷◌, ◌++◌, String, Text, All, ◌≡◌, ◌⊎◌, refl, arith, if-intro, ap,
  sym, subst, ◌∙◌, ◌&&◌, inl, inr,
}
use claude_code_kiro_models.Reqconv.Message.{Role, Message, same_role, other}
use claude_code_kiro_models.Reqconv.Normalizer.{
  normalize, normalize_role, extract_text_content, is_plain_text_content, normalize_roles,
  merge_run, close_run, merge_adjacent_same_role, ensure_starts_with_user, alternate_after,
  ensure_alternating_roles, opposite_role, textualize_tool_content,
}
use claude_code_kiro_models.Reqconv.ServerTools.{expand_server_tool_results}

-- The roles that Kiro's history knows.
abbrev pub IsStandard : Role → Type 0
IsStandard (other t) = ⊥
IsStandard _ = Unit

-- The role is due, and then the two take turns.
abbrev pub Alternates : Role → List Message → Type 0
Alternates due [] = Unit
Alternates due (m ∷ msgs) = (m.role ≡ due) × Alternates (opposite_role due) msgs

abbrev AreStandard : List Message → Type 0
AreStandard = All (λ m. IsStandard m.role)

normalize_role-IsStandard : (m : Message) → IsStandard (normalize_role m).role
unfolding normalize_role
normalize_role-IsStandard m = ground arith

normalize_roles-AreStandard : (msgs : List Message) → AreStandard (normalize_roles msgs)
unfolding normalize_roles
normalize_roles-AreStandard [] = tt
normalize_roles-AreStandard (m ∷ msgs) =
    (normalize_role-IsStandard m, normalize_roles-AreStandard msgs)

close_run-role :
    (m : Message) (run : List Text) → IsStandard m.role → IsStandard (close_run m run).role
unfolding close_run
close_run-role m [] h = h
close_run-role m (t ∷ run) h = h

merge_run-AreStandard :
    (first : Message) (run : List Text) (msgs : List Message)
    → IsStandard first.role
    → AreStandard msgs
    → AreStandard (merge_run first run msgs)
unfolding merge_run
merge_run-AreStandard first run [] h hs = (close_run-role first run h, tt)
merge_run-AreStandard first run (m ∷ msgs) h (h', hs) =
    let longer = run ++ (extract_text_content m.content ∷ []) in
    if-intro AreStandard
      (is_plain_text_content first.content
        && same_role m.role first.role
        && is_plain_text_content m.content)
      {y = close_run first run ∷ merge_run m [] msgs}
      (λ _. merge_run-AreStandard first longer msgs h hs)
      (λ _. (close_run-role first run h, merge_run-AreStandard m [] msgs h' hs))

merge_adjacent_same_role-AreStandard :
    (msgs : List Message) → AreStandard msgs → AreStandard (merge_adjacent_same_role msgs)
unfolding merge_adjacent_same_role
merge_adjacent_same_role-AreStandard [] h = tt
merge_adjacent_same_role-AreStandard (m ∷ msgs) (h, hs) = merge_run-AreStandard m [] msgs h hs

-- A standard role is the last one, or its opposite.
next_role :
    (last r : Role)
    → IsStandard last
    → IsStandard r
    → ((same_role r last ≡ true) × (r ≡ last))
      ⊎ ((same_role r last ≡ false) × (r ≡ opposite_role last))
unfolding same_role
next_role last r h h' = ground arith

opposite_twice : (r : Role) → IsStandard r → opposite_role (opposite_role r) ≡ r
opposite_twice r h = ground arith

alternate_after-Alternates :
    (last : Role) (msgs : List Message)
    → IsStandard last
    → AreStandard msgs
    → Alternates (opposite_role last) (alternate_after last msgs)
unfolding alternate_after
alternate_after-Alternates last [] h hs = tt
alternate_after-Alternates last (m ∷ msgs) h (h', hs) =
    let later = alternate_after-Alternates m.role msgs h' hs in
    elim (next_role last m.role h h') [
      | inl (test, same) ↦ rw test (
        ap opposite_role same,
        (
          same ∙ sym (opposite_twice last h),
          subst (λ r. Alternates r (alternate_after m.role msgs))
              (ap opposite_role (same ∙ sym (opposite_twice last h))) later,
        ),
      )
      | inr (test, opposite) ↦ rw test (
        opposite,
        subst (λ r. Alternates r (alternate_after m.role msgs)) (ap opposite_role opposite) later,
      )
    ]

same_role→user : (r : Role) → IsStandard r → same_role r Role.user ≡ true → r ≡ Role.user
unfolding same_role
same_role→user r h h' = ground arith

ensure_starts_with_user-first :
    (msgs : List Message)
    → AreStandard msgs
    → Alternates Role.user (ensure_alternating_roles (ensure_starts_with_user msgs))
unfolding ensure_starts_with_user ensure_alternating_roles same_role
ensure_starts_with_user-first [] h = tt
ensure_starts_with_user-first (m ∷ msgs) (h, hs) =
    if-intro (λ xs. Alternates Role.user (ensure_alternating_roles xs)) (same_role m.role Role.user)
      (λ is_user.
        let role = same_role→user m.role h is_user in
        (
          role,
          subst (λ r. Alternates r (alternate_after m.role msgs)) (ap opposite_role role)
              (alternate_after-Alternates m.role msgs h hs),
        ))
      (λ _. (refl, alternate_after-Alternates Role.user (m ∷ msgs) tt (h, hs)))

-- Whatever the conversation, with tools or without: the normalized one is empty or starts with the
-- user, and from there user and assistant take turns, with no other role.
pub normalize-Alternates :
    (marshal : String → Text) (msgs : List Message) (has_tools : Bool)
    → Alternates Role.user (normalize marshal msgs has_tools)
unfolding normalize
normalize-Alternates marshal msgs has_tools = ensure_starts_with_user-first _ (
    merge_adjacent_same_role-AreStandard _ (
      normalize_roles-AreStandard
        (textualize_tool_content marshal (expand_server_tool_results msgs) has_tools)))
