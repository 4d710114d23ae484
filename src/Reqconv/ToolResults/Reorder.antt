-- ===== src/Reqconv/ToolResults/Reorder.antt =====
-- Which results ReorderToolResults keeps, and in which order.
use claude_code_kiro_models.Prelude.{
  true, false, ◌||◌, List, [], ◌∷◌, ◌++◌, Option, none, some, Text, text_eq, text_eq→eq,
  text_eq_refl, ltb, length, is_empty, if◌then◌else◌, if-intro, ◌≡◌, ◌≢◌, inl, inr, refl, sym, ap,
  ◌∙◌, subst, InList, All, Bool-cases, Option-cases, arith, true≢false, ◌<◌,
}
use claude_code_kiro_models.Reqconv.ToolResults.{
  append_found, ToolResult, last_with, by_id, is_used, unused, reorder_tool_results,
}

-- No two results have the same id.
abbrev pub AreDistinct : List ToolResult → Type 0
AreDistinct [] = Unit
AreDistinct (r ∷ results) = All (λ s. s.tool_use_id ≢ r.tool_use_id) results × AreDistinct results

text_eq_other : (s t : Text) → s ≢ t → text_eq s t ≡ false
text_eq_other s t h = elim (Bool-cases (text_eq s t)) [
  | inl same ↦ absurd (h (text_eq→eq s t same))
  | inr differs ↦ differs
]

last_with-none :
    (id : Text) (results : List ToolResult)
    → All (λ s. s.tool_use_id ≢ id) results
    → last_with id results ≡ none
unfolding last_with
last_with-none id [] h = refl
last_with-none id (r ∷ results) (h, hs) =
    rw (last_with-none id results hs) (rw (text_eq_other r.tool_use_id id h) refl)

All-InList :
    (P : ToolResult → Type 0) (r : ToolResult) (results : List ToolResult)
    → All P results
    → InList r results
    → P r
All-InList P r [] h i = elim i [ ]
All-InList P r (s ∷ results) (h, hs) (inl same) = subst P (sym same) h
All-InList P r (s ∷ results) (h, hs) (inr later) = All-InList P r results hs later

last_with-InList :
    (r : ToolResult) (results : List ToolResult)
    → AreDistinct results
    → InList r results
    → last_with r.tool_use_id results ≡ some r
unfolding last_with
last_with-InList r [] d i = elim i [ ]
last_with-InList r (s ∷ results) (h, d) (inl same) =
    subst (λ q. last_with q.tool_use_id (s ∷ results) ≡ some q) (sym same)
      (rw (last_with-none s.tool_use_id results h) (rw (text_eq_refl s.tool_use_id) refl))
last_with-InList r (s ∷ results) (h, d) (inr later) = rw (last_with-InList r results d later) refl

by_id_later :
    (r : ToolResult) (results : List ToolResult) (id : Text) (ids : List Text)
    → InList r (by_id results ids)
    → InList r (by_id results (id ∷ ids))
unfolding by_id
by_id_later r results id ids i = elim (Option-cases (last_with id results)) [
  | inl missing ↦ subst (λ o. InList r (append_found o (by_id results ids))) (sym missing) i
  | inr (q, found) ↦ subst (λ o. InList r (append_found o (by_id results ids))) (sym found) (inr i)
]

InList-by_id :
    (r : ToolResult) (results : List ToolResult) (ids : List Text)
    → last_with r.tool_use_id results ≡ some r
    → is_used r.tool_use_id ids ≡ true
    → InList r (by_id results ids)
unfolding by_id is_used
InList-by_id r results [] h u = absurd (true≢false (sym u))
InList-by_id r results (id ∷ ids) h u = elim (Bool-cases (text_eq r.tool_use_id id)) [
  | inl same ↦
      subst (λ o. InList r (append_found o (by_id results ids)))
        (sym (ap (λ x. last_with x results) (sym (text_eq→eq r.tool_use_id id same)) ∙ h))
        (inl refl)
  | inr differs ↦ by_id_later r results id ids (
      InList-by_id r results ids h
        (sym (ap (λ b. if b then true else is_used r.tool_use_id ids) differs) ∙ u))
]

InList-unused :
    (r : ToolResult) (results : List ToolResult) (ids : List Text)
    → InList r results
    → is_used r.tool_use_id ids ≡ false
    → InList r (unused ids results)
unfolding unused
InList-unused r [] ids i u = elim i [ ]
InList-unused r (s ∷ results) ids (inl same) u =
    if-intro (InList r) (is_used s.tool_use_id ids)
      (λ used. absurd (true≢false (sym used ∙ ap (λ q. is_used q.tool_use_id ids) (sym same) ∙ u)))
      (λ _. inl same)
InList-unused r (s ∷ results) ids (inr later) u =
    let kept = InList-unused r results ids later u in
    if-intro (InList r) (is_used s.tool_use_id ids) (λ _. kept) (λ _. inr kept)

InList-left : (r : ToolResult) (xs ys : List ToolResult) → InList r xs → InList r (xs ++ ys)
InList-left r [] ys i = elim i [ ]
InList-left r (x ∷ xs) ys (inl same) = inl same
InList-left r (x ∷ xs) ys (inr later) = inr (InList-left r xs ys later)

InList-right : (r : ToolResult) (xs ys : List ToolResult) → InList r ys → InList r (xs ++ ys)
InList-right r [] ys i = i
InList-right r (x ∷ xs) ys i = inr (InList-right r xs ys i)

abbrev pub ids_of : List ToolResult → List Text
ids_of [] = []
ids_of (r ∷ results) = r.tool_use_id ∷ ids_of results

-- The ids of the calls that have a result.
abbrev pub when_found : Option ToolResult → Text → List Text → List Text
when_found none id rest = rest
when_found (some r) id rest = id ∷ rest

unfoldable pub answered : List ToolResult → List Text → List Text
answered results [] = []
answered results (id ∷ ids) = when_found (last_with id results) id (answered results ids)

last_with-id :
    (id : Text) (results : List ToolResult) (r : ToolResult)
    → last_with id results ≡ some r
    → r.tool_use_id ≡ id
unfolding last_with
last_with-id id [] r h = ground arith
last_with-id id (s ∷ results) r h = elim (Option-cases (last_with id results)) [
  | inl missing ↦ ground (arith, text_eq→eq s.tool_use_id id)
  | inr (q, found) ↦ ground (arith, last_with-id id results q found)
]

append_found-ids :
    (o : Option ToolResult) (id : Text) (rs : List ToolResult) (rest : List Text)
    → ((r : ToolResult) → o ≡ some r → r.tool_use_id ≡ id)
    → ids_of rs ≡ rest
    → ids_of (append_found o rs) ≡ when_found o id rest
append_found-ids none id rs rest h e = e
append_found-ids (some r) id rs rest h e = λ i. h r refl i ∷ e i

-- The results that answer the calls come in the order of the calls.
by_id-answered :
    (results : List ToolResult) (ids : List Text)
    → ids_of (by_id results ids) ≡ answered results ids
unfolding by_id answered
by_id-answered results [] = refl
by_id-answered results (id ∷ ids) =
    append_found-ids (last_with id results) id (by_id results ids) (answered results ids)
      (last_with-id id results) (by_id-answered results ids)

-- When no two results have the same id, every result is kept, whatever the ids of the calls.
reorder_tool_results-InList :
    (r : ToolResult) (results : List ToolResult) (ids : List Text)
    → AreDistinct results
    → InList r results
    → InList r (reorder_tool_results results ids)
unfolding reorder_tool_results
reorder_tool_results-InList r results ids d i =
    if-intro (InList r) (ltb (length results) 2 || is_empty ids) (λ _. i)
      (λ _. elim (Bool-cases (is_used r.tool_use_id ids)) [
        | inl used ↦
            InList-left r _ _ (InList-by_id r results ids (last_with-InList r results d i) used)
        | inr free ↦ InList-right r _ _ (InList-unused r results ids i free)
      ])

ids_of-append : (xs ys : List ToolResult) → ids_of (xs ++ ys) ≡ ids_of xs ++ ids_of ys
ids_of-append [] ys = refl
ids_of-append (x ∷ xs) ys = ap (◌∷◌ x.tool_use_id) (ids_of-append xs ys)

several :
    (results : List ToolResult) (ids : List Text)
    → 1 < length results
    → ids ≢ []
    → (ltb (length results) 2 || is_empty ids) ≡ false
several results [] long some_call = absurd (some_call refl)
several results (id ∷ ids) long some_call = ground arith

-- Of two results or more the reordered ones begin with those that answer the calls, in the order of
-- the calls, if there are calls; those that answer none follow in their own order.
reorder_tool_results-ids_of :
    (results : List ToolResult) (ids : List Text)
    → 1 < length results
    → ids ≢ []
    → ids_of (reorder_tool_results results ids)
      ≡ answered results ids ++ ids_of (unused ids results)
unfolding reorder_tool_results
reorder_tool_results-ids_of results ids long some_call =
    ap (λ b. ids_of (if b then results else by_id results ids ++ unused ids results))
      (several results ids long some_call)
    ∙ ids_of-append (by_id results ids) (unused ids results)
    ∙ ap (λ xs. xs ++ ids_of (unused ids results)) (by_id-answered results ids)
