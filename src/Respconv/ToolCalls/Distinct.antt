-- ===== src/Respconv/ToolCalls/Distinct.antt =====
-- One call for each name and input, and the whole of DeduplicateToolCalls.
use text.Mathlib.Text.{◌==◌ as str_eq}
use claude_code_kiro_models.Prelude.{
  subst, true≢false, true, false, List, [], ◌∷◌, String, Text, ◌≡◌, ◌≢◌, ◌⊎◌, inl, inr, refl, sym,
  ap, ◌∙◌, All, InList, if-intro, arith, str_eq→eq, str_eq_self, text_eq→eq, text_eq_refl,
  Bool-cases, &&_left, &&_right, length, leb, text_eq,
}
use claude_code_kiro_models.Respconv.State.{ToolCall}
use claude_code_kiro_models.Respconv.ToolCalls.Longest.{
  HasOtherId, DistinctIds, Outlasts, dedupe_by_id-DistinctIds, dedupe_by_id-All,
  dedupe_by_id-IsKept,
}
use claude_code_kiro_models.Respconv.ToolCalls.{
  key, same_key, is_seen, dedupe_by_key, dedupe_by_id, deduplicate_tool_calls,
}

same_key_sound : (k l : String × Text) → same_key k l ≡ true → k ≡ l
same_key_sound (n, t) (m, u) h =
    ap (λ (x : String). (x, t)) (str_eq→eq n m (&&_left (str_eq n m) (text_eq t u) h))
    ∙ ap (λ (x : Text). (m, x)) (text_eq→eq t u (&&_right (str_eq n m) (text_eq t u) h))

same_key_self : (k : String × Text) → same_key k k ≡ true
same_key_self (n, t) = rw (str_eq_self n, text_eq_refl t) refl

All-InList :
    (P : ToolCall → Type 0) (xs : List ToolCall) (x : ToolCall) → All P xs → InList x xs → P x
All-InList P [] x h m = absurd m
All-InList P (y ∷ xs) x (hy, h) (inl e) = subst P (sym e) hy
All-InList P (y ∷ xs) x (hy, h) (inr m) = All-InList P xs x h m

InList-All :
    (P : ToolCall → Type 0) (xs : List ToolCall) → ((x : ToolCall) → InList x xs → P x) → All P xs
InList-All P [] f = tt
InList-All P (x ∷ xs) f = (f x (inl refl), InList-All P xs (λ y m. f y (inr m)))

-- What is kept was given.
dedupe_by_id-InList :
    (calls : List ToolCall) (x : ToolCall) → InList x (dedupe_by_id [] calls) → InList x calls
dedupe_by_id-InList calls x m =
    All-InList (λ y. InList y calls) (dedupe_by_id [] calls) x
      (dedupe_by_id-All (λ y. InList y calls) [] calls tt
        (InList-All (λ y. InList y calls) calls (λ y h. h)))
      m

module _ (normalize : Text → Text) where
  abbrev pub HasOtherKey : ToolCall → ToolCall → Type 0
  HasOtherKey x y = key normalize y ≢ key normalize x

  unfoldable pub DistinctKeys : List ToolCall → Type 0
  DistinctKeys [] = Unit
  DistinctKeys (x ∷ xs) = All (HasOtherKey x) xs × DistinctKeys xs

  dedupe_by_key-All :
      (P : ToolCall → Type 0) (seen : List (String × Text)) (cs : List ToolCall)
      → All P cs
      → All P (dedupe_by_key normalize seen cs)
  unfolding dedupe_by_key
  dedupe_by_key-All P seen [] h = tt
  dedupe_by_key-All P seen (c ∷ cs) (hc, h) =
      if-intro (All P) (is_seen normalize (key normalize c) seen)
        (λ t. dedupe_by_key-All P seen cs h)
        (λ f. (hc, dedupe_by_key-All P (key normalize c ∷ seen) cs h))

  dedupe_by_key-DistinctIds :
      (seen : List (String × Text)) (cs : List ToolCall)
      → DistinctIds cs
      → DistinctIds (dedupe_by_key normalize seen cs)
  unfolding dedupe_by_key DistinctIds
  dedupe_by_key-DistinctIds seen [] h = tt
  dedupe_by_key-DistinctIds seen (c ∷ cs) (hc, h) =
      if-intro DistinctIds (is_seen normalize (key normalize c) seen)
        (λ t. dedupe_by_key-DistinctIds seen cs h)
        (λ f. (
          dedupe_by_key-All (HasOtherId c) (key normalize c ∷ seen) cs hc,
          dedupe_by_key-DistinctIds (key normalize c ∷ seen) cs h,
        ))

  abbrev IsNew : List (String × Text) → ToolCall → Type 0
  IsNew seen x = is_seen normalize (key normalize x) seen ≡ false

  is_seen-head :
      (k l : String × Text) (seen : List (String × Text))
      → is_seen normalize k (l ∷ seen) ≡ false
      → (k ≢ l) × (is_seen normalize k seen ≡ false)
  unfolding is_seen
  is_seen-head k l seen h = elim (Bool-cases (same_key l k)) [
    | inl same ↦ absurd (ground (arith, same))
    | inr other ↦ (
      λ e. true≢false (sym (same_key_self l) ∙ ap (same_key l) (sym e) ∙ other),
      ground (arith, other),
    )
  ]

  All-map :
      (P Q : ToolCall → Type 0) (xs : List ToolCall)
      → ((x : ToolCall) → P x → Q x)
      → All P xs
      → All Q xs
  All-map P Q [] f h = tt
  All-map P Q (x ∷ xs) f (hx, h) = (f x hx, All-map P Q xs f h)

  dedupe_by_key-IsNew :
      (seen : List (String × Text)) (cs : List ToolCall)
      → All (IsNew seen) (dedupe_by_key normalize seen cs)
  unfolding dedupe_by_key
  dedupe_by_key-IsNew seen [] = tt
  dedupe_by_key-IsNew seen (c ∷ cs) =
      if-intro (All (IsNew seen)) (is_seen normalize (key normalize c) seen)
        (λ t. dedupe_by_key-IsNew seen cs)
        (λ f. (
          f,
          All-map (IsNew (key normalize c ∷ seen)) (IsNew seen)
              (dedupe_by_key normalize (key normalize c ∷ seen) cs)
              (λ x h. (is_seen-head (key normalize x) (key normalize c) seen h).1)
              (dedupe_by_key-IsNew (key normalize c ∷ seen) cs),
        ))

  dedupe_by_key-DistinctKeys :
      (seen : List (String × Text)) (cs : List ToolCall)
      → DistinctKeys (dedupe_by_key normalize seen cs)
  unfolding dedupe_by_key DistinctKeys
  dedupe_by_key-DistinctKeys seen [] = tt
  dedupe_by_key-DistinctKeys seen (c ∷ cs) =
      if-intro DistinctKeys (is_seen normalize (key normalize c) seen)
        (λ t. dedupe_by_key-DistinctKeys seen cs)
        (λ f. (
          All-map (IsNew (key normalize c ∷ seen)) (HasOtherKey c)
              (dedupe_by_key normalize (key normalize c ∷ seen) cs)
              (λ x h. (is_seen-head (key normalize x) (key normalize c) seen h).0)
              (dedupe_by_key-IsNew (key normalize c ∷ seen) cs),
          dedupe_by_key-DistinctKeys (key normalize c ∷ seen) cs,
        ))

  short-distinct :
      (cs : List ToolCall) → leb (length cs) 1 ≡ true → DistinctIds cs × DistinctKeys cs
  unfolding DistinctIds DistinctKeys
  short-distinct [] h = (tt, tt)
  short-distinct (c ∷ []) h = ((tt, tt), (tt, tt))
  short-distinct (c ∷ d ∷ cs) h = absurd (ground arith)

  -- The calls that DeduplicateToolCalls returns are among those given, no two of them have the same
  -- id, and no two have the same name and normalized input.
  pub deduplicate_tool_calls-distinct :
      (calls : List ToolCall)
      → All (λ x. InList x calls) (deduplicate_tool_calls normalize calls)
        × (DistinctIds (deduplicate_tool_calls normalize calls)
            × DistinctKeys (deduplicate_tool_calls normalize calls))
  unfolding deduplicate_tool_calls
  deduplicate_tool_calls-distinct calls =
      if-intro (λ r. All (λ x. InList x calls) r × (DistinctIds r × DistinctKeys r))
        (leb (length calls) 1)
        (λ t. (InList-All (λ x. InList x calls) calls (λ y h. h), short-distinct calls t))
        (λ f. (
          dedupe_by_key-All (λ x. InList x calls) [] (dedupe_by_id [] calls)
              (InList-All (λ x. InList x calls) (dedupe_by_id [] calls)
                (dedupe_by_id-InList calls)),
          (
            dedupe_by_key-DistinctIds [] (dedupe_by_id [] calls)
                (dedupe_by_id-DistinctIds [] calls (unfold DistinctIds in tt)),
            dedupe_by_key-DistinctKeys [] (dedupe_by_id [] calls),
          ),
        ))

  -- A call of the same name and normalized input.
  abbrev pub IsAmong : String × Text → List ToolCall → Type 0
  IsAmong k rs = (r : ToolCall) × (InList r rs × (key normalize r ≡ k))

  is_seen-cons :
      (k l : String × Text) (seen : List (String × Text))
      → is_seen normalize k (l ∷ seen) ≡ true
      → (l ≡ k) ⊎ (is_seen normalize k seen ≡ true)
  unfolding is_seen
  is_seen-cons k l seen h = elim (Bool-cases (same_key l k)) [
    | inl same ↦ inl (same_key_sound l k same)
    | inr other ↦ inr (ground (arith, other))
  ]

  after_kept :
      (seen : List (String × Text)) (c x : ToolCall) (rs : List ToolCall)
      → (is_seen normalize (key normalize x) (key normalize c ∷ seen) ≡ true)
        ⊎ IsAmong (key normalize x) rs
      → (is_seen normalize (key normalize x) seen ≡ true) ⊎ IsAmong (key normalize x) (c ∷ rs)
  after_kept seen c x rs (inr (r, (m, e))) = inr (r, (inr m, e))
  after_kept seen c x rs (inl h) = elim (is_seen-cons (key normalize x) (key normalize c) seen h) [
    | inl same ↦ inr (c, (inl refl, same))
    | inr before ↦ inl before
  ]

  dedupe_by_key-IsAmong :
      (seen : List (String × Text)) (cs : List ToolCall) (x : ToolCall)
      → InList x cs
      → (is_seen normalize (key normalize x) seen ≡ true)
        ⊎ IsAmong (key normalize x) (dedupe_by_key normalize seen cs)
  unfolding dedupe_by_key
  dedupe_by_key-IsAmong seen [] x h = absurd h
  dedupe_by_key-IsAmong seen (c ∷ cs) x (inl e) =
      if-intro
        (λ r. (is_seen normalize (key normalize x) seen ≡ true) ⊎ IsAmong (key normalize x) r)
        (is_seen normalize (key normalize c) seen)
        (λ t. inl (ap (λ y. is_seen normalize (key normalize y) seen) e ∙ t))
        (λ f. inr (c, (inl refl, ap (key normalize) (sym e))))
  dedupe_by_key-IsAmong seen (c ∷ cs) x (inr m) =
      if-intro
        (λ r. (is_seen normalize (key normalize x) seen ≡ true) ⊎ IsAmong (key normalize x) r)
        (is_seen normalize (key normalize c) seen) (λ t. dedupe_by_key-IsAmong seen cs x m)
        (λ f.
          after_kept seen c x (dedupe_by_key normalize (key normalize c ∷ seen) cs)
            (dedupe_by_key-IsAmong (key normalize c ∷ seen) cs x m))

  represented :
      (calls : List ToolCall) (x : ToolCall)
      → InList x (dedupe_by_id [] calls)
      → IsAmong (key normalize x) (dedupe_by_key normalize [] (dedupe_by_id [] calls))
  represented calls x m = elim (dedupe_by_key-IsAmong [] (dedupe_by_id [] calls) x m) [
    | inl seen ↦ absurd (unfold is_seen in cc)
    | inr among ↦ among
  ]

  -- Every call that is given is represented: among the calls that DeduplicateToolCalls returns, one
  -- has the name and normalized input of a given call of the same id that is at least as long.
  pub deduplicate_tool_calls-IsAmong :
      (calls : List ToolCall) (c : ToolCall)
      → InList c calls
      → (x : ToolCall) × (InList x calls
          × (Outlasts c x × IsAmong (key normalize x) (deduplicate_tool_calls normalize calls)))
  unfolding deduplicate_tool_calls
  deduplicate_tool_calls-IsAmong calls c h =
      if-intro
        (λ r. (x : ToolCall) × (InList x calls × (Outlasts c x × IsAmong (key normalize x) r)))
        (leb (length calls) 1)
        (λ t. (c, (h, (unfold Outlasts in (refl, omega arith), (c, (h, refl))))))
        (λ f.
          let (x, (m, o)) = dedupe_by_id-IsKept [] calls c h in
          (x, (dedupe_by_id-InList calls x m, (o, represented calls x m))))
