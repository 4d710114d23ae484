-- ===== src/Models/Listing/Listed.antt =====
-- The list of models: no ID twice, and every row's IDs.
use claude_code_kiro_models.Models.Listing.{
  ModelInfo, is_listed, add, add_alias, add_anthropic, list_rows, list_models,
}
use claude_code_kiro_models.Models.Mapping.{
  Mapping, thinking_suffix, has_thinking_suffix, has_separate_1m_sku,
}
use claude_code_kiro_models.Models.Resolve.{routes_1m}
use claude_code_kiro_models.Prelude.{
  not, subst, Bool, true, false, ◌&&◌, ◌||◌, List, [], ◌∷◌, ◌++◌, Text, ◌≡◌, inl, inr, refl, sym,
  ap, ◌∙◌, arith, if-intro, is_empty, text_eq, text_eq_refl, text_eq→eq, Bool-cases, true≢false,
  InList,
}

text_eq_turned : (s t : Text) → text_eq s t ≡ false → text_eq t s ≡ false
text_eq_turned s t h = elim (Bool-cases (text_eq t s)) [
  | inl same ↦
      absurd (true≢false (sym (text_eq_refl s) ∙ ap (text_eq s) (sym (text_eq→eq t s same)) ∙ h))
  | inr other ↦ other
]

-- No ID is empty or listed twice.
unfoldable pub UniqueIds : List ModelInfo → Type 0
UniqueIds [] = Unit
UniqueIds (i ∷ is) = (is_empty i.id ≡ false) × ((is_listed i.id is ≡ false) × UniqueIds is)

is_listed-append :
    (id : Text) (is js : List ModelInfo)
    → is_listed id (is ++ js) ≡ is_listed id is || is_listed id js
unfolding is_listed
is_listed-append id [] js = refl
is_listed-append id (i ∷ is) js = ground (arith, is_listed-append id is js)

UniqueIds-append :
    (is : List ModelInfo) (x : ModelInfo)
    → UniqueIds is
    → is_empty x.id ≡ false
    → is_listed x.id is ≡ false
    → UniqueIds (is ++ (x ∷ []))
unfolding UniqueIds is_listed
UniqueIds-append [] x h hx hl = (hx, (refl, tt))
UniqueIds-append (i ∷ is) x (hi, (hl, h)) hx hn =
    let other : text_eq x.id i.id ≡ false = text_eq_turned i.id x.id (ground (arith, hn)) in
    (
      hi,
      (
        ground (arith, is_listed-append i.id is (x ∷ []), other),
        UniqueIds-append is x h hx (ground (arith, hn)),
      ),
    )

-- What holds after an addition: the IDs are still unique, the old are kept, the new one is there.
add-UniqueIds :
    (result : List ModelInfo) (id name : Text) → UniqueIds result → UniqueIds (add result id name)
unfolding add
add-UniqueIds result id name h =
    if-intro UniqueIds (is_empty id || is_listed id result) (λ t. h)
      (λ f. UniqueIds-append result _ h (ground (arith, f)) (ground (arith, f)))

add-keeps :
    (result : List ModelInfo) (id name j : Text)
    → is_listed j result ≡ true
    → is_listed j (add result id name) ≡ true
unfolding add
add-keeps result id name j h =
    ground (arith, is_listed-append j result (record { id = id; display_name = name } ∷ []))

add-lists :
    (result : List ModelInfo) (id name : Text)
    → is_empty id ≡ false
    → is_listed id (add result id name) ≡ true
unfolding add
add-lists result id name h =
    let new : ModelInfo = record { id = id; display_name = name } in
    let there : is_listed id (new ∷ []) ≡ true = unfold is_listed in rw (text_eq_refl id) refl in
    ground (arith, is_listed-append id result (new ∷ []), there)

-- What every addition keeps, a row keeps and all rows keep.
module _ (ms : List Mapping) (P : List ModelInfo → Type 0)
    (keeps : (result : List ModelInfo) (id name : Text) → P result → P (add result id name)) where
  add_anthropic-closed :
      (result : List ModelInfo) (m : Mapping) → P result → P (add_anthropic ms result m)
  unfolding add_anthropic add_alias
  add_anthropic-closed result m h =
      if-intro P (has_thinking_suffix m.anthropic) (λ t. keeps result _ _ h)
        (λ f.
          if-intro P (is_empty m.display_name) (λ t. h)
            (λ f'.
              if-intro P (has_separate_1m_sku m && routes_1m ms (m.anthropic ++ thinking_suffix))
                (λ t. keeps _ _ _ (keeps result _ _ h)) (λ f''. keeps result _ _ h)))

  list_rows-closed :
      (result : List ModelInfo) (rows : List Mapping) → P result → P (list_rows ms result rows)
  unfolding list_rows
  list_rows-closed result [] h = h
  list_rows-closed result (m ∷ rows) h =
      list_rows-closed (add (add_anthropic ms result m) m.kiro []) rows
        (keeps _ _ _ (add_anthropic-closed result m h))

-- A row whose Anthropic ID is advertised: it ends in `[1m]` or has a display name.
abbrev pub is_advertised : Mapping → Bool
is_advertised m = has_thinking_suffix m.anthropic || not (is_empty m.display_name)

-- The IDs of a row are listed, those that are not empty.
abbrev pub Lists : Mapping → List ModelInfo → Type 0
Lists m result =
    (is_empty m.kiro ≡ false → is_listed m.kiro result ≡ true)
    × (is_empty m.anthropic ≡ false → is_advertised m ≡ true → is_listed m.anthropic result ≡ true)

module _ (ms : List Mapping) where
  add_anthropic-lists :
      (result : List ModelInfo) (m : Mapping)
      → is_empty m.anthropic ≡ false
      → is_advertised m ≡ true
      → is_listed m.anthropic (add_anthropic ms result m) ≡ true
  unfolding add_anthropic add_alias
  add_anthropic-lists result m h ha =
      if-intro (λ r. is_listed m.anthropic r ≡ true) (has_thinking_suffix m.anthropic)
        (λ t. add-lists result m.anthropic _ h)
        (λ f.
          if-intro (λ r. is_listed m.anthropic r ≡ true) (is_empty m.display_name)
            (λ t. absurd (ground arith))
            (λ f'.
              if-intro (λ r. is_listed m.anthropic r ≡ true)
                (has_separate_1m_sku m && routes_1m ms (m.anthropic ++ thinking_suffix))
                (λ t. add-keeps _ _ _ m.anthropic (add-lists result m.anthropic _ h))
                (λ f''. add-lists result m.anthropic _ h)))

  list_rows-keeps :
      (j : Text) (result : List ModelInfo) (rows : List Mapping)
      → is_listed j result ≡ true
      → is_listed j (list_rows ms result rows) ≡ true
  list_rows-keeps j result rows h =
      list_rows-closed ms (λ r. is_listed j r ≡ true) (λ r id name. add-keeps r id name j) result
        rows h

  list_rows-Lists :
      (result : List ModelInfo) (rows : List Mapping) (m : Mapping)
      → InList m rows
      → Lists m (list_rows ms result rows)
  unfolding list_rows
  list_rows-Lists result [] m h = absurd h
  list_rows-Lists result (x ∷ rows) m (inr h) =
      list_rows-Lists (add (add_anthropic ms result x) x.kiro []) rows m h
  list_rows-Lists result (x ∷ rows) m (inl e) =
      subst (λ y. Lists y (list_rows ms (add (add_anthropic ms result x) x.kiro []) rows)) (sym e)
        (
          λ h. list_rows-keeps x.kiro _ rows (add-lists (add_anthropic ms result x) x.kiro [] h),
          λ h ha.
              list_rows-keeps x.anthropic _ rows
                (add-keeps _ x.kiro [] x.anthropic (add_anthropic-lists result x h ha)),
        )

  -- ListModels lists no ID twice and none that is empty, and it lists the SKU of every mapping, and
  -- the Anthropic ID of each one that has a display name or ends in `[1m]`.
  pub list_models-Lists :
      UniqueIds (list_models ms) × ((m : Mapping) → InList m ms → Lists m (list_models ms))
  unfolding list_models
  list_models-Lists = (
    list_rows-closed ms UniqueIds add-UniqueIds [] ms (unfold UniqueIds in tt),
    list_rows-Lists [] ms,
  )
