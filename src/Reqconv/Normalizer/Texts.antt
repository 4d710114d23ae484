-- ===== src/Reqconv/Normalizer/Texts.antt =====
-- The texts of a conversation, which merging keeps.
use claude_code_kiro_models.Prelude.{
  List, [], ◌∷◌, ◌++◌, ◌&&◌, Text, ◌≡◌, ◌≢◌, refl, arith, sym, ap, ◌∙◌, if-intro, append_assoc,
  append-nil, join,
}
use claude_code_kiro_models.Reqconv.Message.{Message, same_role}
use claude_code_kiro_models.Reqconv.Normalizer.{
  merge_run, close_run, merge_adjacent_same_role, extract_text_content, is_plain_text_content,
  newline,
}

abbrev pub texts : List Message → List Text
texts [] = []
texts (m ∷ msgs) = extract_text_content m.content ∷ texts msgs

join_cons :
    (x : Text) (xs ys : List Text)
    → join newline (join newline (x ∷ xs) ∷ ys) ≡ join newline (x ∷ (xs ++ ys))
unfolding join
join_cons x [] ys = refl
join_cons x (y ∷ xs) [] = ap (λ zs. x ++ (newline ++ join newline zs)) (sym (append-nil (y ∷ xs)))
join_cons x (y ∷ xs) (z ∷ zs) =
    append_assoc x (newline ++ join newline (y ∷ xs)) (newline ++ join newline (z ∷ zs))
    ∙ ap (λ t. x ++ (newline ++ t)) (join_cons y xs (z ∷ zs))

join_more :
    (x : Text) (ys : List Text)
    → ys ≢ []
    → join newline (x ∷ ys) ≡ x ++ (newline ++ join newline ys)
unfolding join
join_more x [] h = absurd (h refl)
join_more x (y ∷ ys) h = refl

close_run-text :
    (first : Message) (run : List Text)
    → extract_text_content (close_run first run).content
      ≡ join newline (extract_text_content first.content ∷ run)
unfolding close_run join extract_text_content
close_run-text first [] = refl
close_run-text first (t ∷ run) = refl

cons≢nil : (x : Text) (xs : List Text) → (x ∷ xs) ≢ []
cons≢nil x xs h = ground arith

texts-merge_run :
    (first : Message) (run : List Text) (msgs : List Message)
    → texts (merge_run first run msgs) ≢ []
unfolding merge_run
texts-merge_run first run [] = cons≢nil _ []
texts-merge_run first run (m ∷ msgs) =
    if-intro (λ ms. texts ms ≢ [])
      (is_plain_text_content first.content
        && same_role m.role first.role
        && is_plain_text_content m.content)
      {y = close_run first run ∷ merge_run m [] msgs}
      (λ _. texts-merge_run first (run ++ (extract_text_content m.content ∷ [])) msgs)
      (λ _.
        cons≢nil (extract_text_content (close_run first run).content) (texts (merge_run m [] msgs)))

merge_run-join :
    (first : Message) (run : List Text) (msgs : List Message)
    → join newline (texts (merge_run first run msgs))
      ≡ join newline (extract_text_content first.content ∷ (run ++ texts msgs))
unfolding merge_run
merge_run-join first run [] =
    unfold join in
    (close_run-text first run
      ∙ ap (λ r. join newline (extract_text_content first.content ∷ r)) (sym (append-nil run)))
merge_run-join first run (m ∷ msgs) =
    let e = extract_text_content first.content in
    let t = extract_text_content m.content in
    let c = extract_text_content (close_run first run).content in
    if-intro (λ ms. join newline (texts ms) ≡ join newline (e ∷ (run ++ (t ∷ texts msgs))))
      (is_plain_text_content first.content
        && same_role m.role first.role
        && is_plain_text_content m.content)
      {y = close_run first run ∷ merge_run m [] msgs}
      (λ _.
        merge_run-join first (run ++ (t ∷ [])) msgs
        ∙ ap (λ r. join newline (e ∷ r)) (append_assoc run (t ∷ []) (texts msgs)))
      (λ _.
        join_more c (texts (merge_run m [] msgs)) (texts-merge_run m [] msgs)
        ∙ ap (λ x. c ++ (newline ++ x)) (merge_run-join m [] msgs)
        ∙ sym (join_more c (t ∷ texts msgs) (cons≢nil t (texts msgs)))
        ∙ ap (λ x. join newline (x ∷ (t ∷ texts msgs))) (close_run-text first run)
        ∙ join_cons e run (t ∷ texts msgs))

-- Merging keeps the texts: joined by newlines, the text contents of the messages are the same before
-- and after.
merge_adjacent_same_role-join :
    (msgs : List Message)
    → join newline (texts (merge_adjacent_same_role msgs)) ≡ join newline (texts msgs)
unfolding merge_adjacent_same_role
merge_adjacent_same_role-join [] = refl
merge_adjacent_same_role-join (m ∷ msgs) = merge_run-join m [] msgs
