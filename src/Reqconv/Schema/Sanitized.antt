-- ===== src/Reqconv/Schema/Sanitized.antt =====
-- The second pass, and the whole of SanitizeJSONSchema.
use claude_code_kiro_models.Prelude.{
  true, false, List, [], ◌∷◌, Option, none, some, Text, codes, ◌≡◌, refl, ap, ◌∙◌, if-intro,
  is_empty, text_eq, text_eq→eq, arith, All, Bool-cases, inl, inr, not, ◌&&◌,
}
use claude_code_kiro_models.Reqconv.Json.{
  Json, null, boolean, number, string, array, object, Items, no_items, item, Fields, no_fields,
  field,
}
use claude_code_kiro_models.Reqconv.Schema.Clean.{
  is_gone, is_verbatim, IsClean, IsCleanJson, IsCleanItems, IsCleanEntry, set_field-IsClean,
  copy_fields-IsClean, merge_schemas-IsClean, first_pass-IsClean,
}
use claude_code_kiro_models.Reqconv.Schema.{
  merge_schemas, is_unsupported, Entry, is_choice, is_all_of, has_enum, Enums, merged_enum,
  flatten_enum_branches, drop_null_branches, single_branch, copy_branch, choose, choice,
  merge_branches, all_of, second_entry, second_pass, first_pass, assemble, clean_value, clean_items,
  entries, sanitize_json_schema, is_null_branch,
}

choice_not_gone : (k : Text) → is_choice k ≡ true → is_gone k ≡ false
choice_not_gone k h = elim (Bool-cases (text_eq k (codes "anyOf"))) [
  | inl any ↦
      ap is_gone (text_eq→eq k (codes "anyOf") any) ∙ unfold is_gone is_unsupported text_eq in refl
  | inr other ↦
      let one : text_eq k (codes "oneOf") ≡ true = ground (arith, other, h) in
      ap is_gone (text_eq→eq k (codes "oneOf") one) ∙ unfold is_gone is_unsupported text_eq in refl
]

abbrev MergedClean : Option Fields → Type 0
MergedClean none = Unit
MergedClean (some m) = IsClean m

merged_enum-MergedClean : (o : Option Enums) → MergedClean (merged_enum o)
unfolding merged_enum IsClean is_gone is_verbatim is_unsupported text_eq
merged_enum-MergedClean none = tt
merged_enum-MergedClean (some a) = (
  refl,
  (
    λ q. absurd (ground (arith, q)),
    if-intro IsClean (not (is_empty a.typ) && a.consistent) (λ t. (refl, (λ q. tt, tt))) (λ f. tt),
  ),
)

copy_branch-IsClean :
    (result : Fields) (d : Json)
    → IsClean result
    → IsCleanItems (item d no_items)
    → IsClean (copy_branch result d)
unfolding copy_branch IsClean
copy_branch-IsClean result (object s) h (hs, t) = copy_fields-IsClean result s h hs
copy_branch-IsClean result null h hd = h
copy_branch-IsClean result (boolean b) h hd = h
copy_branch-IsClean result (number t) h hd = h
copy_branch-IsClean result (string t) h hd = h
copy_branch-IsClean result (array is) h hd = h

single_branch-IsClean :
    (k : Text) (cleaned : Json) (result : Fields) (kept : Items)
    → IsClean result
    → is_gone k ≡ false
    → IsCleanJson cleaned
    → IsCleanItems kept
    → IsClean (single_branch k cleaned result kept)
unfolding single_branch
single_branch-IsClean k cleaned result no_items h g c hk =
    set_field-IsClean result k cleaned h g (λ q. c)
single_branch-IsClean k cleaned result (item d no_items) h g c hk =
    copy_branch-IsClean result d h hk
single_branch-IsClean k cleaned result (item d (item e es)) h g c hk =
    set_field-IsClean result k cleaned h g (λ q. c)

choose-IsClean :
    (k : Text) (cleaned : Json) (result : Fields) (kept : Items) (o : Option Fields)
    → IsClean result
    → is_gone k ≡ false
    → IsCleanJson cleaned
    → IsCleanItems kept
    → MergedClean o
    → IsClean (choose k cleaned result kept o)
unfolding choose
choose-IsClean k cleaned result kept (some m) h g c hk hm = copy_fields-IsClean result m h hm
choose-IsClean k cleaned result kept none h g c hk hm =
    single_branch-IsClean k cleaned result kept h g c hk

-- The first of clean items, and the others.
item-IsCleanItems : (c : Json) (cs : Items) → IsCleanItems (item c cs) → IsCleanItems cs
unfolding IsClean
item-IsCleanItems (object s) cs (h, hs) = hs
item-IsCleanItems null cs h = h
item-IsCleanItems (boolean b) cs h = h
item-IsCleanItems (number t) cs h = h
item-IsCleanItems (string t) cs h = h
item-IsCleanItems (array is) cs h = h

keep-IsCleanItems :
    (c : Json) (cs ds : Items)
    → IsCleanItems (item c cs)
    → IsCleanItems ds
    → IsCleanItems (item c ds)
unfolding IsClean
keep-IsCleanItems (object s) cs ds (h, hs) hd = (h, hd)
keep-IsCleanItems null cs ds h hd = hd
keep-IsCleanItems (boolean b) cs ds h hd = hd
keep-IsCleanItems (number t) cs ds h hd = hd
keep-IsCleanItems (string t) cs ds h hd = hd
keep-IsCleanItems (array is) cs ds h hd = hd

drop_null_branches-IsCleanItems :
    (bs cs : Items) → IsCleanItems cs → IsCleanItems (drop_null_branches bs cs)
unfolding drop_null_branches
drop_null_branches-IsCleanItems no_items cs h = unfold IsClean in tt
drop_null_branches-IsCleanItems (item b bs) no_items h = unfold IsClean in tt
drop_null_branches-IsCleanItems (item b bs) (item c cs) h =
    let rest = drop_null_branches-IsCleanItems bs cs (item-IsCleanItems c cs h) in
    if-intro IsCleanItems (is_null_branch b) (λ t. rest)
      (λ f. keep-IsCleanItems c cs (drop_null_branches bs cs) h rest)

choice-IsClean :
    (k : Text) (result : Fields) (value cleaned : Json)
    → IsClean result
    → is_gone k ≡ false
    → IsCleanJson cleaned
    → IsClean (choice k result value cleaned)
unfolding choice
choice-IsClean k result (array (item b bs)) (array cs) h g c =
    choose-IsClean k (array cs) result (drop_null_branches (item b bs) cs)
      (flatten_enum_branches cs) h g c
      (drop_null_branches-IsCleanItems (item b bs) cs (unfold IsClean in c))
      (unfold flatten_enum_branches in merged_enum-MergedClean _)
choice-IsClean k result (array (item b bs)) (object s) h g c = h
choice-IsClean k result (array (item b bs)) null h g c = h
choice-IsClean k result (array (item b bs)) (boolean x) h g c = h
choice-IsClean k result (array (item b bs)) (number t) h g c = h
choice-IsClean k result (array (item b bs)) (string t) h g c = h
choice-IsClean k result (array no_items) cleaned h g c = h
choice-IsClean k result (object s) cleaned h g c = h
choice-IsClean k result null cleaned h g c = h
choice-IsClean k result (boolean x) cleaned h g c = h
choice-IsClean k result (number t) cleaned h g c = h
choice-IsClean k result (string t) cleaned h g c = h

merge_branches-IsClean :
    (result : Fields) (is : Items)
    → IsClean result
    → IsCleanItems is
    → IsClean (merge_branches result is)
unfolding merge_branches IsClean
merge_branches-IsClean result no_items h c = h
merge_branches-IsClean result (item (object s) is) h (hs, c) =
    merge_branches-IsClean (merge_schemas result s) is (merge_schemas-IsClean result s h hs) c
merge_branches-IsClean result (item null is) h c = merge_branches-IsClean result is h c
merge_branches-IsClean result (item (boolean b) is) h c = merge_branches-IsClean result is h c
merge_branches-IsClean result (item (number t) is) h c = merge_branches-IsClean result is h c
merge_branches-IsClean result (item (string t) is) h c = merge_branches-IsClean result is h c
merge_branches-IsClean result (item (array i) is) h c = merge_branches-IsClean result is h c

all_of-IsClean :
    (result : Fields) (v : Json) → IsClean result → IsCleanJson v → IsClean (all_of result v)
unfolding all_of
all_of-IsClean result (array is) h c = merge_branches-IsClean result is h (unfold IsClean in c)
all_of-IsClean result (object s) h c = h
all_of-IsClean result null h c = h
all_of-IsClean result (boolean b) h c = h
all_of-IsClean result (number t) h c = h
all_of-IsClean result (string t) h c = h

second_entry-IsClean :
    (result : Fields) (e : Entry)
    → IsClean result
    → IsCleanEntry e
    → IsClean (second_entry result e)
unfolding second_entry
second_entry-IsClean result e h c =
    if-intro IsClean (is_choice e.key)
      (λ t. choice-IsClean e.key result e.value e.cleaned h (choice_not_gone e.key t) c)
      (λ f. if-intro IsClean (is_all_of e.key) (λ t. all_of-IsClean result e.cleaned h c) (λ f'. h))

second_pass-IsClean :
    (result : Fields) (es : List Entry)
    → IsClean result
    → All IsCleanEntry es
    → IsClean (second_pass result es)
unfolding second_pass
second_pass-IsClean result [] h c = h
second_pass-IsClean result (e ∷ es) h (c, cs) =
    second_pass-IsClean (second_entry result e) es (second_entry-IsClean result e h c) cs

assemble-IsClean : (es : List Entry) → All IsCleanEntry es → IsClean (assemble es)
unfolding assemble
assemble-IsClean es c =
    second_pass-IsClean (first_pass (has_enum es) no_fields es) es
      (first_pass-IsClean (has_enum es) no_fields es (unfold IsClean in tt) c) c

mutual
  unfolding clean_value IsClean

  clean_value-IsCleanJson : (v : Json) → IsCleanJson (clean_value v)
  clean_value-IsCleanJson (object fs) = assemble-IsClean (entries fs) (entries-IsCleanEntry fs)
  clean_value-IsCleanJson (array is) = clean_items-IsCleanItems is
  clean_value-IsCleanJson null = tt
  clean_value-IsCleanJson (boolean b) = tt
  clean_value-IsCleanJson (number t) = tt
  clean_value-IsCleanJson (string t) = tt

  clean_items-IsCleanItems : (is : Items) → IsCleanItems (clean_items is)
  clean_items-IsCleanItems no_items = tt
  clean_items-IsCleanItems (item (object fs) is) =
      (assemble-IsClean (entries fs) (entries-IsCleanEntry fs), clean_items-IsCleanItems is)
  clean_items-IsCleanItems (item null is) = clean_items-IsCleanItems is
  clean_items-IsCleanItems (item (boolean b) is) = clean_items-IsCleanItems is
  clean_items-IsCleanItems (item (number t) is) = clean_items-IsCleanItems is
  clean_items-IsCleanItems (item (string t) is) = clean_items-IsCleanItems is
  clean_items-IsCleanItems (item (array i) is) = clean_items-IsCleanItems is

  entries-IsCleanEntry : (fs : Fields) → All IsCleanEntry (entries fs)
  entries-IsCleanEntry no_fields = tt
  entries-IsCleanEntry (field k v fs) = (clean_value-IsCleanJson v, entries-IsCleanEntry fs)

-- SanitizeJSONSchema leaves no `$schema`, `$defs`, `$ref`, `const` or `allOf` key in the schema, nor
-- in the maps below it, those in the values of `enum` and `required` and in arrays of arrays aside.
pub sanitize_json_schema-IsClean : (schema : Fields) → IsClean (sanitize_json_schema schema)
unfolding sanitize_json_schema
sanitize_json_schema-IsClean schema =
    assemble-IsClean (entries schema) (entries-IsCleanEntry schema)
