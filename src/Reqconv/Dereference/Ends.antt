-- ===== src/Reqconv/Dereference/Ends.antt =====
-- DereferenceSchema: each reference that is followed is one of the schema's texts, and none is
-- followed while it is being followed.
use claude_code_kiro_models.Prelude.{
  leb, true≢false, ℕ, zero, suc, ◌+◌, ◌≤◌, ◌<◌, true, false, not, ◌||◌, List, [], ◌∷◌, Option, none,
  some, Text, codes, ◌≡◌, sym, ap, ◌∙◌, inl, inr, if-intro, if◌then◌else◌, is_empty, text_eq,
  text_eq_refl, text_eq→eq, arith, Bool-cases, contains,
}
use claude_code_kiro_models.Reqconv.Dereference.{
  is_local_ref, unescape, parse_index, nth_item, at_index, step_into, walk, lookup_ref, Found,
  missing, crash, found, opt_found, crashes, panics, Plan, plain, unresolved, follow, found_target,
  plan_ref, plan_of,
}
use claude_code_kiro_models.Reqconv.Json.{
  Json, null, boolean, number, string, array, object, Items, no_items, item, Fields, no_fields,
  field, lookup_field,
}

-- The texts of `ts` that are not in `seen`.
unfoldable pub unseen : List Text → List Text → ℕ
unseen seen [] = 0
unseen seen (t ∷ ts) = (if contains seen t then 0 else 1) + unseen seen ts

unseen_more : (seen ts : List Text) (ref : Text) → unseen (ref ∷ seen) ts ≤ unseen seen ts
unfolding unseen contains
unseen_more seen [] ref = omega arith
unseen_more seen (t ∷ ts) ref = ground (arith, unseen_more seen ts ref)

pub unseen_fewer :
    (seen ts : List Text) (ref : Text)
    → contains ts ref ≡ true
    → contains seen ref ≡ false
    → unseen (ref ∷ seen) ts < unseen seen ts
unfolding unseen contains
unseen_fewer seen [] ref h n = absurd (true≢false (sym h))
unseen_fewer seen (t ∷ ts) ref h n = elim (Bool-cases (text_eq t ref)) [
  | inl same ↦
      let e : t ≡ ref = text_eq→eq t ref same in
      let fresh : contains seen t ≡ false = ap (contains seen) e ∙ n in
      let taken : text_eq ref t ≡ true = ap (text_eq ref) e ∙ text_eq_refl ref in
      ground (arith, fresh, taken, unseen_more seen ts ref)
  | inr other ↦ ground (arith, other, unseen_fewer seen ts ref)
]

-- Every text in a value is one of `ts`.
module _ (ts : List Text) where
  unfoldable mutual
    pub Within : Json → Type 0
    Within (string t) = contains ts t ≡ true
    Within (array is) = WithinItems is
    Within (object fs) = WithinFields fs
    Within v = Unit

    pub WithinItems : Items → Type 0
    WithinItems no_items = Unit
    WithinItems (item v is) = Within v × WithinItems is

    pub WithinFields : Fields → Type 0
    WithinFields no_fields = Unit
    WithinFields (field k v fs) = Within v × WithinFields fs

  FoundWithin : Found → Type 0
  FoundWithin missing = Unit
  FoundWithin crash = Unit
  FoundWithin (found v) = Within v

  lookup_field-FoundWithin :
      (k : Text) (fs : Fields) → WithinFields fs → FoundWithin (opt_found (lookup_field k fs))
  unfolding lookup_field Within FoundWithin
  lookup_field-FoundWithin k no_fields h = tt
  lookup_field-FoundWithin k (field j v fs) (hv, h) =
      if-intro (λ (o : Option Json). FoundWithin (opt_found o)) (text_eq j k) (λ t. hv)
        (λ f. lookup_field-FoundWithin k fs h)

  nth_item-FoundWithin : (is : Items) (n : ℕ) → WithinItems is → FoundWithin (nth_item is n)
  unfolding nth_item Within FoundWithin
  nth_item-FoundWithin no_items n h = tt
  nth_item-FoundWithin (item v is) zero (hv, h) = hv
  nth_item-FoundWithin (item v is) (suc n) (hv, h) = nth_item-FoundWithin is n h

  at_index-FoundWithin : (is : Items) (o : Option ℕ) → WithinItems is → FoundWithin (at_index is o)
  unfolding FoundWithin at_index
  at_index-FoundWithin is none h = tt
  at_index-FoundWithin is (some n) h =
      if-intro FoundWithin (leb 9223372036854775808 n) (λ t. tt) (λ f. nth_item-FoundWithin is n h)

  step_into-FoundWithin : (v : Json) (part : Text) → Within v → FoundWithin (step_into v part)
  unfolding step_into Within FoundWithin
  step_into-FoundWithin (object fs) part h = lookup_field-FoundWithin part fs h
  step_into-FoundWithin (array is) part h = at_index-FoundWithin is (parse_index 0 part) h
  step_into-FoundWithin null part h = tt
  step_into-FoundWithin (boolean b) part h = tt
  step_into-FoundWithin (number t) part h = tt
  step_into-FoundWithin (string t) part h = tt

  walk-FoundWithin : (o : Found) (parts : List Text) → FoundWithin o → FoundWithin (walk o parts)
  unfolding walk FoundWithin
  walk-FoundWithin missing parts h = tt
  walk-FoundWithin crash parts h = tt
  walk-FoundWithin (found v) [] h = h
  walk-FoundWithin (found v) (p ∷ parts) h =
      walk-FoundWithin (step_into v (unescape p)) parts (step_into-FoundWithin v (unescape p) h)

  -- A reference that is followed is a new one of the texts, and so are the texts of its target.
  unfoldable pub IsFollowed : List Text → Plan → Type 0
  IsFollowed seen plain = Unit
  IsFollowed seen unresolved = Unit
  IsFollowed seen panics = ⊥
  IsFollowed seen (follow ref target) =
      (contains ts ref ≡ true) × ((contains seen ref ≡ false) × Within target)

  found_target-IsFollowed :
      (seen : List Text) (ref : Text) (o : Found)
      → contains ts ref ≡ true
      → contains seen ref ≡ false
      → crashes o ≡ false
      → FoundWithin o
      → IsFollowed seen (found_target ref o)
  unfolding found_target FoundWithin IsFollowed
  found_target-IsFollowed seen ref missing h n c w = tt
  found_target-IsFollowed seen ref crash h n c w = true≢false c
  found_target-IsFollowed seen ref (found target) h n c w = (h, (n, w))

  -- A reference of the schema, none of which panics.
  module _ (root : Fields) (within : WithinFields root)
      (sound : (t : Text) → contains ts t ≡ true → crashes (lookup_ref root t) ≡ false) where
    string_ref-IsFollowed :
        (seen : List Text) (ref : Text)
        → contains ts ref ≡ true
        → IsFollowed seen (plan_ref root seen (some (string ref)))
    unfolding plan_ref Within IsFollowed FoundWithin
    string_ref-IsFollowed seen ref h =
        if-intro (IsFollowed seen) (is_empty ref) (λ t. tt)
          (λ f.
            if-intro (IsFollowed seen) (not (is_local_ref ref) || contains seen ref) (λ t. tt)
              (λ new.
                found_target-IsFollowed seen ref (lookup_ref root ref) h (ground (arith, new))
                  (sound ref h)
                  (unfold lookup_ref in walk-FoundWithin (found (object root)) _ within)))

    plan_ref-IsFollowed :
        (seen : List Text) (o : Option Json)
        → FoundWithin (opt_found o)
        → IsFollowed seen (plan_ref root seen o)
    unfolding plan_ref FoundWithin Within IsFollowed
    plan_ref-IsFollowed seen none h = tt
    plan_ref-IsFollowed seen (some null) h = tt
    plan_ref-IsFollowed seen (some (boolean b)) h = tt
    plan_ref-IsFollowed seen (some (number t)) h = tt
    plan_ref-IsFollowed seen (some (array is)) h = tt
    plan_ref-IsFollowed seen (some (object fs)) h = tt
    plan_ref-IsFollowed seen (some (string ref)) h = string_ref-IsFollowed seen ref h

    pub plan_of-IsFollowed :
        (seen : List Text) (m : Fields) → WithinFields m → IsFollowed seen (plan_of root seen m)
    unfolding plan_of
    plan_of-IsFollowed seen m h =
        plan_ref-IsFollowed seen _ (lookup_field-FoundWithin (codes "$ref") m h)
