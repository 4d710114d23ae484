-- ===== src/Reqconv/Dereference/Total.antt =====
-- DereferenceSchema ends, on schemas with cyclic references too.
use claude_code_kiro_models.Prelude.{
  subst, ℕ, zero, suc, ◌≤◌, true, false, List, [], ◌∷◌, ◌++◌, Option, none, some, Text, ◌≡◌, refl,
  sym, inl, inr, if-intro, text_eq, text_eq_refl, text_eq→eq, arith, All, length, Bool-cases,
  is_some, contains, true≢false,
}
use claude_code_kiro_models.Reqconv.Dereference.{
  Plan, plain, unresolved, panics, follow, plan_of, leaves_out, opt_field, kept_fields, lookup_ref,
  crashes, opt_object, overlay, settle, opt_array, opt_item, resolve_with, resolve_items,
  resolve_entries, resolve_node, texts_of, texts_of_items, texts_of_fields, opt_fields,
  dereference_schema,
}
use claude_code_kiro_models.Reqconv.Dereference.Ends.{
  unseen, unseen_fewer, Within, WithinItems, WithinFields, IsFollowed, plan_of-IsFollowed,
}
use claude_code_kiro_models.Reqconv.Json.{
  Json, null, boolean, number, string, array, object, Items, no_items, item, Fields, no_fields,
  field,
}

-- What resolves the targets succeeds on each new reference.
Follows : List Text → List Text → (Text → Json → Option Json) → Type 0
Follows ts seen follows =
    (ref : Text) (target : Json)
    → contains ts ref ≡ true
    → contains seen ref ≡ false
    → Within ts target
    → is_some (follows ref target) ≡ true

IsResolved : Text × Option Json → Type 0
IsResolved e = is_some e.1 ≡ true

opt_field_lem :
    (k : Text) (o : Option Json) (fs : Option Fields)
    → is_some o ≡ true
    → is_some fs ≡ true
    → is_some (opt_field k o fs) ≡ true
opt_field_lem k none fs ho hf = ho
opt_field_lem k (some v) none ho hf = hf
opt_field_lem k (some v) (some fs) ho hf = refl

opt_object_lem : (fs : Option Fields) → is_some fs ≡ true → is_some (opt_object fs) ≡ true
opt_object_lem none h = h
opt_object_lem (some fs) h = refl

overlay_lem :
    (t : Option Json) (fs : Option Fields)
    → is_some t ≡ true
    → is_some fs ≡ true
    → is_some (overlay t fs) ≡ true
unfolding overlay
overlay_lem none fs ht hf = ht
overlay_lem (some t) none ht hf = hf
overlay_lem (some t) (some fs) ht hf = refl

opt_array_lem : (is : Option Items) → is_some is ≡ true → is_some (opt_array is) ≡ true
opt_array_lem none h = h
opt_array_lem (some is) h = refl

opt_item_lem :
    (o : Option Json) (is : Option Items)
    → is_some o ≡ true
    → is_some is ≡ true
    → is_some (opt_item o is) ≡ true
opt_item_lem none is ho h = ho
opt_item_lem (some v) none ho h = h
opt_item_lem (some v) (some is) ho h = refl

kept_fields_lem :
    (p : Plan) (es : List (Text × Option Json))
    → All IsResolved es
    → is_some (kept_fields p es) ≡ true
unfolding kept_fields IsResolved
kept_fields_lem p [] h = refl
kept_fields_lem p ((k, o) ∷ es) (ho, h) =
    if-intro (λ (r : Option Fields). is_some r ≡ true) (leaves_out p k)
      (λ t. kept_fields_lem p es h)
      (λ f. opt_field_lem k o (kept_fields p es) ho (kept_fields_lem p es h))

settle_lem :
    (ts seen : List Text) (p : Plan) (follows : Text → Json → Option Json)
    → (es : List (Text × Option Json)) → IsFollowed ts seen p
    → Follows ts seen follows
    → All IsResolved es
    → is_some (settle p follows es) ≡ true
unfolding settle IsFollowed Follows
settle_lem ts seen plain follows es hp hf h =
    opt_object_lem (kept_fields plain es) (kept_fields_lem plain es h)
settle_lem ts seen unresolved follows es hp hf h =
    opt_object_lem (kept_fields unresolved es) (kept_fields_lem unresolved es h)
settle_lem ts seen panics follows es hp hf h = absurd hp
settle_lem ts seen (follow ref target) follows es (hr, (hn, hw)) hf h =
    overlay_lem (follows ref target) (kept_fields (follow ref target) es) (hf ref target hr hn hw)
      (kept_fields_lem (follow ref target) es h)

-- A schema whose texts are `ts`, and whose references do not panic.
module _ (ts : List Text) (root : Fields) (within : WithinFields ts root)
    (sound : (t : Text) → contains ts t ≡ true → crashes (lookup_ref root t) ≡ false) where
  module _ (seen : List Text) (follows : Text → Json → Option Json)
      (total : Follows ts seen follows) where
    mutual
      unfolding resolve_with Within IsResolved

      resolve_with_lem :
          (v : Json) → Within ts v → is_some (resolve_with root seen follows v) ≡ true
      resolve_with_lem (object m) h =
          settle_lem ts seen (plan_of root seen m) follows (resolve_entries root seen follows m)
            (plan_of-IsFollowed ts root within sound seen m h) total (resolve_entries_lem m h)
      resolve_with_lem (array is) h = opt_array_lem _ (resolve_items_lem is h)
      resolve_with_lem null h = refl
      resolve_with_lem (boolean b) h = refl
      resolve_with_lem (number t) h = refl
      resolve_with_lem (string t) h = refl

      resolve_items_lem :
          (is : Items) → WithinItems ts is → is_some (resolve_items root seen follows is) ≡ true
      resolve_items_lem no_items h = refl
      resolve_items_lem (item v is) (hv, h) =
          opt_item_lem _ _ (resolve_with_lem v hv) (resolve_items_lem is h)

      resolve_entries_lem :
          (fs : Fields) → WithinFields ts fs → All IsResolved (resolve_entries root seen follows fs)
      resolve_entries_lem no_fields h = tt
      resolve_entries_lem (field k v fs) (hv, h) = (resolve_with_lem v hv, resolve_entries_lem fs h)

  resolve_node_lem :
      (fuel : ℕ) (seen : List Text) (v : Json)
      → unseen seen ts ≤ fuel
      → Within ts v
      → is_some (resolve_node root fuel seen v) ≡ true
  unfolding resolve_node Follows
  resolve_node_lem zero seen v h w =
      resolve_with_lem seen (λ ref target. none)
        (λ ref target hr hn hw.
          let less = unseen_fewer seen ts ref hr hn in
          let none_left : ⊥ = omega arith in absurd none_left)
        v w
  resolve_node_lem (suc fuel) seen v h w =
      resolve_with_lem seen (λ ref target. resolve_node root fuel (ref ∷ seen) target)
        (λ ref target hr hn hw.
          resolve_node_lem fuel (ref ∷ seen) target
            (let less = unseen_fewer seen ts ref hr hn in omega arith) hw)
        v w

contains-append_left :
    (xs ys : List Text) (t : Text) → contains xs t ≡ true → contains (xs ++ ys) t ≡ true
unfolding contains
contains-append_left [] ys t h = absurd (true≢false (sym h))
contains-append_left (x ∷ xs) ys t h = ground (arith, h, contains-append_left xs ys t)

contains-append_right :
    (xs ys : List Text) (t : Text) → contains ys t ≡ true → contains (xs ++ ys) t ≡ true
unfolding contains
contains-append_right [] ys t h = h
contains-append_right (x ∷ xs) ys t h = ground (arith, contains-append_right xs ys t h)

contains-All :
    (P : Text → Type 0) (ts : List Text) (t : Text) → contains ts t ≡ true → All P ts → P t
unfolding contains
contains-All P [] t h all = absurd (true≢false (sym h))
contains-All P (x ∷ ts) t h (hx, all) = elim (Bool-cases (text_eq x t)) [
  | inl same ↦ subst P (text_eq→eq x t same) hx
  | inr other ↦ contains-All P ts t (ground (arith, h, other)) all
]

unseen_none : (ts : List Text) → unseen [] ts ≤ length ts
unfolding unseen contains
unseen_none [] = omega arith
unseen_none (t ∷ ts) = ground (arith, unseen_none ts)

-- Each text of `xs` is one of `ts`.
IsPart : List Text → List Text → Type 0
IsPart ts xs = (t : Text) → contains xs t ≡ true → contains ts t ≡ true

mutual
  unfolding texts_of Within IsPart contains

  texts_of-Within : (ts : List Text) (v : Json) → IsPart ts (texts_of v) → Within ts v
  texts_of-Within ts (string t) h = h t (ground (arith, text_eq_refl t))
  texts_of-Within ts (array is) h = texts_of_items-Within ts is h
  texts_of-Within ts (object fs) h = texts_of_fields-Within ts fs h
  texts_of-Within ts null h = tt
  texts_of-Within ts (boolean b) h = tt
  texts_of-Within ts (number n) h = tt

  texts_of_items-Within :
      (ts : List Text) (is : Items) → IsPart ts (texts_of_items is) → WithinItems ts is
  texts_of_items-Within ts no_items h = tt
  texts_of_items-Within ts (item v is) h = (
    texts_of-Within ts v (λ t m. h t (contains-append_left (texts_of v) _ t m)),
    texts_of_items-Within ts is (λ t m. h t (contains-append_right (texts_of v) _ t m)),
  )

  texts_of_fields-Within :
      (ts : List Text) (fs : Fields) → IsPart ts (texts_of_fields fs) → WithinFields ts fs
  texts_of_fields-Within ts no_fields h = tt
  texts_of_fields-Within ts (field k v fs) h = (
    texts_of-Within ts v (λ t m. h t (contains-append_left (texts_of v) _ t m)),
    texts_of_fields-Within ts fs (λ t m. h t (contains-append_right (texts_of v) _ t m)),
  )

opt_fields_lem : (o : Option Json) → is_some o ≡ true → (out : Fields) × (opt_fields o ≡ some out)
opt_fields_lem none h = absurd (true≢false (sym h))
opt_fields_lem (some v) h = (_, refl)

-- If no text of a schema panics when it is looked up as a local reference, dereferencing the schema
-- gives a schema, with cyclic references too.
pub dereference_schema_total :
    (schema : Fields)
    → All (λ t. crashes (lookup_ref schema t) ≡ false) (texts_of_fields schema)
    → (out : Fields) × (dereference_schema schema ≡ some out)
unfolding dereference_schema
dereference_schema_total schema sound =
    let ts = texts_of_fields schema in
    let within : WithinFields ts schema =
      texts_of_fields-Within ts schema (unfold IsPart in λ t m. m) in
    opt_fields_lem (resolve_node schema (length ts) [] (object schema)) (
      resolve_node_lem ts schema within
        (λ t m. contains-All (λ t. crashes (lookup_ref schema t) ≡ false) ts t m sound) (length ts)
        [] (object schema) (unseen_none ts) (unfold Within in within))
