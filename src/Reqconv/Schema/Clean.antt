-- ===== src/Reqconv/Schema/Clean.antt =====
-- No keyword that Kiro rejects is left in a sanitized schema.
use claude_code_kiro_models.Prelude.{
  true≢false, subst, Bool, true, false, ◌||◌, List, [], ◌∷◌, Option, none, some, Text, codes, ◌≡◌,
  refl, sym, ap, ◌∙◌, if-intro, text_eq, text_eq→eq, arith, All,
}
use claude_code_kiro_models.Reqconv.Json.{
  Json, null, boolean, number, string, array, object, Items, no_items, item, Fields, no_fields,
  field, lookup_field, set_field, copy_fields, append_items,
}
use claude_code_kiro_models.Reqconv.Schema.{
  Entry, is_unsupported, merge_schemas, merge_value, one_item, is_empty_array, is_choice, is_all_of,
  first_entry, first_pass,
}

-- The keys that are gone, and those whose value is passed on as it is.
unfoldable pub is_gone : Text → Bool
is_gone k =
    text_eq k (codes "$schema")
    || (text_eq k (codes "$defs")
        || (text_eq k (codes "$ref") || (text_eq k (codes "const") || text_eq k (codes "allOf"))))

unfoldable pub is_verbatim : Text → Bool
is_verbatim k = text_eq k (codes "enum") || text_eq k (codes "required")

-- No such key here, nor in a map below that is not in a verbatim value or in an array of an array.
unfoldable mutual
  pub IsClean : Fields → Type 0
  IsClean no_fields = Unit
  IsClean (field k v fs) =
      (is_gone k ≡ false) × ((is_verbatim k ≡ false → IsCleanJson v) × IsClean fs)

  pub IsCleanJson : Json → Type 0
  IsCleanJson (object fs) = IsClean fs
  IsCleanJson (array is) = IsCleanItems is
  IsCleanJson v = Unit

  pub IsCleanItems : Items → Type 0
  IsCleanItems no_items = Unit
  IsCleanItems (item (object fs) is) = IsClean fs × IsCleanItems is
  IsCleanItems (item v is) = IsCleanItems is

pub set_field-IsClean :
    (fs : Fields) (k : Text) (v : Json)
    → IsClean fs
    → is_gone k ≡ false
    → (is_verbatim k ≡ false → IsCleanJson v)
    → IsClean (set_field fs k v)
unfolding set_field IsClean
set_field-IsClean no_fields k v h g c = (g, (c, tt))
set_field-IsClean (field j u fs) k v (gj, (cj, h)) g c =
    if-intro IsClean (text_eq j k)
      (λ t. (gj, (λ q. c (ap is_verbatim (sym (text_eq→eq j k t)) ∙ q), h)))
      (λ f. (gj, (cj, set_field-IsClean fs k v h g c)))

pub copy_fields-IsClean :
    (dst src : Fields) → IsClean dst → IsClean src → IsClean (copy_fields dst src)
unfolding copy_fields IsClean
copy_fields-IsClean dst no_fields h hs = h
copy_fields-IsClean dst (field k v fs) h (g, (c, hs)) =
    copy_fields-IsClean (set_field dst k v) fs (set_field-IsClean dst k v h g c) hs

-- What is there already, if anything.
abbrev FoundClean : Text → Option Json → Type 0
FoundClean k none = Unit
FoundClean k (some u) = is_verbatim k ≡ false → IsCleanJson u

lookup_field-FoundClean : (k : Text) (fs : Fields) → IsClean fs → FoundClean k (lookup_field k fs)
unfolding lookup_field IsClean
lookup_field-FoundClean k no_fields h = tt
lookup_field-FoundClean k (field j v fs) (g, (c, h)) =
    if-intro (FoundClean k) (text_eq j k) (λ t q. c (ap is_verbatim (text_eq→eq j k t) ∙ q))
      (λ f. lookup_field-FoundClean k fs h)

append_items-IsCleanItems :
    (is js : Items) → IsCleanItems is → IsCleanItems js → IsCleanItems (append_items is js)
unfolding append_items IsClean
append_items-IsCleanItems no_items js h hs = hs
append_items-IsCleanItems (item (object fs) is) js (c, h) hs =
    (c, append_items-IsCleanItems is js h hs)
append_items-IsCleanItems (item null is) js h hs = append_items-IsCleanItems is js h hs
append_items-IsCleanItems (item (boolean b) is) js h hs = append_items-IsCleanItems is js h hs
append_items-IsCleanItems (item (number t) is) js h hs = append_items-IsCleanItems is js h hs
append_items-IsCleanItems (item (string t) is) js h hs = append_items-IsCleanItems is js h hs
append_items-IsCleanItems (item (array i) is) js h hs = append_items-IsCleanItems is js h hs

-- Merging one value, the merge of two maps being clean.
merge_value-IsCleanJson :
    (k : Text) (o : Option Json) (v : Json)
    → FoundClean k o
    → is_verbatim k ≡ false
    → IsCleanJson v
    → ((em sm : Fields) → v ≡ object sm → IsClean em → IsClean (merge_schemas em sm))
    → IsCleanJson (merge_value o v)
unfolding merge_schemas IsClean
merge_value-IsCleanJson k (some (object em)) (object sm) ho q hv rec = rec em sm refl (ho q)
merge_value-IsCleanJson k (some (array ea)) (array sa) ho q hv rec =
    append_items-IsCleanItems ea sa (ho q) hv
merge_value-IsCleanJson k (some (object em)) (array sa) ho q hv rec = hv
merge_value-IsCleanJson k (some (array ea)) (object sm) ho q hv rec = hv
merge_value-IsCleanJson k (some null) v ho q hv rec = hv
merge_value-IsCleanJson k (some (boolean b)) v ho q hv rec = hv
merge_value-IsCleanJson k (some (number t)) v ho q hv rec = hv
merge_value-IsCleanJson k (some (string t)) v ho q hv rec = hv
merge_value-IsCleanJson k none v ho q hv rec = hv
merge_value-IsCleanJson k (some (object em)) null ho q hv rec = hv
merge_value-IsCleanJson k (some (object em)) (boolean b) ho q hv rec = hv
merge_value-IsCleanJson k (some (object em)) (number t) ho q hv rec = hv
merge_value-IsCleanJson k (some (object em)) (string t) ho q hv rec = hv
merge_value-IsCleanJson k (some (array ea)) null ho q hv rec = hv
merge_value-IsCleanJson k (some (array ea)) (boolean b) ho q hv rec = hv
merge_value-IsCleanJson k (some (array ea)) (number t) ho q hv rec = hv
merge_value-IsCleanJson k (some (array ea)) (string t) ho q hv rec = hv

object_inj : (a b : Fields) → object a ≡ object b → a ≡ b
object_inj a b h = cc

pub merge_schemas-IsClean :
    (dst src : Fields) → IsClean dst → IsClean src → IsClean (merge_schemas dst src)
unfolding merge_schemas IsClean
merge_schemas-IsClean dst no_fields h hs = h
merge_schemas-IsClean dst (field k (object s) fs) h (g, (c, hs)) =
    merge_schemas-IsClean (set_field dst k (merge_value (lookup_field k dst) (object s))) fs
      (set_field-IsClean dst k _ h g (λ q.
        merge_value-IsCleanJson k (lookup_field k dst) (object s) (lookup_field-FoundClean k dst h)
          q (c q)
          (λ em sm e he.
            subst (λ x. IsClean (merge_schemas em x)) (object_inj s sm e)
              (merge_schemas-IsClean em s he (c q)))))
      hs
merge_schemas-IsClean dst (field k v fs) h (g, (c, hs)) =
    merge_schemas-IsClean (set_field dst k (merge_value (lookup_field k dst) v)) fs
      (set_field-IsClean dst k _ h g (λ q.
        merge_value-IsCleanJson k (lookup_field k dst) v (lookup_field-FoundClean k dst h) q (c q)
          (λ em sm e he. absurd cc)))
      hs

-- An entry whose value has been sanitized.
abbrev pub IsCleanEntry : Entry → Type 0
IsCleanEntry e = IsCleanJson e.cleaned

enum_verbatim : is_verbatim (codes "enum") ≡ false → ⊥
unfolding is_verbatim text_eq
enum_verbatim h = true≢false h

required_verbatim : (k : Text) → text_eq k (codes "required") ≡ true → is_verbatim k ≡ false → ⊥
unfolding is_verbatim
required_verbatim k t h = ground (arith, t, h)

required_all_of : (k : Text) → text_eq k (codes "required") ≡ true → is_all_of k ≡ false
required_all_of k t = ap is_all_of (text_eq→eq k (codes "required") t) ∙ unfold text_eq in refl

not_gone :
    (k : Text)
    → is_unsupported k ≡ false
    → text_eq k (codes "const") ≡ false
    → is_all_of k ≡ false
    → is_gone k ≡ false
unfolding is_gone is_unsupported
not_gone k u c a = ground arith

first_entry-IsClean :
    (enum : Bool) (result : Fields) (e : Entry)
    → IsClean result
    → IsCleanEntry e
    → IsClean (first_entry enum result e)
unfolding first_entry
first_entry-IsClean enum result e h c =
    if-intro IsClean (is_unsupported e.key) (λ t. h)
      (λ supported.
        if-intro IsClean (text_eq e.key (codes "const"))
          (λ t.
            if-intro IsClean enum (λ t'. h)
              (λ f.
                set_field-IsClean result (codes "enum") (one_item e.value) h
                  (unfold is_gone is_unsupported text_eq in refl) (λ q. absurd (enum_verbatim q))))
          (λ other.
            if-intro IsClean (text_eq e.key (codes "required"))
              (λ t.
                if-intro IsClean (is_empty_array e.value) (λ t'. h)
                  (λ f.
                    set_field-IsClean result e.key e.value h
                      (not_gone e.key supported other (required_all_of e.key t))
                      (λ q. absurd (required_verbatim e.key t q))))
              (λ f.
                if-intro IsClean (is_choice e.key || is_all_of e.key) (λ t'. h)
                  (λ plain.
                    set_field-IsClean result e.key e.cleaned h
                      (not_gone e.key supported other (ground (arith, plain))) (λ q. c)))))

pub first_pass-IsClean :
    (enum : Bool) (result : Fields) (es : List Entry)
    → IsClean result
    → All IsCleanEntry es
    → IsClean (first_pass enum result es)
unfolding first_pass
first_pass-IsClean enum result [] h c = h
first_pass-IsClean enum result (e ∷ es) h (c, cs) =
    first_pass-IsClean enum (first_entry enum result e) es (first_entry-IsClean enum result e h c)
      cs
