-- ===== src/Reqconv/Schema/Root.antt =====
-- The root of the schema that a tool is sent with.
use claude_code_kiro_models.Prelude.{
  Option, none, some, Text, codes, ◌≡◌, refl, if-intro, is_empty, text_eq, text_eq_refl, text_eq→eq,
  ap, arith,
}
use claude_code_kiro_models.Reqconv.Json.{
  Json, null, boolean, number, string, array, object, Fields, no_fields, field, lookup_field,
  set_field,
}
use claude_code_kiro_models.Reqconv.Schema.{type_text, object_root, ensure_object_root}

pub lookup_field-set_field :
    (fs : Fields) (k : Text) (v : Json) → lookup_field k (set_field fs k v) ≡ some v
unfolding lookup_field set_field
lookup_field-set_field no_fields k v = ground (arith, text_eq_refl k)
lookup_field-set_field (field j u fs) k v = ground (arith, lookup_field-set_field fs k v)

abbrev pub type_of : Fields → Option Json
type_of fs = lookup_field (codes "type") fs

type_text-string :
    (o : Option Json) → type_text o ≡ codes "object" → o ≡ some (string (codes "object"))
type_text-string (some (string t)) h = ap (λ (x : Text). some (string x)) h
type_text-string (some null) h = ground arith
type_text-string (some (boolean b)) h = ground arith
type_text-string (some (number t)) h = ground arith
type_text-string (some (array is)) h = ground arith
type_text-string (some (object fs)) h = ground arith
type_text-string none h = ground arith

-- The root's type is `object`, or the whole schema stands as the property `input` of an object
-- whose only properties it is.
object_root-type :
    (fs : Fields)
    → type_of (object_root fs (type_text (type_of fs))) ≡ some (string (codes "object"))
unfolding object_root
object_root-type fs =
    if-intro (λ r. type_of r ≡ some (string (codes "object")))
      (text_eq (type_text (type_of fs)) (codes "object"))
      (λ t. type_text-string (type_of fs) (text_eq→eq (type_text (type_of fs)) (codes "object") t))
      (λ f.
        if-intro (λ r. type_of r ≡ some (string (codes "object")))
          (is_empty (type_text (type_of fs)))
          (λ t. lookup_field-set_field fs (codes "type") (string (codes "object")))
          (λ f'. unfold lookup_field text_eq in refl))

-- The schema that EnsureObjectRoot returns has the type `object`, for every schema.
pub ensure_object_root-type :
    (fs : Fields) → type_of (ensure_object_root fs) ≡ some (string (codes "object"))
unfolding ensure_object_root
ensure_object_root-type no_fields = unfold lookup_field text_eq in refl
ensure_object_root-type (field k v fs) = object_root-type (field k v fs)
