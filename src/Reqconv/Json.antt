-- ===== src/Reqconv/Json.antt =====
-- Decoded JSON: any, []any and map[string]any. A map is its keys, each once, and their values; a
-- number is its text.
use claude_code_kiro_models.Prelude.{Bool, Option, none, some, Text, if◌then◌else◌, text_eq}

mutual
  pub data Json : Type 0 where
    null : Json
    boolean : Bool → Json
    number string : Text → Json
    array : Items → Json
    object : Fields → Json

  pub data Items : Type 0 where
    no_items : Items
    item : Json → Items → Items

  pub data Fields : Type 0 where
    no_fields : Fields
    field : Text → Json → Fields → Fields

unfoldable pub lookup_field : Text → Fields → Option Json
lookup_field k no_fields = none
lookup_field k (field j v fs) = if text_eq j k then some v else lookup_field k fs

-- `m[k] = v`
unfoldable pub set_field : Fields → Text → Json → Fields
set_field no_fields k v = field k v no_fields
set_field (field j u fs) k v =
    let rest = set_field fs k v in if text_eq j k then field j v fs else field j u rest

-- maps.Copy
unfoldable pub copy_fields : Fields → Fields → Fields
copy_fields dst no_fields = dst
copy_fields dst (field k v fs) = copy_fields (set_field dst k v) fs

unfoldable pub append_items : Items → Items → Items
append_items no_items js = js
append_items (item i is) js = item i (append_items is js)
