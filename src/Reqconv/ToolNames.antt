-- ===== src/Reqconv/ToolNames.antt =====
-- internal/reqconv/tool_name_map.go: ToolNameMap, and cache_points.go: ApplyToolCachePoints. A name
-- is its runes.
pub mod RoundTrip
pub mod Bounds
use claude_code_kiro_models.Prelude.{lookup}
use claude_code_kiro_models.Prelude.{
  ℕ, ◌+◌, Bool, true, false, List, [], ◌∷◌, ◌++◌, Option, none, some, Text, codes, if◌then◌else◌,
  ltb, leb, take, text_eq,
}
use claude_code_kiro_models.Respconv.ToolCalls.{rune_len, byte_length}

-- The two maps; a new entry stands first.
pub record ToolNameMap : Type 0 where
  pub to_short : List (Text × Text)
  pub to_original : List (Text × Text)

abbrev pub new_tool_name_map : ToolNameMap
new_tool_name_map = record { to_short = []; to_original = [] }

abbrev pub max_tool_name_len : ℕ
max_tool_name_len = 64

-- The runes that fit in 50 bytes after `used` bytes.
unfoldable pub rune_prefix : ℕ → Text → Text
rune_prefix used [] = []
rune_prefix used (r ∷ s) =
    let rest = rune_prefix (used + rune_len r) s in
    if ltb 50 (used + rune_len r) then [] else r ∷ rest

-- `hex_digest` is the hexadecimal SHA-256 of a name.
module _ (hex_digest : Text → Text) where
  unfoldable pub short_name : Text → Text
  short_name name = rune_prefix 0 name ++ (codes "_" ++ take 13 (hex_digest name))

  unfoldable pub register : ToolNameMap → Text → Option Text → ToolNameMap × Text
  register m name (some short) = (m, short)
  register m name none =
      let short = short_name name in
      (
        record {
          to_short = (name, short) ∷ m.to_short;
          to_original = (short, name) ∷ m.to_original;
        },
        short,
      )

  -- Shorten
  unfoldable pub shorten : ToolNameMap → Text → ToolNameMap × Text
  shorten m name =
      if leb (byte_length name) max_tool_name_len
      then (m, name)
      else register m name (lookup name m.to_short)

  -- Shorten on one name after another.
  unfoldable pub shorten_all : ToolNameMap → List Text → ToolNameMap × List Text
  shorten_all m [] = (m, [])
  shorten_all m (n ∷ ns) =
      let r = shorten m n in let rest = shorten_all r.0 ns in (rest.0, r.1 ∷ rest.1)

abbrev pub or_name : Option Text → Text → Text
or_name none name = name
or_name (some original) name = original

-- Restore
unfoldable pub restore : ToolNameMap → Text → Text
restore m name = or_name (lookup name m.to_original) name
