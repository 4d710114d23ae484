-- ===== src/Reqconv/Tools/Offered.antt =====
-- What the tools of a request are offered as.
use claude_code_kiro_models.Prelude.{
  Bool, true, false, List, [], ◌∷◌, Option, some, Text, codes, ◌≡◌, refl, ◌∙◌, if-intro, arith,
  is_empty, All, map,
}
use claude_code_kiro_models.Reqconv.Dereference.Total.{dereference_schema_total}
use claude_code_kiro_models.Reqconv.Dereference.{crashes, lookup_ref, texts_of_fields}
use claude_code_kiro_models.Reqconv.Json.{string, Fields}
use claude_code_kiro_models.Reqconv.Schema.Root.{type_of, ensure_object_root-type}
use claude_code_kiro_models.Reqconv.Schema.{sanitize_json_schema, ensure_object_root}
use claude_code_kiro_models.Reqconv.ToolNames.RoundTrip.{wire, shorten_all-outs}
use claude_code_kiro_models.Reqconv.ToolNames.{ToolNameMap, new_tool_name_map, shorten, shorten_all}
use claude_code_kiro_models.Reqconv.Tools.{
  Tool, ToolEntry, ToolSpecification, apply_tool_cache_points, convert_tools, description_of,
}

-- No reference in the tool's schema panics.
abbrev pub IsSound : Tool → Type 0
IsSound t =
    All (λ r. crashes (lookup_ref t.input_schema r) ≡ false) (texts_of_fields t.input_schema)

abbrev pub tool_name : Tool → Text
tool_name t = t.name

abbrev pub is_marked : Tool → Bool
is_marked t = t.cache_control

-- The specifications among the entries, and for each whether a cache point comes next.
unfoldable pub specifications : List ToolEntry → List ToolSpecification
specifications [] = []
specifications (ToolEntry.specification s ∷ es) = s ∷ specifications es
specifications (_ ∷ es) = specifications es

abbrev pub spec_name : ToolSpecification → Text
spec_name s = s.name

abbrev pub starts_with_point : List ToolEntry → Bool
starts_with_point (ToolEntry.cache_point ∷ es) = true
starts_with_point _ = false

unfoldable pub marks : List ToolEntry → List Bool
marks [] = []
marks (ToolEntry.specification s ∷ es) = starts_with_point es ∷ marks es
marks (_ ∷ es) = marks es

-- It is described, and its schema is an object's.
abbrev pub IsCallable : ToolSpecification → Type 0
IsCallable s =
    (is_empty s.description ≡ false) × (type_of s.input_schema ≡ some (string (codes "object")))

module _ (hex_digest : Text → Text) where
  -- The entries are those of the tools, one by one.
  data AreOf : ToolNameMap → List Tool → List ToolEntry → Type 0 where
    ends : (names : ToolNameMap) → AreOf names [] []
    next :
        (names : ToolNameMap) (t : Tool) (ts : List Tool) (s : ToolSpecification)
        → (es : List ToolEntry) → s.name ≡ (shorten hex_digest names t.name).1
        → IsCallable s
        → AreOf (shorten hex_digest names t.name).0 ts es
        → AreOf names (t ∷ ts) (ToolEntry.specification s ∷ es)

  description_of-said : (t : Tool) → is_empty (description_of t) ≡ false
  description_of-said t = ground arith

  -- The specification of a tool whose references are resolved in `schema`.
  unfoldable spec_of : ToolNameMap → Tool → Fields → ToolSpecification
  spec_of names t schema = record {
    name = (shorten hex_digest names t.name).1;
    description = description_of t;
    input_schema = ensure_object_root (sanitize_json_schema schema);
  }

  Converts : ToolNameMap → List Tool → Option (ToolNameMap × List ToolEntry) → Type 0
  Converts names ts o = (r : ToolNameMap × List ToolEntry) × ((o ≡ some r) × AreOf names ts r.1)

  convert_tools-AreOf :
      (names : ToolNameMap) (ts : List Tool)
      → All IsSound ts
      → Converts names ts (convert_tools hex_digest names ts)
  unfolding convert_tools Converts spec_of
  convert_tools-AreOf names [] h = ((names, []), (refl, AreOf.ends names))
  convert_tools-AreOf names (t ∷ ts) (h, hs) =
      let (schema, found) = dereference_schema_total t.input_schema h in
      let (r, (converted, of_rest)) =
        convert_tools-AreOf (shorten hex_digest names t.name).0 ts hs in
      let s = spec_of names t schema in
      (
        (r.0, ToolEntry.specification s ∷ r.1),
        (
          rw found (rw converted refl),
          AreOf.next names t ts s r.1 refl
              (description_of-said t, ensure_object_root-type (sanitize_json_schema schema))
              of_rest,
        ),
      )

  no_point_first :
      (names : ToolNameMap) (ts : List Tool) (es : List ToolEntry)
      → AreOf names ts es
      → starts_with_point (apply_tool_cache_points ts es) ≡ false
  unfolding apply_tool_cache_points
  no_point_first names ts es (AreOf.ends _) = refl
  no_point_first names ts es (AreOf.next _ t later s entries same fine rest) = refl

  -- Points are passed over.
  marks-points :
      (names : ToolNameMap) (ts : List Tool) (es : List ToolEntry)
      → AreOf names ts es
      → marks (apply_tool_cache_points ts es) ≡ map is_marked ts
  unfolding apply_tool_cache_points marks
  marks-points names ts es (AreOf.ends _) = refl
  marks-points names ts es (AreOf.next _ t later s entries same fine rest) =
      ground (arith, no_point_first _ later entries rest, marks-points _ later entries rest)

  specifications-names :
      (names : ToolNameMap) (ts : List Tool) (es : List ToolEntry)
      → AreOf names ts es
      → map spec_name (specifications (apply_tool_cache_points ts es))
        ≡ (shorten_all hex_digest names (map tool_name ts)).1
  unfolding apply_tool_cache_points specifications shorten_all
  specifications-names names ts es (AreOf.ends _) = refl
  specifications-names names ts es (AreOf.next _ t later s entries same fine rest) =
      ground (arith, specifications-names _ later entries rest)

  specifications-IsCallable :
      (names : ToolNameMap) (ts : List Tool) (es : List ToolEntry)
      → AreOf names ts es
      → All IsCallable (specifications (apply_tool_cache_points ts es))
  unfolding apply_tool_cache_points specifications
  specifications-IsCallable names ts es (AreOf.ends _) = tt
  specifications-IsCallable names ts es (AreOf.next _ t later s entries same fine rest) =
      let callable = specifications-IsCallable _ later entries rest in
      (
        fine,
        if-intro (λ (xs : List ToolEntry). All IsCallable (specifications xs)) t.cache_control
            (λ _. callable) (λ _. callable),
      )

  -- If no reference in their schemas panics, the tools are converted. With the cache points put in,
  -- the specifications have the upstream names of the tools, in their order, each has a description
  -- and a schema of type `object`, and a cache point follows those with cache control and no others.
  pub convert_tools-offered :
      (ts : List Tool)
      → All IsSound ts
      → (r : ToolNameMap × List ToolEntry) × (convert_tools hex_digest new_tool_name_map ts
          ≡ some r)
        × (map spec_name (specifications (apply_tool_cache_points ts r.1))
            ≡ map (wire hex_digest) (map tool_name ts))
        × All IsCallable (specifications (apply_tool_cache_points ts r.1))
        × (marks (apply_tool_cache_points ts r.1) ≡ map is_marked ts)
  unfolding Converts
  convert_tools-offered ts h =
      let (r, (converted, of_tools)) = convert_tools-AreOf new_tool_name_map ts h in
      (
        r,
        converted,
        specifications-names new_tool_name_map ts r.1 of_tools
            ∙ shorten_all-outs hex_digest (map tool_name ts),
        specifications-IsCallable new_tool_name_map ts r.1 of_tools,
        marks-points new_tool_name_map ts r.1 of_tools,
      )
