-- ===== src/Reqconv/Tools/Promotion.antt =====
-- Which tools a search context holds.
use mathlib.Core.List.{Perm}
use mathlib.Core.List.{perm_middle}
use mathlib.Core.List.Perm
use claude_code_kiro_models.Prelude.{
  true, false, List, [], ◌∷◌, ◌++◌, Option, none, some, Text, ◌≡◌, refl, ap, subst, if◌then◌else◌,
  if-intro, arith, text_eq, lookup, All, Bool-cases, Option-cases, inl, inr, append_assoc,
  append-nil,
}
use claude_code_kiro_models.Reqconv.Tools.{
  Tool, Context, without, is_tool_search_tool, search_tool, sort_tool, sort_tools, new_context,
  empty_context, promote_found, promote_tools,
}
use claude_code_kiro_models.Reqconv.Tools.Keys.{
  values, Lacks, AreKeys, without_lacking, without-All, without-Lacks, without-AreKeys,
  lookup_lacking, values-without, lacking_lookup,
}

abbrev pub all_tools : Context → List Tool
all_tools c = c.active_tools ++ values c.deferred_tools

promote_found-Perm :
    (c : Context) (name : Text) (o : Option Tool)
    → AreKeys c.deferred_tools
    → lookup name c.deferred_tools ≡ o
    → Perm (all_tools (promote_found c name o)) (all_tools c)
unfolding promote_found
promote_found-Perm c name none h found = Perm.refl (all_tools c)
promote_found-Perm c name (some t) h found =
    rw (append_assoc c.active_tools (t ∷ []) (values (without name c.deferred_tools)))
      (Perm.append_left c.active_tools (Perm.symm (values-without name c.deferred_tools t h found)))

promote_found-AreKeys :
    (c : Context) (name : Text) (o : Option Tool)
    → AreKeys c.deferred_tools
    → AreKeys (promote_found c name o).deferred_tools
unfolding promote_found
promote_found-AreKeys c name none h = h
promote_found-AreKeys c name (some t) h = without-AreKeys name c.deferred_tools h

promote_tools-Perm :
    (c : Context) (names : List Text)
    → AreKeys c.deferred_tools
    → Perm (all_tools (promote_tools c names)) (all_tools c)
unfolding promote_tools
promote_tools-Perm c [] h = Perm.refl (all_tools c)
promote_tools-Perm c (name ∷ names) h =
    let o = lookup name c.deferred_tools in
    Perm.trans
      (promote_tools-Perm (promote_found c name o) names (promote_found-AreKeys c name o h))
      (promote_found-Perm c name o h refl)

promote_found-Lacks :
    (k : Text) (c : Context) (name : Text) (o : Option Tool)
    → Lacks k c.deferred_tools
    → Lacks k (promote_found c name o).deferred_tools
unfolding promote_found
promote_found-Lacks k c name none h = h
promote_found-Lacks k c name (some t) h =
    without-All (λ e. text_eq e.0 k ≡ false) name c.deferred_tools h

promote_tools-Lacks :
    (k : Text) (c : Context) (names : List Text)
    → Lacks k c.deferred_tools
    → Lacks k (promote_tools c names).deferred_tools
unfolding promote_tools
promote_tools-Lacks k c [] h = h
promote_tools-Lacks k c (name ∷ names) h =
    let o = lookup name c.deferred_tools in
    promote_tools-Lacks k (promote_found c name o) names (promote_found-Lacks k c name o h)

promoted-Lacks :
    (c : Context) (name : Text) (o : Option Tool)
    → lookup name c.deferred_tools ≡ o
    → Lacks name (promote_found c name o).deferred_tools
unfolding promote_found
promoted-Lacks c name none h = lacking_lookup name c.deferred_tools h
promoted-Lacks c name (some t) h = without-Lacks name c.deferred_tools

-- None of the names is deferred any more.
abbrev pub NoneDeferred : List Text → Context → Type 0
NoneDeferred names c = All (λ name. lookup name c.deferred_tools ≡ none) names

promote_tools-NoneDeferred :
    (c : Context) (names : List Text) → NoneDeferred names (promote_tools c names)
unfolding promote_tools
promote_tools-NoneDeferred c [] = tt
promote_tools-NoneDeferred c (name ∷ names) =
    let o = lookup name c.deferred_tools in
    (
      lookup_lacking name _
          (promote_tools-Lacks name (promote_found c name o) names (promoted-Lacks c name o refl)),
      promote_tools-NoneDeferred (promote_found c name o) names,
    )

-- The tools that are no search tools.
unfoldable pub ordinary : List Tool → List Tool
ordinary [] = []
ordinary (t ∷ ts) = if is_tool_search_tool t then ordinary ts else t ∷ ordinary ts

-- No two tools have the same name.
abbrev pub AreNamed : List Tool → Type 0
AreNamed [] = Unit
AreNamed (t ∷ ts) = All (λ u. text_eq t.name u.name ≡ false) ts × AreNamed ts

abbrev AreNew : Context → List Tool → Type 0
AreNew c = All (λ u. Lacks u.name c.deferred_tools)

sort_tool_search : (c : Context) (t : Tool) → is_tool_search_tool t ≡ true → sort_tool c t ≡ c
unfolding sort_tool
sort_tool_search c t h = rw h refl

sort_tool-Perm :
    (c : Context) (t : Tool)
    → is_tool_search_tool t ≡ false
    → Lacks t.name c.deferred_tools
    → Perm (all_tools (sort_tool c t)) (t ∷ all_tools c)
unfolding sort_tool
sort_tool-Perm c t h lacks =
    let m = c.deferred_tools in
    rw h (
      if-intro (λ (d : Context). Perm (all_tools d) (t ∷ all_tools c)) t.defer_loading
        (λ _. rw (without_lacking t.name m lacks) (perm_middle c.active_tools (values m)))
        (λ _.
          rw (append_assoc c.active_tools (t ∷ []) (values m))
            (perm_middle c.active_tools (values m))))

sort_tool-AreKeys :
    (c : Context) (t : Tool) → AreKeys c.deferred_tools → AreKeys (sort_tool c t).deferred_tools
unfolding sort_tool
sort_tool-AreKeys c t h =
    if-intro (λ (d : Context). AreKeys d.deferred_tools) (is_tool_search_tool t) (λ _. h)
      (λ _.
        if-intro (λ (d : Context). AreKeys d.deferred_tools) t.defer_loading
          (λ _. (without-Lacks t.name c.deferred_tools, without-AreKeys t.name c.deferred_tools h))
          (λ _. h))

sort_tools-AreKeys :
    (c : Context) (ts : List Tool)
    → AreKeys c.deferred_tools
    → AreKeys (sort_tools c ts).deferred_tools
unfolding sort_tools
sort_tools-AreKeys c [] h = h
sort_tools-AreKeys c (t ∷ ts) h = sort_tools-AreKeys (sort_tool c t) ts (sort_tool-AreKeys c t h)

sort_tool-Lacks :
    (c : Context) (t : Tool) (k : Text)
    → text_eq t.name k ≡ false
    → Lacks k c.deferred_tools
    → Lacks k (sort_tool c t).deferred_tools
unfolding sort_tool
sort_tool-Lacks c t k other h =
    if-intro (λ (d : Context). Lacks k d.deferred_tools) (is_tool_search_tool t) (λ _. h)
      (λ _.
        if-intro (λ (d : Context). Lacks k d.deferred_tools) t.defer_loading
          (λ _. (other, without-All (λ e. text_eq e.0 k ≡ false) t.name c.deferred_tools h))
          (λ _. h))

sort_tool-AreNew :
    (c : Context) (t : Tool) (ts : List Tool)
    → All (λ u. text_eq t.name u.name ≡ false) ts
    → AreNew c ts
    → AreNew (sort_tool c t) ts
sort_tool-AreNew c t [] others h = tt
sort_tool-AreNew c t (u ∷ ts) (other, others) (h, hs) =
    (sort_tool-Lacks c t u.name other h, sort_tool-AreNew c t ts others hs)

sort_tools-Perm :
    (c : Context) (ts : List Tool)
    → AreNamed ts
    → AreNew c ts
    → Perm (all_tools (sort_tools c ts)) (ordinary ts ++ all_tools c)
unfolding sort_tools ordinary
sort_tools-Perm c [] named new = Perm.refl (all_tools c)
sort_tools-Perm c (t ∷ ts) (others, named) (lacks, new) =
    let sorted = sort_tools-Perm (sort_tool c t) ts named (sort_tool-AreNew c t ts others new) in
    elim (Bool-cases (is_tool_search_tool t)) [
      | inl searches ↦
          let same : all_tools (sort_tool c t) ≡ all_tools c =
            ap (λ (d : Context). all_tools d) (sort_tool_search c t searches) in
          rw searches (
            subst (λ xs. Perm (all_tools (sort_tools (sort_tool c t) ts)) (ordinary ts ++ xs)) same
              sorted)
      | inr plain ↦ rw plain (
          Perm.trans sorted (
            Perm.trans (Perm.append_left (ordinary ts) (sort_tool-Perm c t plain lacks))
              (perm_middle (ordinary ts) (all_tools c))))
    ]

all_new : (t : Tool) (ts : List Tool) → AreNew (empty_context t) ts
all_new t [] = tt
all_new t (u ∷ ts) = (tt, all_new t ts)

-- If no two tools have the same name, a search context holds the tools of the request, less the
-- search tools, each once, active or deferred, whatever tools are promoted; and no tool that is
-- promoted is deferred any more.
pub promote_tools-kept :
    (tools : List Tool) (c : Context) (names : List Text)
    → AreNamed tools
    → new_context tools ≡ some c
    → Perm (all_tools (promote_tools c names)) (ordinary tools)
      × NoneDeferred names (promote_tools c names)
unfolding new_context
promote_tools-kept tools c names named built = elim (Option-cases (search_tool tools)) [
  | inl missing ↦ absurd (ground (arith, built, missing))
  | inr (t, found) ↦
      let start = empty_context t in
      let same : sort_tools start tools ≡ c = ground (arith, built, found) in
      let sorted = sort_tools-Perm start tools named (all_new t tools) in
      let kept : Perm (all_tools c) (ordinary tools) =
        subst (λ d. Perm (all_tools d) (ordinary tools)) same
          (subst (Perm (all_tools (sort_tools start tools))) (append-nil (ordinary tools))
            sorted) in
      let keys : AreKeys c.deferred_tools =
        subst (λ (d : Context). AreKeys d.deferred_tools) same
          (sort_tools-AreKeys start tools tt) in
      (Perm.trans (promote_tools-Perm c names keys) kept, promote_tools-NoneDeferred c names)
]
