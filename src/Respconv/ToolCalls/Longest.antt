-- ===== src/Respconv/ToolCalls/Longest.antt =====
-- One call for each id, the longest.
use text.Mathlib.Text.{◌==◌ as str_eq}
use claude_code_kiro_models.Prelude.{
  subst, ◌≤◌, List, [], ◌∷◌, String, ◌≡◌, ◌≢◌, inl, inr, refl, sym, ◌∙◌, All, InList, if-intro,
  arith, str_eq→eq, str_eq_differs,
}
use claude_code_kiro_models.Respconv.State.{ToolCall}
use claude_code_kiro_models.Respconv.ToolCalls.{byte_length, longer_of, keep_longest, dedupe_by_id}

abbrev pub HasOtherId : ToolCall → ToolCall → Type 0
HasOtherId x y = y.id ≢ x.id

unfoldable pub DistinctIds : List ToolCall → Type 0
DistinctIds [] = Unit
DistinctIds (x ∷ xs) = All (HasOtherId x) xs × DistinctIds xs

longer_of-All : (P : ToolCall → Type 0) (x c : ToolCall) → P x → P c → P (longer_of x c)
unfolding longer_of
longer_of-All P x c px pc = if-intro P _ (λ t. pc) (λ f. px)

keep_longest-All :
    (P : ToolCall → Type 0) (xs : List ToolCall) (c : ToolCall)
    → All P xs
    → P c
    → All P (keep_longest xs c)
unfolding keep_longest
keep_longest-All P [] c h pc = (pc, tt)
keep_longest-All P (x ∷ xs) c (px, h) pc =
    if-intro (All P) (str_eq x.id c.id) (λ t. (longer_of-All P x c px pc, h))
      (λ f. (px, keep_longest-All P xs c h pc))

keep_longest-DistinctIds :
    (xs : List ToolCall) (c : ToolCall) → DistinctIds xs → DistinctIds (keep_longest xs c)
unfolding keep_longest DistinctIds
keep_longest-DistinctIds [] c h = (tt, tt)
keep_longest-DistinctIds (x ∷ xs) c (hx, h) =
    if-intro DistinctIds (str_eq x.id c.id)
      (λ t. (
        longer_of-All (λ y. All (HasOtherId y) xs) x c hx
            (subst (λ (i : String). All (λ y. y.id ≢ i) xs) (str_eq→eq x.id c.id t) hx),
        h,
      ))
      (λ f. (
        keep_longest-All (HasOtherId x) xs c hx (λ e. str_eq_differs x.id c.id f (sym e)),
        keep_longest-DistinctIds xs c h,
      ))

pub dedupe_by_id-DistinctIds :
    (kept cs : List ToolCall) → DistinctIds kept → DistinctIds (dedupe_by_id kept cs)
unfolding dedupe_by_id
dedupe_by_id-DistinctIds kept [] h = h
dedupe_by_id-DistinctIds kept (c ∷ cs) h =
    dedupe_by_id-DistinctIds (keep_longest kept c) cs (keep_longest-DistinctIds kept c h)

pub dedupe_by_id-All :
    (P : ToolCall → Type 0) (kept cs : List ToolCall)
    → All P kept
    → All P cs
    → All P (dedupe_by_id kept cs)
unfolding dedupe_by_id
dedupe_by_id-All P kept [] h hs = h
dedupe_by_id-All P kept (c ∷ cs) h (hc, hs) =
    dedupe_by_id-All P (keep_longest kept c) cs (keep_longest-All P kept c h hc) hs

-- A call of the same id that is at least as long.
unfoldable pub Outlasts : ToolCall → ToolCall → Type 0
Outlasts c x = (x.id ≡ c.id) × (byte_length c.input ≤ byte_length x.input)

abbrev pub IsKept : ToolCall → List ToolCall → Type 0
IsKept c xs = (x : ToolCall) × (InList x xs × Outlasts c x)

longer_of-Outlasts :
    (x c : ToolCall) → x.id ≡ c.id → Outlasts c (longer_of x c) × Outlasts x (longer_of x c)
unfolding longer_of Outlasts
longer_of-Outlasts x c e = ground arith

Outlasts-trans : (a b c : ToolCall) → Outlasts a b → Outlasts b c → Outlasts a c
unfolding Outlasts
Outlasts-trans a b c (e, l) (f, m) = (f ∙ e, omega arith)

Outlasts-refl : (a : ToolCall) → Outlasts a a
unfolding Outlasts
Outlasts-refl a = (refl, omega arith)

keep_longest-new : (xs : List ToolCall) (c : ToolCall) → IsKept c (keep_longest xs c)
unfolding keep_longest
keep_longest-new [] c = (c, (inl refl, Outlasts-refl c))
keep_longest-new (x ∷ xs) c =
    if-intro (IsKept c) (str_eq x.id c.id)
      (λ t. (longer_of x c, (inl refl, (longer_of-Outlasts x c (str_eq→eq x.id c.id t)).0)))
      (λ f. let (y, (m, o)) = keep_longest-new xs c in (y, (inr m, o)))

-- What is kept is kept, or gives way to a longer call of its id.
keep_longest-old :
    (xs : List ToolCall) (c y : ToolCall) → InList y xs → IsKept y (keep_longest xs c)
unfolding keep_longest
keep_longest-old [] c y h = absurd h
keep_longest-old (x ∷ xs) c y (inl e) =
    if-intro (IsKept y) (str_eq x.id c.id)
      (λ t. (
        longer_of x c,
        (
          inl refl,
          subst (λ z. Outlasts z (longer_of x c)) (sym e)
              (longer_of-Outlasts x c (str_eq→eq x.id c.id t)).1,
        ),
      ))
      (λ f. (y, (inl e, Outlasts-refl y)))
keep_longest-old (x ∷ xs) c y (inr m) =
    if-intro (IsKept y) (str_eq x.id c.id) (λ t. (y, (inr m, Outlasts-refl y)))
      (λ f. let (z, (mz, o)) = keep_longest-old xs c y m in (z, (inr mz, o)))

dedupe_by_id-old :
    (kept cs : List ToolCall) (y : ToolCall) → InList y kept → IsKept y (dedupe_by_id kept cs)
unfolding dedupe_by_id
dedupe_by_id-old kept [] y h = (y, (h, Outlasts-refl y))
dedupe_by_id-old kept (c ∷ cs) y h =
    let (z, (mz, o)) = keep_longest-old kept c y h in
    let (w, (mw, p)) = dedupe_by_id-old (keep_longest kept c) cs z mz in
    (w, (mw, Outlasts-trans y z w o p))

pub dedupe_by_id-IsKept :
    (kept cs : List ToolCall) (c : ToolCall) → InList c cs → IsKept c (dedupe_by_id kept cs)
unfolding dedupe_by_id
dedupe_by_id-IsKept kept [] c h = absurd h
dedupe_by_id-IsKept kept (d ∷ cs) c (inl e) =
    let (z, (mz, o)) = keep_longest-new kept d in
    let (w, (mw, p)) = dedupe_by_id-old (keep_longest kept d) cs z mz in
    (w, (mw, subst (λ y. Outlasts y w) (sym e) (Outlasts-trans d z w o p)))
dedupe_by_id-IsKept kept (d ∷ cs) c (inr m) = dedupe_by_id-IsKept (keep_longest kept d) cs c m
