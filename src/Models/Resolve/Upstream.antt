-- ===== src/Models/Resolve/Upstream.antt =====
-- The Kiro SKU that Resolve sends upstream.
use claude_code_kiro_models.Models.Mapping.{
  Mapping, thinking_suffix, normalize_thinking_suffix, default_model,
}
use claude_code_kiro_models.Models.Resolve.{
  is_reasoning_model, is_hit, find_exact, find_base, Lookup, second_tier, first_tier, look_up,
  target, no_mapping, matched, route, routed, resolve, Resolution,
}
use claude_code_kiro_models.Prelude.{
  or_else, Bool, true, false, List, [], ◌∷◌, Option, none, some, Text, codes, ◌≡◌, refl, All,
  if-intro, has_suffix, trim_suffix, cut_suffix, text_eq, arith,
}

-- No SKU of the row ends in `[1m]`.
abbrev pub IsClean : Mapping → Type 0
IsClean m =
    (has_suffix thinking_suffix m.kiro ≡ false) × (has_suffix thinking_suffix m.kiro_1m ≡ false)

abbrev pub Found : (Mapping → Type 0) → Option Mapping → Type 0
Found P none = Unit
Found P (some m) = P m

pub find_exact-Found :
    (P : Mapping → Type 0) (ms : List Mapping) (model : Text)
    → All P ms
    → Found P (find_exact ms model)
unfolding find_exact
find_exact-Found P [] model h = tt
find_exact-Found P (m ∷ ms) model (hm, h) =
    if-intro (Found P) (is_hit model m) (λ t. hm) (λ f. find_exact-Found P ms model h)

pub find_base-Found :
    (P : Mapping → Type 0) (ms : List Mapping) (model : Text) (excluded : Bool)
    → All P ms
    → Found P (find_base ms model excluded).0
unfolding find_base
find_base-Found P [] model excluded h = tt
find_base-Found P (m ∷ ms) model excluded (hm, h) =
    if-intro (λ (r : Option Mapping × Bool). Found P r.0) (is_hit model m)
      (λ t.
        if-intro (λ (r : Option Mapping × Bool). Found P r.0) (is_reasoning_model m.kiro)
          (λ t'. find_base-Found P ms model true h) (λ f'. hm))
      (λ f. find_base-Found P ms model excluded h)

-- A clean row, or without a row a model with no suffix.
abbrev Settled : Text → Option Mapping → Type 0
Settled model none = has_suffix thinking_suffix model ≡ false
Settled model (some m) = IsClean m

second_tier-Settled :
    (ms : List Mapping) (model : Text) (cut : Option Text)
    → All IsClean ms
    → cut_suffix thinking_suffix model ≡ cut
    → has_suffix thinking_suffix (or_else cut model) ≡ false
    → Settled (second_tier ms model cut).model (second_tier ms model cut).found
unfolding second_tier
second_tier-Settled ms model none h e hs = hs
second_tier-Settled ms model (some before) h e hs =
    settle before (find_base ms before false).0 (find_base-Found IsClean ms before false h) hs
  where
    settle :
        (t : Text) (o : Option Mapping)
        → Found IsClean o
        → has_suffix thinking_suffix t ≡ false
        → Settled t o
    settle t none ho ht = ht
    settle t (some m) ho ht = ho

first_tier-Settled :
    (ms : List Mapping) (model : Text) (o : Option Mapping)
    → All IsClean ms
    → Found IsClean o
    → has_suffix thinking_suffix (trim_suffix thinking_suffix model) ≡ false
    → Settled (first_tier ms model o).model (first_tier ms model o).found
unfolding first_tier trim_suffix
first_tier-Settled ms model (some m) h ho hs = ho
first_tier-Settled ms model none h ho hs =
    second_tier-Settled ms model (cut_suffix thinking_suffix model) h refl hs

route-IsClean :
    (m : Mapping) (kiro_model : Text) (want : Bool)
    → IsClean m
    → has_suffix thinking_suffix kiro_model ≡ false
    → has_suffix thinking_suffix (route m kiro_model want).0 ≡ false
unfolding route
route-IsClean m kiro_model want (hk, h1) h = ground arith

constant_clean : has_suffix thinking_suffix default_model ≡ false
unfolding has_suffix cut_suffix text_eq
constant_clean = refl

auto_clean : has_suffix thinking_suffix (codes "auto") ≡ false
unfolding has_suffix cut_suffix text_eq
auto_clean = refl

no_mapping-IsClean : IsClean no_mapping
unfolding has_suffix cut_suffix
no_mapping-IsClean = (refl, refl)

target-IsClean :
    (l : Lookup) (o : Option Mapping)
    → Settled l.model o
    → (has_suffix thinking_suffix (target l o).0 ≡ false) × IsClean (matched o)
unfolding target
target-IsClean l (some m) (hk, h1) = (hk, (hk, h1))
target-IsClean l none h = (ground (arith, constant_clean), no_mapping-IsClean)

routed-clean :
    (l : Lookup) (context_1m : Bool)
    → Settled l.model l.found
    → has_suffix thinking_suffix (routed l context_1m (target l l.found)).kiro_model ≡ false
unfolding routed
routed-clean l context_1m h =
    let (hk, hm) = target-IsClean l l.found h in
    if-intro (λ (r : Resolution). has_suffix thinking_suffix r.kiro_model ≡ false)
      (text_eq (target l l.found).0 (codes "auto")) (λ t. auto_clean)
      (λ f. route-IsClean (matched l.found) (target l l.found).0 _ hm hk)

-- Where no SKU in the tables ends in `[1m]`, the SKU that Resolve sends upstream does not either,
-- for every request whose model has the suffix, in either case, at most once.
pub resolve-clean :
    (ms : List Mapping) (model : Text) (context_1m : Bool)
    → All IsClean ms
    → has_suffix thinking_suffix (trim_suffix thinking_suffix (normalize_thinking_suffix model))
      ≡ false
    → has_suffix thinking_suffix (resolve ms model context_1m).kiro_model ≡ false
unfolding resolve look_up
resolve-clean ms model context_1m h hs =
    let n = normalize_thinking_suffix model in
    routed-clean (look_up ms n) context_1m
      (first_tier-Settled ms n (find_exact ms n) h (find_exact-Found IsClean ms n h) hs)
