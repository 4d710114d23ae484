-- ===== src/Models/Resolve.antt =====
-- internal/models/models.go: Resolve, lookupMapping and ResolveKnown, over the effective mappings.
pub mod Upstream
pub mod Window
use claude_code_kiro_models.Models.Effort.{is_reasoning_model}
use claude_code_kiro_models.Models.Mapping.{
  Mapping, thinking_suffix, normalize_thinking_suffix, has_thinking_suffix, default_model,
  default_anthropic_model, default_context_window_size, thinking_context_window_size,
}
use claude_code_kiro_models.Prelude.Int.{ℤ, pos, negsuc, ltb_ℤ}
use claude_code_kiro_models.Prelude.{
  ◌++◌, Bool, true, false, not, ◌&&◌, ◌||◌, List, [], ◌∷◌, Option, none, some, Text, codes,
  if◌then◌else◌, is_empty, text_eq, starts_with, cut_suffix, has_suffix, trim_suffix, ◌==◌,
}

abbrev pub is_hit : Text → Mapping → Bool
is_hit model m = text_eq model m.anthropic || text_eq model m.kiro

-- The first tier.
unfoldable pub find_exact : List Mapping → Text → Option Mapping
find_exact [] model = none
find_exact (m ∷ ms) model =
    let rest = find_exact ms model in if is_hit model m then some m else rest

-- The second tier, which passes over reasoning models and says so.
unfoldable pub find_base : List Mapping → Text → Bool → Option Mapping × Bool
find_base [] model excluded = (none, excluded)
find_base (m ∷ ms) model excluded =
    let passed = find_base ms model true in
    let rest = find_base ms model excluded in
    if is_hit model m
    then if is_reasoning_model m.kiro then passed else (some m, excluded)
    else rest

-- `model`, `thinking`, the row and reasoningExcluded after both tiers.
pub record Lookup : Type 0 where
  pub model : Text
  pub thinking : Bool
  pub found : Option Mapping
  pub excluded : Bool

unfoldable pub second_tier : List Mapping → Text → Option Text → Lookup
second_tier ms model none = record {
  model = model;
  thinking = false;
  found = none;
  excluded = false;
}
second_tier ms model (some before) =
    let (found, excluded) = find_base ms before false in
    record { model = before; thinking = true; found = found; excluded = excluded }

unfoldable pub first_tier : List Mapping → Text → Option Mapping → Lookup
first_tier ms model (some m) = record {
  model = model;
  thinking = false;
  found = some m;
  excluded = false;
}
first_tier ms model none = second_tier ms model (cut_suffix thinking_suffix model)

unfoldable pub look_up : List Mapping → Text → Lookup
look_up ms model = first_tier ms model (find_exact ms model)

-- kiroModel and anthropicModel before the window is chosen.
unfoldable pub target : Lookup → Option Mapping → Text × Text
target l (some m) = (m.kiro, m.anthropic)
target l none =
    if starts_with l.model (codes "claude-") && not l.excluded
    then (l.model, l.model)
    else (default_model, default_anthropic_model)

-- matchedKiro1M, matchedWindowSize and matchedAnthropic keep their zero values without a row.
abbrev pub no_mapping : Mapping
no_mapping = record {
  anthropic = [];
  kiro = [];
  kiro_1m = [];
  context_window_size = pos 0;
  display_name = [];
}

abbrev pub matched : Option Mapping → Mapping
matched none = no_mapping
matched (some m) = m

-- The switch that picks the SKU and the window.
unfoldable pub route : Mapping → Text → Bool → Text × ℤ
route m kiro_model want_1m =
    if text_eq m.kiro_1m kiro_model
    then (kiro_model, thinking_context_window_size)
    else if want_1m && not (is_empty m.kiro_1m)
    then (m.kiro_1m, thinking_context_window_size)
    else if ltb_ℤ (pos 0) m.context_window_size
    then (kiro_model, m.context_window_size)
    else (kiro_model, default_context_window_size)

abbrev pub is_1m_window : ℤ → Bool
is_1m_window (pos n) = n == 1000000
is_1m_window (negsuc n) = false

unfoldable pub advertise : ℤ → Text → Text
advertise window anthropic_model =
    if is_1m_window window && not (has_suffix thinking_suffix anthropic_model)
    then anthropic_model ++ thinking_suffix
    else anthropic_model

pub record Resolution : Type 0 where
  pub kiro_model : Text
  pub thinking : Bool
  pub context_window_size : ℤ
  pub anthropic_model : Text

unfoldable pub routed : Lookup → Bool → Text × Text → Resolution
routed l context_1m (kiro_model, anthropic_model) =
    let m = matched l.found in
    let want_1m = context_1m || l.thinking || has_thinking_suffix m.anthropic in
    let (kiro, window) = route m kiro_model want_1m in
    if text_eq kiro_model (codes "auto")
    then record {
      kiro_model = codes "auto";
      thinking = false;
      context_window_size = pos 0;
      anthropic_model = trim_suffix thinking_suffix l.model;
    }
    else record {
      kiro_model = kiro;
      thinking = l.thinking;
      context_window_size = window;
      anthropic_model = advertise window anthropic_model;
    }

-- Resolve
unfoldable pub resolve : List Mapping → Text → Bool → Resolution
resolve ms model context_1m =
    let l = look_up ms (normalize_thinking_suffix model) in routed l context_1m (target l l.found)

-- lookupMapping's `find`: an Anthropic ID before a Kiro SKU.
unfoldable pub eligible : Bool → Mapping → Bool
eligible exclude_reasoning m = not exclude_reasoning || not (is_reasoning_model m.kiro)

unfoldable pub find_anthropic : List Mapping → Text → Bool → Option Mapping
find_anthropic [] candidate exclude = none
find_anthropic (m ∷ ms) candidate exclude =
    let rest = find_anthropic ms candidate exclude in
    if text_eq candidate m.anthropic && eligible exclude m then some m else rest

unfoldable pub find_kiro : List Mapping → Text → Bool → Option Mapping
find_kiro [] candidate exclude = none
find_kiro (m ∷ ms) candidate exclude =
    let rest = find_kiro ms candidate exclude in
    if text_eq candidate m.kiro && eligible exclude m then some m else rest

abbrev pub first_of {ℓ} : {A : Type ℓ} → Option A → Option A → Option A
first_of (some a) o = some a
first_of none o = o

unfoldable pub find : List Mapping → Text → Bool → Option Mapping
find ms candidate exclude =
    first_of (find_anthropic ms candidate exclude) (find_kiro ms candidate exclude)

abbrev pub wanting : Bool → Option Mapping → Option (Mapping × Bool)
wanting want none = none
wanting want (some m) = some (m, want)

unfoldable pub find_stripped : List Mapping → Option Text → Option (Mapping × Bool)
find_stripped ms none = none
find_stripped ms (some base) = wanting true (find ms base true)

-- lookupMapping: the row, and want1M.
unfoldable pub lookup_mapping : List Mapping → Text → Option (Mapping × Bool)
lookup_mapping ms model =
    let m = normalize_thinking_suffix model in
    first_of (wanting false (find ms m false)) (find_stripped ms (cut_suffix thinking_suffix m))

unfoldable pub known : Mapping × Bool → Text × Text
known (m, want_1m) = (
  if want_1m && not (is_empty m.kiro_1m) then m.kiro_1m else m.kiro,
  trim_suffix thinking_suffix (if is_empty m.anthropic then m.kiro else m.anthropic),
)

abbrev pub known_of : Option (Mapping × Bool) → Option (Text × Text)
known_of none = none
known_of (some r) = some (known r)

-- ResolveKnown: the Kiro SKU and the Anthropic ID.
unfoldable pub resolve_known : List Mapping → Text → Option (Text × Text)
resolve_known ms model = known_of (lookup_mapping ms model)

-- routes1M
unfoldable pub routes_1m : List Mapping → Text → Bool
routes_1m ms model = is_1m_window (resolve ms model false).context_window_size
