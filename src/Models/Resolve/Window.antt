-- ===== src/Models/Resolve/Window.antt =====
-- The window that Resolve reports, and ResolveKnown.
use claude_code_kiro_models.Models.Mapping.{
  Mapping, thinking_suffix, normalize_thinking_suffix, has_thinking_suffix,
}
use claude_code_kiro_models.Models.Resolve.{
  find_exact, Lookup, second_tier, first_tier, look_up, target, matched, route, routed, resolve,
  advertise, is_1m_window, Resolution,
}
use claude_code_kiro_models.Prelude.{
  Bool, true, false, List, ◌++◌, Option, none, some, Text, codes, ◌≡◌, refl, ap, ◌∙◌, if-intro,
  has_suffix, cut_suffix, text_eq, arith, has_suffix-append, Bool-cases, inl, inr, cut_suffix_sound,
}
use claude_code_kiro_models.Prelude.Int.{ℤ}

advertise-suffix :
    (window : ℤ) (id : Text)
    → is_1m_window window ≡ true
    → has_suffix thinking_suffix (advertise window id) ≡ true
unfolding advertise
advertise-suffix window id h = ground (arith, has_suffix-append thinking_suffix id)

abbrev Advertised : Resolution → Type 0
Advertised r =
    is_1m_window r.context_window_size ≡ true → has_suffix thinking_suffix r.anthropic_model ≡ true

routed-Advertised : (l : Lookup) (c : Bool) (t : Text × Text) → Advertised (routed l c t)
unfolding routed
routed-Advertised l c (k, a) =
    if-intro Advertised (text_eq k (codes "auto")) (λ t h. absurd (ground arith))
      (λ f h. advertise-suffix _ a h)

abbrev Asked : Text → Lookup → Type 0
Asked model l = l.thinking ≡ true → model ≡ l.model ++ thinking_suffix

second_tier-Asked :
    (ms : List Mapping) (model : Text) (cut : Option Text)
    → cut_suffix thinking_suffix model ≡ cut
    → Asked model (second_tier ms model cut)
unfolding second_tier
second_tier-Asked ms model none e h = absurd (ground arith)
second_tier-Asked ms model (some before) e h = cut_suffix_sound thinking_suffix model before e

first_tier-Asked :
    (ms : List Mapping) (model : Text) (o : Option Mapping) → Asked model (first_tier ms model o)
unfolding first_tier
first_tier-Asked ms model (some m) h = absurd (ground arith)
first_tier-Asked ms model none h =
    second_tier-Asked ms model (cut_suffix thinking_suffix model) refl h

-- The header changes neither thinking nor a window that is 1M without it.
route_widens :
    (m : Mapping) (k : Text) (want : Bool)
    → is_1m_window (route m k want).1 ≡ true
    → is_1m_window (route m k true).1 ≡ true
unfolding route
route_widens m k want h = ground arith

routed_widens :
    (l : Lookup) (t : Text × Text)
    → ((routed l true t).thinking ≡ (routed l false t).thinking)
      × (is_1m_window (routed l false t).context_window_size ≡ true
          → is_1m_window (routed l true t).context_window_size ≡ true)
unfolding routed
routed_widens l (k, a) = elim (Bool-cases (text_eq k (codes "auto"))) [
  | inl t ↦ rw t (refl, λ h. h)
  | inr f ↦ rw f (refl, λ h. route_widens (matched l.found) k _ h)
]

routed-thinking :
    (l : Lookup) (c : Bool) (t : Text × Text) → (routed l c t).thinking ≡ true → l.thinking ≡ true
unfolding routed
routed-thinking l c (k, a) =
    if-intro (λ (r : Resolution). r.thinking ≡ true → l.thinking ≡ true) (text_eq k (codes "auto"))
      (λ t h. absurd (ground arith)) (λ f h. h)

-- A model ID that Resolve answers with the 1M window ends in `[1m]`; thinking is only turned on
-- for a request whose model has that suffix; and the `context-1m` header does not change thinking,
-- nor takes the 1M window away.
pub resolve-window :
    (ms : List Mapping) (model : Text) (context_1m : Bool)
    → (is_1m_window (resolve ms model context_1m).context_window_size ≡ true
        → has_suffix thinking_suffix (resolve ms model context_1m).anthropic_model ≡ true)
      × (((resolve ms model context_1m).thinking ≡ true → has_thinking_suffix model ≡ true)
          × (((resolve ms model true).thinking ≡ (resolve ms model false).thinking)
              × (is_1m_window (resolve ms model false).context_window_size ≡ true
                  → is_1m_window (resolve ms model true).context_window_size ≡ true)))
unfolding resolve look_up has_thinking_suffix
resolve-window ms model context_1m =
    let n = normalize_thinking_suffix model in
    let l = look_up ms n in
    let asked = first_tier-Asked ms n (find_exact ms n) in
    (
      routed-Advertised l context_1m (target l l.found),
      (
        λ h.
            ap (has_suffix thinking_suffix) (asked (routed-thinking l context_1m _ h))
            ∙ has_suffix-append thinking_suffix l.model,
        routed_widens l (target l l.found),
      ),
    )
