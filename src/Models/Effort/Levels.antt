-- ===== src/Models/Effort/Levels.antt =====
-- The effort that is sent against the levels of the model.
use claude_code_kiro_models.Models.Effort.{
  is_ranked, last_of, clamp_effort, levels_of, effort_capabilities, resolve_effort,
}
use claude_code_kiro_models.Prelude.{contains, lookup}
use claude_code_kiro_models.Prelude.{
  ◌≢◌, true≢false, sym, true, false, List, [], ◌∷◌, Text, ◌≡◌, ◌⊎◌, inl, inr, refl, if-intro,
  is_empty, text_eq_refl, arith,
}

contains-last_of : (t : Text) (ts : List Text) → contains (t ∷ ts) (last_of (t ∷ ts)) ≡ true
unfolding contains
contains-last_of t [] = ground (arith, text_eq_refl t)
contains-last_of t (u ∷ ts) = ground (arith, contains-last_of u ts)

-- The levels that the model `kiro_model` has.
abbrev pub levels_for : List (Text × List Text) → Text → List Text
levels_for efforts kiro_model =
    levels_of (lookup kiro_model effort_capabilities) (lookup kiro_model efforts)

-- Nothing is sent, or the level asked for if the model has it, or the model's highest level for a
-- ranked one that it has not.
abbrev pub IsSent : List Text → Text → Text → Type 0
IsSent levels requested sent =
    (sent ≡ [])
    ⊎ ((contains levels sent ≡ true)
        × ((sent ≡ requested)
            ⊎ ((contains levels requested ≡ false)
                × ((is_ranked requested ≡ true) × (sent ≡ last_of levels)))))

clamp_effort-IsSent :
    (levels : List Text) (requested : Text)
    → IsSent levels requested (clamp_effort levels requested)
unfolding clamp_effort
clamp_effort-IsSent [] requested = inl refl
clamp_effort-IsSent (t ∷ ts) requested =
    if-intro (IsSent (t ∷ ts) requested) (contains (t ∷ ts) requested) (λ h. inr (h, inl refl))
      (λ f.
        if-intro (IsSent (t ∷ ts) requested) (is_ranked requested)
          (λ r. inr (contains-last_of t ts, inr (f, (r, refl)))) (λ r. inl refl))

-- ResolveEffort sends no effort, or one of the levels that the model lists: the one that was asked
-- for, or the last one if a ranked level was asked for that the model does not list.
pub resolve_effort-IsSent :
    (efforts : List (Text × List Text)) (kiro_model requested : Text)
    → IsSent (levels_for efforts kiro_model) requested (resolve_effort efforts kiro_model requested)
unfolding resolve_effort
resolve_effort-IsSent efforts kiro_model requested =
    if-intro (IsSent (levels_for efforts kiro_model) requested) (is_empty requested) (λ h. inl refl)
      (λ f. clamp_effort-IsSent (levels_for efforts kiro_model) requested)

clamp_effort_listed :
    (levels : List Text) (requested : Text)
    → contains levels requested ≡ true
    → clamp_effort levels requested ≡ requested
unfolding clamp_effort contains
clamp_effort_listed [] requested h = absurd (true≢false (sym h))
clamp_effort_listed (t ∷ ts) requested h = ground (arith, h)

-- ResolveEffort sends a level that the model lists as it is.
pub resolve_effort_listed :
    (efforts : List (Text × List Text)) (kiro_model requested : Text)
    → requested ≢ []
    → contains (levels_for efforts kiro_model) requested ≡ true
    → resolve_effort efforts kiro_model requested ≡ requested
unfolding resolve_effort
resolve_effort_listed efforts kiro_model [] h listed = absurd (h refl)
resolve_effort_listed efforts kiro_model (c ∷ t) h listed =
    clamp_effort_listed (levels_for efforts kiro_model) (c ∷ t) listed
