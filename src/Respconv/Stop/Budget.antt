-- ===== src/Respconv/Stop/Budget.antt =====
-- applyMaxTokensBudget lets exactly the first `4 * max_tokens` runes through.
use native.Mathlib.Decide.{dec_lt}
use claude_code_kiro_models.Prelude.{
  ap, take-append_ge, inr, leb→le, take-append_le, sym, append-nil, ◌∙◌, inl, Bool-cases, joined, ℕ,
  suc, ◌+◌, ◌-◌, ◌*◌, true, false, List, [], ◌∷◌, ◌++◌, none, some, ltb, leb, if◌then◌else◌, Text,
  length, take, ◌≡◌, refl, arith, ◌≤◌, ◌<◌, take_all, length-take,
}
use claude_code_kiro_models.Respconv.Stop.{StopState, budget_of, cut_runes, apply_max_tokens_budget}

cut_runes-take :
    (remaining count : ℕ) (delta : Text)
    → count ≤ remaining
    → cut_runes remaining count delta ≡ (
        if ltb remaining (count + length delta)
        then some (take (remaining - count) delta)
        else none)
unfolding cut_runes
cut_runes-take r n [] h = ground arith
cut_runes-take r n (c ∷ delta) h = elim (dec_lt n r) [
  | yes more ↦
      let e : r - n ≡ suc (r - (n + 1)) = omega arith in
      rw e (ground (arith, cut_runes-take r (n + 1) delta))
  | no full ↦ let e : r - n ≡ 0 = omega arith in rw e (ground arith)
]

-- The runes left in the budget.
abbrev pub room : StopState → ℕ
room a = budget_of a.max_tokens_budget * 4 - a.output_rune_count

-- An enforced budget cuts the chunk at the room that is left, counts what it lets through, and
-- stops the response when the room is used up.
pub apply_max_tokens_budget-take :
    (a : StopState) (delta : Text)
    → 0 < budget_of a.max_tokens_budget
    → a.local_stop ≡ false
    → let r = apply_max_tokens_budget a delta in
      (r.1 ≡ take (room a) delta)
      × (r.0.output_rune_count ≡ a.output_rune_count + length r.1)
      × (r.0.local_stop ≡ leb (room a) (length delta))
unfolding apply_max_tokens_budget
apply_max_tokens_budget-take a delta p h = (
  ground (arith, cut_runes-take (room a) 0 delta, take_all (room a) delta),
  ground
      (arith, cut_runes-take (room a) 0 delta, take_all (room a) delta, length-take (room a) delta),
  ground (arith, cut_runes-take (room a) 0 delta),
)

pub apply_max_tokens_budget-keeps :
    (a : StopState) (delta : Text)
    → (apply_max_tokens_budget a delta).0.max_tokens_budget ≡ a.max_tokens_budget
unfolding apply_max_tokens_budget
apply_max_tokens_budget-keeps a delta = ground arith

-- Chunk after chunk through applyMaxTokensBudget, until it has stopped the response.
unfoldable pub budget_chunks : StopState → List Text → Text
budget_chunks a [] = []
budget_chunks a (d ∷ ds) =
    let r = apply_max_tokens_budget a d in
    let rest = budget_chunks r.0 ds in if a.local_stop then [] else r.1 ++ rest

budget_chunks_stopped :
    (a : StopState) (ds : List Text) → a.local_stop ≡ true → budget_chunks a ds ≡ []
unfolding budget_chunks
budget_chunks_stopped a [] h = refl
budget_chunks_stopped a (d ∷ ds) h = rw h

budget_chunks_running :
    (a : StopState) (d : Text) (ds : List Text)
    → a.local_stop ≡ false
    → budget_chunks a (d ∷ ds)
      ≡ (apply_max_tokens_budget a d).1 ++ budget_chunks (apply_max_tokens_budget a d).0 ds
unfolding budget_chunks
budget_chunks_running a d ds h =
    let r = apply_max_tokens_budget a d in
    ap (λ stopped. if stopped then [] else r.1 ++ budget_chunks r.0 ds) h

-- However a text is cut into chunks that go through applyMaxTokensBudget until it stops the response,
-- the first runes that the budget has room for come through, and no more.
pub budget_chunks-take :
    (ds : List Text) (a : StopState)
    → 0 < budget_of a.max_tokens_budget
    → a.local_stop ≡ false
    → budget_chunks a ds ≡ take (room a) (joined ds)
unfolding budget_chunks
budget_chunks-take [] a p h = sym (take_all (room a) [] (omega arith))
budget_chunks-take (d ∷ ds) a p h =
    let r = apply_max_tokens_budget a d in
    let (out, count, stops) = apply_max_tokens_budget-take a d p h in
    budget_chunks_running a d ds h ∙ elim (Bool-cases (leb (room a) (length d))) [
      | inl full ↦
          rw (budget_chunks_stopped r.0 ds (stops ∙ full), out, append-nil)
            (sym (take-append_le (room a) d (joined ds) (leb→le _ _ full)))
      | inr more ↦
          let fits : take (room a) d ≡ d = take_all (room a) d (ground arith) in
          let kept = apply_max_tokens_budget-keeps a d in
          let left : room r.0 ≡ room a - length d = rw (kept, count, out, fits) (omega arith) in
          rw (budget_chunks-take ds r.0 (rw kept p) (stops ∙ more), left, out, fits)
            (sym (take-append_ge (room a) d (joined ds) (ground arith)))
    ]
