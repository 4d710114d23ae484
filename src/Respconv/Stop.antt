-- ===== src/Respconv/Stop.antt =====
-- internal/respconv/stop_sequence.go, token_budget.go, reasoning.go: what ends a response on the
-- proxy's side. The fields are responseAccumulator's; the methods here read and write no others.
pub mod Filter
pub mod Budget
pub mod Sequences
pub mod Split
use claude_code_kiro_models.Prelude.Int.{ℤ, pos, negsuc}
use claude_code_kiro_models.Prelude.{
  ℕ, suc, ◌+◌, ◌-◌, ◌*◌, ◌/◌, Bool, true, false, List, [], ◌∷◌, ◌++◌, Option, none, some, ltb, leb,
  ◌==◌, if◌then◌else◌, Text, index, length, is_empty, take, drop,
}
use mathlib.Core.Option

pub data StopReason : Type 0 where
  stop_sequence max_tokens end_turn tool_use : StopReason

-- `none` is the empty string. Lengths count runes.
pub record StopState : Type 0 where
  pub local_stop : Bool
  pub reason : Option StopReason
  pub matched : Text
  pub stop_sequences : List Text
  pub stop_seq_max_keep : ℕ
  pub stop_seq_pending : Text
  pub max_tokens_budget : ℤ
  pub output_rune_count : ℕ

-- The budget in tokens; 0 where `maxTokensBudget <= 0`, which enforces nothing.
abbrev pub budget_of : ℤ → ℕ
budget_of (pos n) = n
budget_of (negsuc n) = 0

abbrev pub stop_at_budget : StopState → StopState
stop_at_budget a = record a { local_stop = true; reason = some StopReason.max_tokens }

-- `for i := range delta` with its counter: the first `remaining` runes, if there are more.
unfoldable pub cut_runes : ℕ → ℕ → Text → Option Text
cut_runes remaining count [] = none
cut_runes remaining count (c ∷ delta) =
    let rest = Option.map (◌∷◌ c) (cut_runes remaining (count + 1) delta) in
    if ltb remaining (count + 1) then some [] else rest

-- All runes fit, or the budget is used up to the last one.
unfoldable pub take_all_runes : StopState → Text → StopState × Text
take_all_runes a delta =
    let b = record a { output_rune_count = a.output_rune_count + length delta } in
    if leb (budget_of a.max_tokens_budget) (b.output_rune_count / 4)
    then (stop_at_budget b, delta)
    else (b, delta)

-- applyMaxTokensBudget
unfoldable pub apply_max_tokens_budget : StopState → Text → StopState × Text
unfolding take_all_runes
apply_max_tokens_budget a delta =
    let budget = budget_of a.max_tokens_budget in
    let new_total = a.output_rune_count + length delta in
    let remaining = budget * 4 - a.output_rune_count in
    if budget == 0
    then (record a { output_rune_count = new_total }, delta)
    else if ltb (new_total / 4) budget
    then (record a { output_rune_count = new_total }, delta)
    else if remaining == 0
    then (stop_at_budget a, [])
    else elim (cut_runes remaining 0 delta) [
      | some cut ↦
          (stop_at_budget (record a { output_rune_count = a.output_rune_count + remaining }), cut)
      | none ↦ take_all_runes a delta
    ]

-- accumulateOpaqueOutput: output that cannot be cut.
unfoldable pub accumulate_opaque_output : StopState → Text → StopState
accumulate_opaque_output a content =
    let b = record a { output_rune_count = a.output_rune_count + length content } in
    if a.local_stop
    then b
    else if budget_of a.max_tokens_budget == 0
    then b
    else if leb (budget_of a.max_tokens_budget) (b.output_rune_count / 4)
    then stop_at_budget b
    else b

-- The first configured sequence that occurs in the pending text, with its place.
unfoldable pub find_match : List Text → Text → Option (Text × ℕ)
find_match [] pending = none
find_match (s ∷ seqs) pending =
    let rest = find_match seqs pending in
    elim (index s pending) [ some idx ↦ some (s, idx) | none ↦ rest ]

-- applyStopSequenceFilter
unfoldable pub apply_stop_sequence_filter : StopState → Text → StopState × Text
apply_stop_sequence_filter a delta =
    let pending = a.stop_seq_pending ++ delta in
    let rune_count = length pending in
    elim (find_match a.stop_sequences pending) [
      | some (s, idx) ↦ (
        record a {
          stop_seq_pending = [];
          local_stop = true;
          reason = some StopReason.stop_sequence;
          matched = s;
        },
        take idx pending,
      )
      | none ↦
          if leb rune_count a.stop_seq_max_keep
          then (record a { stop_seq_pending = pending }, [])
          else let split_at = rune_count - a.stop_seq_max_keep in
            (record a { stop_seq_pending = drop split_at pending }, take split_at pending)
    ]

-- flushStopSeqPending
unfoldable pub flush_stop_seq_pending : StopState → StopState × Text
flush_stop_seq_pending a = (record a { stop_seq_pending = [] }, a.stop_seq_pending)

-- One round of the loop in initStopSequences.
unfoldable pub add_stop_sequence : StopState → Text → StopState
add_stop_sequence a s = if is_empty s then a else record a {
  stop_sequences = a.stop_sequences ++ (s ∷ []);
  stop_seq_max_keep =
      if ltb a.stop_seq_max_keep (length s - 1) then length s - 1 else a.stop_seq_max_keep;
}

unfoldable pub add_stop_sequences : StopState → List Text → StopState
unfolding add_stop_sequence
add_stop_sequences a [] = a
add_stop_sequences a (s ∷ seqs) = add_stop_sequences (add_stop_sequence a s) seqs

-- initStopSequences
unfoldable pub init_stop_sequences : StopState → List Text → StopState
unfolding add_stop_sequences
init_stop_sequences a seqs =
    add_stop_sequences (record a { stop_sequences = []; stop_seq_max_keep = 0 }) seqs
