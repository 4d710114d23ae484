-- ===== src/Tests/Replies.antt =====
-- Replies in chunks, and what the parsers and filters make of them.
use claude_code_kiro_models.Prelude.Int.{pos}
use claude_code_kiro_models.Prelude.{
  String, false, List, [], ◌∷◌, ◌++◌, Text, codes, ◌≡◌, refl, joined, contains_rune, index,
  starts_with, text_eq, arith,
}
use claude_code_kiro_models.Respconv.Accumulator.Overrun.{process_content_overrun}
use claude_code_kiro_models.Respconv.Accumulator.{process_content}
use claude_code_kiro_models.Respconv.State.{Accumulator, new_accumulator}
use claude_code_kiro_models.Kiroproto.Event.{Event, EventType, event}
use claude_code_kiro_models.Respconv.Stop.Sequences.{non_empty, filter_chunks-Outcome}
use claude_code_kiro_models.Respconv.Stop.Filter.{Outcome, filter_chunks}
use claude_code_kiro_models.Respconv.Stop.{StopState, init_stop_sequences}
use claude_code_kiro_models.Respconv.ThinkingTags.Chunks.{feed, feed-chunks}
use claude_code_kiro_models.Respconv.ThinkingTags.{
  TagState, parse_thinking_tags, tag_loop, thinking_open_tag, thinking_close_tag, hold,
  partial_tag_suffix, suffix_from,
}

abbrev at_start : TagState
at_start = record { inside = false; buf = []; suppress = false }

abbrev chunks : List Text
chunks = codes "i<thin" ∷ codes "king>why</thi" ∷ codes "nking>so" ∷ []

feed-chunks_example :
    feed at_start (codes "a " ∷ chunks) ≡ parse_thinking_tags at_start (codes "a " ++ joined chunks)
feed-chunks_example = feed-chunks at_start (codes "a ") chunks

abbrev two_tokens : StopState
two_tokens = (new_accumulator (pos 0) [] (pos 2) (pos 0)).stop

abbrev thought : String → Event
thought t = record (event EventType.reasoning_content) { thinking_text = codes t }

-- Of ten runes the budget of one token lets four through.
abbrev one_token : Accumulator
one_token = new_accumulator (pos 0) [] (pos 1) (pos 0)

filter_chunks-Outcome_example : Outcome (non_empty (codes "END" ∷ [])) [] (codes "so END.") (
    filter_chunks
      (init_stop_sequences two_tokens (codes "END" ∷ []))
      (codes "so E" ∷ codes "ND." ∷ []))
unfolding new_accumulator
filter_chunks-Outcome_example =
    filter_chunks-Outcome two_tokens (codes "END" ∷ []) (codes "so E" ∷ codes "ND." ∷ []) refl refl

abbrev small : Accumulator
small = new_accumulator (pos 0) [] (pos 1) (pos 0)

process_content_overrun_example :
    (process_content small (codes "<thinking>wxyz</thinking>abcdefgh")).1.text_delta
    ≡ codes "abcdefgh"
unfolding parse_thinking_tags new_accumulator contains_rune tag_loop index starts_with
    thinking_open_tag thinking_close_tag hold partial_tag_suffix suffix_from text_eq
process_content_overrun_example =
    process_content_overrun small (codes "<thinking>wxyz</thinking>abcdefgh") refl refl
      (omega arith) (omega arith) (λ p. ground arith)
