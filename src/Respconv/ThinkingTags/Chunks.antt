-- ===== src/Respconv/ThinkingTags/Chunks.antt =====
-- parseThinkingTags does not depend on where the stream is cut into chunks.
use claude_code_kiro_models.Prelude.{
  joined, codes, ℕ, suc, ◌+◌, Bool, true, false, not, List, [], ◌∷◌, ◌++◌, ◌≡◌, refl, sym, ap, ◌∙◌,
  inl, inr, Text, contains_rune, length, arith, Bool-cases, append-nil, append_assoc, length-append,
}
use claude_code_kiro_models.Respconv.ThinkingTags.Scan.{
  scan_between, scan-append_free, held, scan, scan_nil,
}
use claude_code_kiro_models.Respconv.ThinkingTags.{
  thinking_open_tag, thinking_close_tag, TagState, Routed, tag_loop, parse_thinking_tags,
}
use claude_code_kiro_models.Respconv.ThinkingTags.Rounds.{
  tag_of, emit, stay, at, marked, round, tag_loop-round, tag_loop_fuel, join, tag_loop-append,
}

scan-free : (d : Text) → contains_rune b'<' d ≡ false → scan thinking_open_tag d ≡ held d []
unfolding thinking_open_tag
scan-free d h =
    let tag : Text = codes "thinking>" in
    ap (scan (b'<' ∷ tag)) (sym (append-nil d))
    ∙ scan-append_free b'<' tag d [] h
    ∙ rw (scan_nil, append-nil)

-- The fast path gives what the loop gives.
pub parse_thinking_tags-loop :
    (inside suppress : Bool) (buf d : Text)
    → parse_thinking_tags (at inside suppress buf) d
      ≡ tag_loop (suc (length (buf ++ d))) (at inside suppress (buf ++ d))
unfolding parse_thinking_tags
parse_thinking_tags-loop true suppress [] d = refl
parse_thinking_tags-loop true suppress (c ∷ buf) d = refl
parse_thinking_tags-loop false suppress (c ∷ buf) d = refl
parse_thinking_tags-loop false suppress [] d = elim (Bool-cases (contains_rune b'<' d)) [
  | inl h ↦ rw h
  | inr h ↦ rw h (
      sym (
        tag_loop-round (length d) false suppress d
        ∙ ap (round (length d) false suppress) (scan-free d h)
        ∙ rw append-nil))
]

-- parseThinkingTags on one chunk after another.
unfoldable pub feed : TagState → List Text → Routed
feed s [] = stay s
feed s (d ∷ ds) = let r = parse_thinking_tags s d in join r (feed r.state ds)

parse_thinking_tags-append :
    (s : TagState) (d e : Text)
    → parse_thinking_tags s (d ++ e)
      ≡ join (parse_thinking_tags s d) (parse_thinking_tags (parse_thinking_tags s d).state e)
parse_thinking_tags-append s d e =
    let r = tag_loop (suc (length (s.buf ++ d))) (at s.inside s.suppress (s.buf ++ d)) in
    let g = suc (length (s.buf ++ d) + length e + length r.state.buf) in
    parse_thinking_tags-loop s.inside s.suppress s.buf (d ++ e)
    ∙ ap (λ x. tag_loop (suc (length x)) (at s.inside s.suppress x)) (sym (append_assoc s.buf d e))
    ∙ tag_loop-append (suc (length ((s.buf ++ d) ++ e))) (suc (length (s.buf ++ d))) g s.inside
        s.suppress (s.buf ++ d) e (omega (arith, length-append (s.buf ++ d) e)) (omega arith)
        (omega arith)
    ∙ ap (join r) (
        tag_loop_fuel g (suc (length (r.state.buf ++ e))) r.state.inside r.state.suppress
          (r.state.buf ++ e) (omega (arith, length-append r.state.buf e)) (omega arith)
        ∙ sym (parse_thinking_tags-loop r.state.inside r.state.suppress r.state.buf e))
    ∙ ap (λ q. join q (parse_thinking_tags q.state e))
        (sym (parse_thinking_tags-loop s.inside s.suppress s.buf d))

-- However a reply is cut into chunks, the parser sends the same text to the text and to the
-- thinking buffer, and is left in the same state, as if the reply had come in one piece.
pub feed-chunks :
    (s : TagState) (d : Text) (ds : List Text)
    → feed s (d ∷ ds) ≡ parse_thinking_tags s (d ++ joined ds)
unfolding feed
feed-chunks s d [] = rw (append-nil d) (rw (append-nil, append-nil))
feed-chunks s d (e ∷ ds) =
    ap (join (parse_thinking_tags s d)) (feed-chunks (parse_thinking_tags s d).state e ds)
    ∙ sym (parse_thinking_tags-append s d (e ++ joined ds))

tag_loop_between :
    (f : ℕ) (inside suppress : Bool) (t rest : Text)
    → contains_rune b'<' t ≡ false
    → tag_loop (suc f) (at inside suppress (t ++ (tag_of inside ++ rest)))
      ≡ emit inside t (tag_loop f (at (not inside) (marked inside suppress) rest))
unfolding thinking_open_tag thinking_close_tag
tag_loop_between f true suppress t rest h =
    tag_loop-round f true suppress _
    ∙ ap (round f true suppress) (scan_between b'<' (codes "/thinking>") t rest h)
tag_loop_between f false suppress t rest h =
    tag_loop-round f false suppress _
    ∙ ap (round f false suppress) (scan_between b'<' (codes "thinking>") t rest h)

-- A reply that thinks once, with no other `<` in it: the text round the tags goes to the text
-- buffer and the thought to the thinking buffer, however the reply is cut.
feed_tagged :
    (t h u d : Text) (ds : List Text)
    → contains_rune b'<' t ≡ false
    → contains_rune b'<' h ≡ false
    → contains_rune b'<' u ≡ false
    → d ++ joined ds ≡ t ++ (thinking_open_tag ++ (h ++ (thinking_close_tag ++ u)))
    → feed (at false false []) (d ∷ ds)
      ≡ record { state = at false true []; text_out = t ++ u; thinking_out = h }
feed_tagged t h u d ds ht hh hu e =
    let whole = t ++ (thinking_open_tag ++ (h ++ (thinking_close_tag ++ u))) in
    let n = length whole in
    feed-chunks (at false false []) d ds
    ∙ ap (parse_thinking_tags (at false false [])) e
    ∙ parse_thinking_tags-loop false false [] whole
    ∙ tag_loop_fuel (suc n) (suc (suc (suc n))) false false whole (omega arith) (omega arith)
    ∙ tag_loop_between (suc (suc n)) false false t (h ++ (thinking_close_tag ++ u)) ht
    ∙ ap (emit false t) (
        tag_loop_between (suc n) true true h u hh
        ∙ ap (emit true h)
            (tag_loop-round n false true u ∙ ap (round n false true) (scan-free u hu)))
    ∙ rw (append-nil, append-nil)
