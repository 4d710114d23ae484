-- ===== src/Respconv/ThinkingTags/Rounds.antt =====
-- The rounds of the tag parser, and a buffer that grows.
use claude_code_kiro_models.Prelude.{
  ℕ, zero, suc, ◌+◌, ◌<◌, Bool, true, false, not, [], ◌∷◌, ◌++◌, ◌≡◌, refl, sym, ap, ◌∙◌, inl, inr,
  Text, index, length, arith, Option-cases, append-nil, append_assoc, length-append,
}
use claude_code_kiro_models.Respconv.ThinkingTags.Found.{scan-index, scan-hold}
use claude_code_kiro_models.Respconv.ThinkingTags.Scan.{
  Scan, found, held, scan, scan_nil, prepend, resume, scan-append, Shrinks, scan-Shrinks,
}
use claude_code_kiro_models.Respconv.ThinkingTags.{
  thinking_open_tag, thinking_close_tag, TagState, Routed, write_text, write_thinking, tag_loop,
}

abbrev pub tag_of : Bool → Text
tag_of true = thinking_close_tag
tag_of false = thinking_open_tag

pub tag_of_pos : (inside : Bool) → 0 < length (tag_of inside)
unfolding thinking_open_tag thinking_close_tag
tag_of_pos true = omega arith
tag_of_pos false = omega arith

abbrev pub emit : Bool → Text → Routed → Routed
emit true t r = write_thinking t r
emit false t r = write_text t r

abbrev pub stay : TagState → Routed
stay s = record { state = s; text_out = []; thinking_out = [] }

abbrev pub at : Bool → Bool → Text → TagState
at inside suppress buf = record { inside = inside; buf = buf; suppress = suppress }

-- suppressReasoningContent after a tag: an open tag sets it.
abbrev pub marked : Bool → Bool → Bool
marked true suppress = suppress
marked false suppress = true

-- One round of the loop, on what the scan has found.
abbrev pub round : ℕ → Bool → Bool → Scan → Routed
round f inside suppress (found before rest) =
    emit inside before (tag_loop f (at (not inside) (marked inside suppress) rest))
round f inside suppress (held out kept) = emit inside out (stay (at inside suppress kept))

pub tag_loop-round :
    (f : ℕ) (inside suppress : Bool) (buf : Text)
    → tag_loop (suc f) (at inside suppress buf) ≡ round f inside suppress (scan (tag_of inside) buf)
unfolding tag_loop
tag_loop-round f true suppress [] = rw scan_nil
tag_loop-round f false suppress [] = rw scan_nil
tag_loop-round f true suppress (c ∷ buf) =
    elim (Option-cases (index thinking_close_tag (c ∷ buf))) [
      | inl e ↦ rw (e, tag_loop, scan-hold thinking_close_tag (c ∷ buf) e, append-nil)
      | inr (i, e) ↦ rw (e, tag_loop, scan-index thinking_close_tag (c ∷ buf) i (tag_of_pos true) e)
    ]
tag_loop-round f false suppress (c ∷ buf) =
    elim (Option-cases (index thinking_open_tag (c ∷ buf))) [
      | inl e ↦ rw (e, tag_loop, scan-hold thinking_open_tag (c ∷ buf) e, append-nil)
      | inr (i, e) ↦ rw (e, tag_loop, scan-index thinking_open_tag (c ∷ buf) i (tag_of_pos false) e)
    ]

-- More fuel than the buffer is long is enough: any two such amounts give the same.
pub tag_loop_fuel :
    (f g : ℕ) (inside suppress : Bool) (buf : Text)
    → length buf < f
    → length buf < g
    → tag_loop f (at inside suppress buf) ≡ tag_loop g (at inside suppress buf)
tag_loop_fuel zero g inside suppress buf p q = absurd (omega arith)
tag_loop_fuel (suc f) zero inside suppress buf p q = absurd (omega arith)
tag_loop_fuel (suc f) (suc g) inside suppress buf p q =
    rw (tag_loop-round f inside suppress buf, tag_loop-round g inside suppress buf)
      (go (scan (tag_of inside) buf) (scan-Shrinks (tag_of inside) buf (tag_of_pos inside))
        (tag_loop_fuel f g (not inside) (marked inside suppress)))
  where
    go :
        (r : Scan)
        → Shrinks buf r
        → ((rest : Text)
            → length rest < f
            → length rest < g
            → tag_loop f (at (not inside) (marked inside suppress) rest)
              ≡ tag_loop g (at (not inside) (marked inside suppress) rest))
        → round f inside suppress r ≡ round g inside suppress r
    go (found before rest) h again =
        ap (emit inside before) (again rest (omega arith) (omega arith))
    go (held out kept) h again = refl

-- What two chunks send on, one after the other.
abbrev pub join : Routed → Routed → Routed
join r r' = record {
  state = r'.state;
  text_out = r.text_out ++ r'.text_out;
  thinking_out = r.thinking_out ++ r'.thinking_out;
}

-- The loop on what a first run has kept, with more text behind it.
abbrev pub then_more : ℕ → Text → Routed → Routed
then_more g d r = join r (tag_loop g (at r.state.inside r.state.suppress (r.state.buf ++ d)))

pub then_more-emit :
    (g : ℕ) (d : Text) (inside : Bool) (a : Text) (r : Routed)
    → emit inside a (then_more g d r) ≡ then_more g d (emit inside a r)
then_more-emit g d true a r = rw append_assoc
then_more-emit g d false a r = rw append_assoc

pub round-prepend :
    (f : ℕ) (inside suppress : Bool) (a : Text) (r : Scan)
    → round f inside suppress (prepend a r) ≡ emit inside a (round f inside suppress r)
round-prepend f true suppress a (found before rest) = rw append_assoc
round-prepend f false suppress a (found before rest) = rw append_assoc
round-prepend f true suppress a (held out kept) = rw append_assoc
round-prepend f false suppress a (held out kept) = rw append_assoc

pub then_more-stay :
    (g : ℕ) (inside suppress : Bool) (out kept d : Text)
    → then_more g d (emit inside out (stay (at inside suppress kept)))
      ≡ emit inside out (tag_loop g (at inside suppress (kept ++ d)))
then_more-stay g true suppress out kept d = rw append-nil
then_more-stay g false suppress out kept d = rw append-nil

pub tag_loop-append :
    (f f' g : ℕ) (inside suppress : Bool) (x d : Text)
    → length x + length d < f
    → length x < f'
    → length x + length d < g
    → tag_loop f (at inside suppress (x ++ d)) ≡ then_more g d (tag_loop f' (at inside suppress x))
tag_loop-append zero f' g inside suppress x d p p' q = absurd (omega arith)
tag_loop-append (suc f) zero g inside suppress x d p p' q = absurd (omega arith)
tag_loop-append (suc f) (suc f') g inside suppress x d p p' q =
    rw
      (
        tag_loop-round f inside suppress (x ++ d),
        tag_loop-round f' inside suppress x,
        scan-append (tag_of inside) x d,
      )
      (go (scan (tag_of inside) x) (scan-Shrinks (tag_of inside) x (tag_of_pos inside))
        (tag_loop-append f f' g (not inside) (marked inside suppress)))
  where
    go :
        (r : Scan)
        → Shrinks x r
        → ((rest d : Text)
            → length rest + length d < f
            → length rest < f'
            → length rest + length d < g
            → tag_loop f (at (not inside) (marked inside suppress) (rest ++ d))
              ≡ then_more g d (tag_loop f' (at (not inside) (marked inside suppress) rest)))
        → round f inside suppress (resume (tag_of inside) d r)
          ≡ then_more g d (round f' inside suppress r)
    go (found before rest) h again =
        ap (emit inside before) (again rest d (omega arith) (omega arith) (omega arith))
        ∙ then_more-emit g d inside before _
    go (held out kept) h again =
        round-prepend f inside suppress out (scan (tag_of inside) (kept ++ d))
        ∙ ap (emit inside out) (
            sym (tag_loop-round f inside suppress (kept ++ d))
            ∙ tag_loop_fuel (suc f) g inside suppress (kept ++ d)
                (omega (arith, length-append kept d)) (omega (arith, length-append kept d)))
        ∙ sym (then_more-stay g inside suppress out kept d)
