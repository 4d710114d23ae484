-- ===== src/Kiroproto/Frame/Truncated.antt =====
-- A reply that ends within a frame.
use claude_code_kiro_models.Kiroproto.Frame.RoundTrip.{
  encode, sealed, prelude_of, read_full-append, read_prelude-prelude_of, length-prelude_of,
  length-sealed,
}
use claude_code_kiro_models.Kiroproto.Checksum.{big_endian, put_uint32, big_endian-put_uint32}
use claude_code_kiro_models.Kiroproto.Frame.{
  FrameError, err, read_full, short_error, read_body, check_lengths, read_prelude, read_frame,
  max_frame_size, eof, unexpected_eof, prelude_error, end_of_stream, truncated_prelude,
  reading_body,
}
use claude_code_kiro_models.Prelude.{
  take-append-drop, inr, length-append, inl, take-append, take-append_le, Bool-cases, length-drop,
  ℕ, false, List, ◌++◌, ◌+◌, ◌-◌, ◌≤◌, ◌<◌, ◌≡◌, sym, ap, ◌∙◌, ltb, if◌then◌else◌, length, take,
  drop, arith, ◌==◌,
}

-- The error for a reply of which `n` bytes of the last frame came.
unfoldable pub cut_error : ℕ → FrameError
cut_error n =
    if n == 0
    then end_of_stream
    else if ltb n 12
    then truncated_prelude n
    else reading_body (if n == 12 then eof else unexpected_eof)

cut_in_prelude :
    (front : List ℕ)
    → length front < 12
    → read_frame (record { unread = front; breaks = false }) ≡ err (cut_error (length front))
unfolding read_frame read_full read_prelude short_error prelude_error cut_error
cut_in_prelude front h = ground arith

-- The lengths are those of the frame, but the body is not all there.
check_lengths_short :
    (prelude rest : List ℕ) (total n : ℕ)
    → 16 ≤ total
    → total ≤ max_frame_size
    → n ≤ total - 16
    → length rest < total - 12
    → check_lengths prelude total n (record { unread = rest; breaks = false })
      ≡ err (reading_body (if length rest == 0 then eof else unexpected_eof))
unfolding check_lengths read_body read_full short_error
check_lengths_short prelude rest total n h16 hm hn hr = ground arith

-- A part of a frame that holds the prelude, cut after it.
front-parts :
    (h p front back : List ℕ)
    → encode h p ≡ front ++ back
    → 12 ≤ length front
    → (prelude_of h p ++ drop 12 front ≡ front)
      × (length front + length back ≡ 16 + (length h + length p))
unfolding encode
front-parts h p front back e hf =
    let prelude : List ℕ = prelude_of h p in
    let body : List ℕ = sealed prelude (h ++ p) in
    let l : 12 ≡ length prelude = length-prelude_of h p in
    let same : take 12 front ≡ prelude =
      sym (take-append_le 12 front back hf)
      ∙ ap (take 12) (sym e)
      ∙ ap (λ k. take k (prelude ++ body)) l
      ∙ take-append prelude body in
    let total : length front + length back ≡ 16 + (length h + length p) = omega (
      arith,
      length-append front back,
      ap length e,
      length-append prelude body,
      length-sealed prelude (h ++ p),
      length-append h p,
      l,
    ) in
    (ap (λ x. x ++ drop 12 front) (sym same) ∙ take-append-drop 12 front, total)

cut_in_body :
    (h p front back : List ℕ)
    → 16 + (length h + length p) ≤ max_frame_size
    → encode h p ≡ front ++ back
    → 12 ≤ length front
    → 0 < length back
    → read_frame (record { unread = front; breaks = false })
      ≡ err (reading_body (if length (drop 12 front) == 0 then eof else unexpected_eof))
unfolding read_frame
cut_in_body h p front back hm e hf hb =
    let (whole, total) = front-parts h p front back e hf in
    let t : big_endian 0 (put_uint32 (16 + (length h + length p))) ≡ 16 + (length h + length p) =
      big_endian-put_uint32 (16 + (length h + length p)) (omega arith) in
    let n : big_endian 0 (put_uint32 (length h)) ≡ length h =
      big_endian-put_uint32 (length h) (omega arith) in
    ap (λ bytes. read_prelude (read_full 12 (record { unread = bytes; breaks = false })))
      (sym whole)
    ∙ ap read_prelude
        (read_full-append 12 (prelude_of h p) (drop 12 front) false (length-prelude_of h p))
    ∙ read_prelude-prelude_of h p _
    ∙ check_lengths_short (prelude_of h p) (drop 12 front) _ _ (omega (arith, t)) (omega (arith, t))
        (omega (arith, t, n)) (omega (arith, t, length-drop 12 front))

-- When the reply ends within a well-formed frame, readFrame returns an error, and io.EOF itself
-- only if no byte of the frame came: within the prelude it says how many bytes came, and from the
-- prelude on it fails to read the body.
pub read_frame_cut :
    (h p front back : List ℕ)
    → 16 + (length h + length p) ≤ max_frame_size
    → encode h p ≡ front ++ back
    → 0 < length back
    → read_frame (record { unread = front; breaks = false }) ≡ err (cut_error (length front))
read_frame_cut h p front back hm e hb = elim (Bool-cases (ltb (length front) 12)) [
  | inl within ↦ cut_in_prelude front (ground arith)
  | inr past ↦
      unfold cut_error in ground (arith, cut_in_body h p front back hm e, length-drop 12 front)
]
