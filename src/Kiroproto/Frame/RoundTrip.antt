-- ===== src/Kiroproto/Frame/RoundTrip.antt =====
-- A frame that is built as the format says, and read back.
use claude_code_kiro_models.Kiroproto.Checksum.{
  checksum, update, big_endian, put_uint32, update-checksum, checksum_lt, big_endian-put_uint32,
  length-put_uint32,
}
use claude_code_kiro_models.Kiroproto.Frame.{
  Reader, full, ok, read_full, check_message, read_body, check_lengths, read_prelude, read_frame,
  max_frame_size,
}
use claude_code_kiro_models.Prelude.{
  append_assoc, ==_self, drop-append, take-append, length-append, ℕ, Bool, List, ◌++◌, ◌+◌, ◌-◌,
  ◌≤◌, ◌≡◌, refl, ap, ◌∙◌, length, take, drop, arith,
}

-- The two lengths of a prelude.
abbrev pub lengths : List ℕ → List ℕ → List ℕ
lengths h p = put_uint32 (16 + (length h + length p)) ++ put_uint32 (length h)

abbrev pub prelude_of : List ℕ → List ℕ → List ℕ
prelude_of h p = lengths h p ++ put_uint32 (checksum (lengths h p))

abbrev pub sealed : List ℕ → List ℕ → List ℕ
sealed prelude body = body ++ put_uint32 (checksum (prelude ++ body))

-- The frame of headers and a payload.
unfoldable pub encode : List ℕ → List ℕ → List ℕ
encode h p = prelude_of h p ++ sealed (prelude_of h p) (h ++ p)

pub read_full-append :
    (n : ℕ) (xs ys : List ℕ) (b : Bool)
    → n ≡ length xs
    → read_full n (record { unread = xs ++ ys; breaks = b })
      ≡ full xs (record { unread = ys; breaks = b })
unfolding read_full
read_full-append n xs ys b e =
    rw e (ground (arith, length-append xs ys, take-append xs ys, drop-append xs ys))

check_message_parts :
    (prelude remaining body : List ℕ) (crc n : ℕ) (r : Reader)
    → take (length remaining - 4) remaining ≡ body
    → big_endian 0 (drop (length remaining - 4) remaining) ≡ crc
    → update (update 0 prelude) body ≡ crc
    → check_message prelude n remaining r ≡ ok (take n body) (drop n body) r
unfolding check_message
check_message_parts prelude remaining body crc n r et ed eu = ground (arith, ==_self crc)

check_message-sealed :
    (prelude body : List ℕ) (n : ℕ) (r : Reader)
    → check_message prelude n (sealed prelude body) r ≡ ok (take n body) (drop n body) r
check_message-sealed prelude body n r =
    let crc : ℕ = checksum (prelude ++ body) in
    let m : length (sealed prelude body) - 4 ≡ length body =
      omega (arith, length-append body (put_uint32 crc), length-put_uint32 crc) in
    check_message_parts prelude (sealed prelude body) body crc n r
      (ap (λ k. take k (sealed prelude body)) m ∙ take-append body (put_uint32 crc))
      (ap (λ k. big_endian 0 (drop k (sealed prelude body))) m
        ∙ ap (big_endian 0) (drop-append body (put_uint32 crc))
        ∙ big_endian-put_uint32 crc (checksum_lt (prelude ++ body)))
      (unfold checksum in update-checksum prelude body)

pub length-sealed : (prelude body : List ℕ) → length (sealed prelude body) ≡ length body + 4
length-sealed prelude body = omega (
  arith,
  length-append body (put_uint32 (checksum (prelude ++ body))),
  length-put_uint32 (checksum (prelude ++ body)),
)

-- Lengths that stand for the headers and the payload that follow.
pub check_lengths-sealed :
    (prelude h p : List ℕ) (total n : ℕ) (rest : List ℕ) (b : Bool)
    → total ≡ 16 + (length h + length p)
    → n ≡ length h
    → total ≤ max_frame_size
    → check_lengths prelude total n
        (record { unread = sealed prelude (h ++ p) ++ rest; breaks = b })
      ≡ ok h p (record { unread = rest; breaks = b })
unfolding check_lengths read_body
check_lengths-sealed prelude h p total n rest b et en hm =
    let body : List ℕ = h ++ p in
    let e : total - 12 ≡ length (sealed prelude body) =
      omega (arith, length-sealed prelude body, length-append h p) in
    let last : check_message prelude n (sealed prelude body) (record { unread = rest; breaks = b })
        ≡ ok h p (record { unread = rest; breaks = b }) =
      check_message-sealed prelude body n _
      ∙ ap (λ k. ok (take k body) (drop k body) (record { unread = rest; breaks = b })) en
      ∙ rw (take-append h p, drop-append h p) refl in
    ground (arith, read_full-append (total - 12) (sealed prelude body) rest b e, last)

read_prelude_parts :
    (prelude eight : List ℕ) (crc : ℕ) (r : Reader)
    → take 8 prelude ≡ eight
    → big_endian 0 (drop 8 prelude) ≡ crc
    → checksum eight ≡ crc
    → read_prelude (full prelude r)
      ≡ check_lengths prelude
          (big_endian 0 (take 4 prelude))
          (big_endian 0 (take 4 (drop 4 prelude)))
          r
unfolding read_prelude
read_prelude_parts prelude eight crc r e8 ec es = ground (arith, ==_self crc)

pub read_prelude-prelude_of :
    (h p : List ℕ) (r : Reader)
    → read_prelude (full (prelude_of h p) r)
      ≡ check_lengths
          (prelude_of h p)
          (big_endian 0 (put_uint32 (16 + (length h + length p))))
          (big_endian 0 (put_uint32 (length h)))
          r
unfolding put_uint32
read_prelude-prelude_of h p r =
    read_prelude_parts (prelude_of h p) (lengths h p) (checksum (lengths h p)) r refl
      (big_endian-put_uint32 (checksum (lengths h p)) (checksum_lt (lengths h p))) refl

pub length-prelude_of : (h p : List ℕ) → 12 ≡ length (prelude_of h p)
unfolding put_uint32
length-prelude_of h p = refl

-- readFrame returns the headers and the payload of a well-formed frame of at most 4 MiB, and leaves
-- what follows the frame unread.
pub read_frame-encode :
    (h p rest : List ℕ) (b : Bool)
    → 16 + (length h + length p) ≤ max_frame_size
    → read_frame (record { unread = encode h p ++ rest; breaks = b })
      ≡ ok h p (record { unread = rest; breaks = b })
unfolding read_frame encode
read_frame-encode h p rest b hm =
    ap (λ bytes. read_prelude (read_full 12 (record { unread = bytes; breaks = b })))
      (append_assoc (prelude_of h p) (sealed (prelude_of h p) (h ++ p)) rest)
    ∙ ap read_prelude (read_full-append 12 (prelude_of h p) _ b (length-prelude_of h p))
    ∙ read_prelude-prelude_of h p _
    ∙ check_lengths-sealed (prelude_of h p) h p _ _ rest b (big_endian-put_uint32 _ (omega arith))
        (big_endian-put_uint32 _ (omega arith))
        (omega (arith, big_endian-put_uint32 (16 + (length h + length p)) (omega arith)))
