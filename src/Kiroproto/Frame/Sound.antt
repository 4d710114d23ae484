-- ===== src/Kiroproto/Frame/Sound.antt =====
-- What readFrame accepts.
use claude_code_kiro_models.Kiroproto.Checksum.{
  IsByte, checksum, update, big_endian, put_uint32, put_uint32-big_endian, update-checksum,
}
use claude_code_kiro_models.Kiroproto.Frame.RoundTrip.{encode, sealed, lengths, prelude_of}
use claude_code_kiro_models.Kiroproto.Frame.{
  Reader, ReadOutcome, full, short, ok, read_full, check_message, read_body, check_lengths,
  read_prelude, read_frame, max_frame_size,
}
use claude_code_kiro_models.Prelude.{
  All-append, length-append, append_assoc, All-append_left, All-append_right, subst, length-drop,
  All-drop, All-take, inr, length-take, take-append-drop, inl, ==_iff, Bool-cases, ℕ, List, [], ◌∷◌,
  ◌++◌, ◌+◌, ◌-◌, ◌≤◌, ◌≡◌, refl, sym, ap, ◌∙◌, leb, length, take, drop, arith, All,
}

pub read_full-full :
    (n : ℕ) (r : Reader) (xs : List ℕ) (s : Reader)
    → read_full n r ≡ full xs s
    → (xs ++ s.unread ≡ r.unread) × ((length xs ≡ n) × (s.breaks ≡ r.breaks))
unfolding read_full
read_full-full n r xs s e = elim (Bool-cases (leb n (length r.unread))) [
  | inl enough ↦ ground (arith, take-append-drop n r.unread, length-take n r.unread)
  | inr lacks ↦ ground arith
]

check_message-ok :
    (prelude remaining : List ℕ) (n : ℕ) (r : Reader) {h p : List ℕ} {s : Reader}
    → check_message prelude n remaining r ≡ ok h p s
    → (r ≡ s)
      × ((h ≡ take n (take (length remaining - 4) remaining))
          × ((p ≡ drop n (take (length remaining - 4) remaining))
              × (update (update 0 prelude) (take (length remaining - 4) remaining)
                  ≡ big_endian 0 (drop (length remaining - 4) remaining))))
unfolding check_message
check_message-ok prelude remaining n r e = ground (
  arith,
  ==_iff (update (update 0 prelude) (take (length remaining - 4) remaining))
      (big_endian 0 (drop (length remaining - 4) remaining)),
)

read_body-ok :
    (prelude : List ℕ) (n : ℕ) (o : ReadOutcome) {h p : List ℕ} {s : Reader}
    → read_body prelude n o ≡ ok h p s
    → (remaining : List ℕ) × ((r : Reader) × ((o ≡ full remaining r)
          × (check_message prelude n remaining r ≡ ok h p s)))
unfolding read_body
read_body-ok prelude n (short k x) e = ground arith
read_body-ok prelude n (full remaining r) e = (remaining, (r, (refl, e)))

check_lengths-ok :
    (prelude : List ℕ) (total n : ℕ) (r : Reader) {h p : List ℕ} {s : Reader}
    → check_lengths prelude total n r ≡ ok h p s
    → (16 ≤ total)
      × ((total ≤ max_frame_size)
          × ((n ≤ total - 16) × (read_body prelude n (read_full (total - 12) r) ≡ ok h p s)))
unfolding check_lengths
check_lengths-ok prelude total n r e = ground arith

read_prelude-ok :
    (o : ReadOutcome) {h p : List ℕ} {s : Reader}
    → read_prelude o ≡ ok h p s
    → (prelude : List ℕ) × ((r : Reader) × ((o ≡ full prelude r)
          × ((checksum (take 8 prelude) ≡ big_endian 0 (drop 8 prelude))
              × (check_lengths prelude
                    (big_endian 0 (take 4 prelude))
                    (big_endian 0 (take 4 (drop 4 prelude)))
                    r
                  ≡ ok h p s))))
unfolding read_prelude
read_prelude-ok (short k x) e = ground arith
read_prelude-ok (full prelude r) e =
    let m : (checksum (take 8 prelude) ≡ big_endian 0 (drop 8 prelude))
        × (check_lengths prelude (big_endian 0 (take 4 prelude))
              (big_endian 0 (take 4 (drop 4 prelude))) r
            ≡ ok _ _ _) =
      ground (arith, ==_iff (checksum (take 8 prelude)) (big_endian 0 (drop 8 prelude))) in
    (prelude, (r, (refl, m)))

-- A body whose last four bytes are the checksum is sealed.
sealed-body :
    (prelude remaining : List ℕ)
    → All IsByte remaining
    → 4 ≤ length remaining
    → update (update 0 prelude) (take (length remaining - 4) remaining)
      ≡ big_endian 0 (drop (length remaining - 4) remaining)
    → sealed prelude (take (length remaining - 4) remaining) ≡ remaining
sealed-body prelude remaining hb hl e =
    let body : List ℕ = take (length remaining - 4) remaining in
    let tail : List ℕ = drop (length remaining - 4) remaining in
    let u : update (checksum prelude) body ≡ big_endian 0 tail = unfold checksum in e in
    let m : put_uint32 (big_endian 0 tail) ≡ tail =
      put_uint32-big_endian tail (All-drop IsByte (length remaining - 4) remaining hb)
        (omega (arith, length-drop (length remaining - 4) remaining)) in
    ap (λ c. body ++ put_uint32 c) (sym (update-checksum prelude body) ∙ u)
    ∙ ap (◌++◌ body) m
    ∙ take-append-drop (length remaining - 4) remaining

four_bytes :
    (xs : List ℕ)
    → All IsByte xs
    → 4 ≤ length xs
    → put_uint32 (big_endian 0 (take 4 xs)) ≡ take 4 xs
four_bytes xs hb hl =
    put_uint32-big_endian (take 4 xs) (All-take IsByte 4 xs hb) (omega (arith, length-take 4 xs))

take_eight : (xs : List ℕ) → take 4 xs ++ take 4 (drop 4 xs) ≡ take 8 xs
take_eight [] = refl
take_eight (a ∷ []) = refl
take_eight (a ∷ b ∷ []) = refl
take_eight (a ∷ b ∷ c ∷ []) = refl
take_eight (a ∷ b ∷ c ∷ d ∷ xs) = refl

-- A prelude that passes its checksum is the prelude of the lengths in it.
prelude_of-prelude :
    (prelude h p : List ℕ)
    → All IsByte prelude
    → length prelude ≡ 12
    → checksum (take 8 prelude) ≡ big_endian 0 (drop 8 prelude)
    → big_endian 0 (take 4 prelude) ≡ 16 + (length h + length p)
    → big_endian 0 (take 4 (drop 4 prelude)) ≡ length h
    → prelude_of h p ≡ prelude
prelude_of-prelude prelude h p hb hl ec et en =
    let e8 : lengths h p ≡ take 8 prelude =
      ap (λ v. put_uint32 v ++ put_uint32 (length h)) (sym et)
      ∙ ap (λ v. put_uint32 (big_endian 0 (take 4 prelude)) ++ put_uint32 v) (sym en)
      ∙ rw
          (
            four_bytes prelude hb (omega (arith, hl)),
            four_bytes (drop 4 prelude) (All-drop IsByte 4 prelude hb)
                (omega (arith, hl, length-drop 4 prelude)),
          )
          (take_eight prelude) in
    ap (λ x. x ++ put_uint32 (checksum x)) e8
    ∙ ap (λ c. take 8 prelude ++ put_uint32 c) ec
    ∙ ap (◌++◌ (take 8 prelude)) (
        put_uint32-big_endian (drop 8 prelude) (All-drop IsByte 8 prelude hb)
          (omega (arith, hl, length-drop 8 prelude)))
    ∙ take-append-drop 8 prelude

-- The parts of an accepted body, measured.
length-parts :
    (remaining h p : List ℕ) (total n : ℕ)
    → length remaining ≡ total - 12
    → 16 ≤ total
    → n ≤ total - 16
    → h ≡ take n (take (length remaining - 4) remaining)
    → p ≡ drop n (take (length remaining - 4) remaining)
    → (length h ≡ n)
      × ((total ≡ 16 + (length h + length p)) × (h ++ p ≡ take (length remaining - 4) remaining))
length-parts remaining h p total n el hs hn eh ep =
    let body : List ℕ = take (length remaining - 4) remaining in
    let lb : length body ≡ total - 16 =
      omega (arith, length-take (length remaining - 4) remaining) in
    let lh : length h ≡ n = omega (arith, ap length eh, length-take n body) in
    let lp : length p ≡ total - 16 - n = omega (arith, ap length ep, length-drop n body) in
    let e : h ++ p ≡ body = rw (eh, ep) (take-append-drop n body) in (lh, (omega arith, e))

-- The headers and the payload that readFrame returns are those of a well-formed frame of at most
-- 4 MiB, which stands at the front of the bytes that were unread; the bytes after it are left.
pub read_frame-encode_only :
    (r s : Reader) (h p : List ℕ)
    → All IsByte r.unread
    → read_frame r ≡ ok h p s
    → (r.unread ≡ encode h p ++ s.unread)
      × ((16 + (length h + length p) ≤ max_frame_size) × (s.breaks ≡ r.breaks))
unfolding read_frame encode
read_frame-encode_only r s h p hb e =
    let (prelude, (r1, (e1, (ec, e2)))) = read_prelude-ok (read_full 12 r) e in
    let (a1, (l1, b1)) = read_full-full 12 r prelude r1 e1 in
    let total : ℕ = big_endian 0 (take 4 prelude) in
    let n : ℕ = big_endian 0 (take 4 (drop 4 prelude)) in
    let (small, (large, (exceed, e3))) = check_lengths-ok prelude total n r1 e2 in
    let (remaining, (r2, (e4, e5))) = read_body-ok prelude n (read_full (total - 12) r1) e3 in
    let (a2, (l2, b2)) = read_full-full (total - 12) r1 remaining r2 e4 in
    let (es, (eh, (ep, eu))) = check_message-ok prelude remaining n r2 e5 in
    let (lh, (lt, eb)) = length-parts remaining h p total n l2 small exceed eh ep in
    let hb0 : All IsByte (prelude ++ r1.unread) = subst (All IsByte) (sym a1) hb in
    let hb1 : All IsByte r1.unread = All-append_right IsByte prelude r1.unread hb0 in
    let hb2 : All IsByte remaining =
      All-append_left IsByte remaining r2.unread (subst (All IsByte) (sym a2) hb1) in
    let front : prelude_of h p ≡ prelude =
      prelude_of-prelude prelude h p (All-append_left IsByte prelude r1.unread hb0) l1 ec lt
        (sym lh) in
    let back : sealed prelude (h ++ p) ≡ remaining =
      ap (sealed prelude) eb ∙ sealed-body prelude remaining hb2 (omega arith) eu in
    let whole : r.unread ≡ encode h p ++ s.unread =
      sym (a1)
      ∙ ap (◌++◌ prelude) (sym a2)
      ∙ ap (λ x. prelude ++ (x ++ r2.unread)) (sym back)
      ∙ ap (λ x. x ++ (sealed x (h ++ p) ++ r2.unread)) (sym front)
      ∙ sym (append_assoc (prelude_of h p) (sealed (prelude_of h p) (h ++ p)) r2.unread)
      ∙ ap (λ x. encode h p ++ x.unread) es in
    (whole, (omega arith, ap (λ x. x.breaks) (sym es) ∙ b2 ∙ b1))

-- A frame that readFrame returns takes at least sixteen bytes of the reader.
pub read_frame_shorter :
    (r s : Reader) (h p : List ℕ) → read_frame r ≡ ok h p s → length s.unread + 16 ≤ length r.unread
unfolding read_frame
read_frame_shorter r s h p e =
    let (prelude, (r1, (e1, (ec, e2)))) = read_prelude-ok (read_full 12 r) e in
    let (a1, (l1, b1)) = read_full-full 12 r prelude r1 e1 in
    let total : ℕ = big_endian 0 (take 4 prelude) in
    let n : ℕ = big_endian 0 (take 4 (drop 4 prelude)) in
    let (small, (large, (exceed, e3))) = check_lengths-ok prelude total n r1 e2 in
    let (remaining, (r2, (e4, e5))) = read_body-ok prelude n (read_full (total - 12) r1) e3 in
    let (a2, (l2, b2)) = read_full-full (total - 12) r1 remaining r2 e4 in
    let es : r2 ≡ s = (check_message-ok prelude remaining n r2 e5).0 in
    omega (
      arith,
      ap length a1,
      ap length a2,
      length-append prelude r1.unread,
      length-append remaining r2.unread,
      ap (λ x. length x.unread) es,
    )

put_uint32-IsByte : (v : ℕ) → All IsByte (put_uint32 v)
unfolding put_uint32
put_uint32-IsByte v = (omega arith, (omega arith, (omega arith, (omega arith, tt))))

pub encode-IsByte : (h p : List ℕ) → All IsByte h → All IsByte p → All IsByte (encode h p)
unfolding encode
encode-IsByte h p hh hp =
    let two : All IsByte (lengths h p) =
      All-append IsByte (put_uint32 (16 + (length h + length p))) (put_uint32 (length h))
        (put_uint32-IsByte _) (put_uint32-IsByte _) in
    All-append IsByte (prelude_of h p) (sealed (prelude_of h p) (h ++ p))
      (All-append IsByte (lengths h p) _ two (put_uint32-IsByte _))
      (All-append IsByte (h ++ p) _ (All-append IsByte h p hh hp) (put_uint32-IsByte _))
