-- ===== src/Respconv/ThinkingTags/Found.antt =====
-- `scan` finds what the source finds: the first tag by `index`, or else the end that
-- `partial_tag_suffix` keeps.
use claude_code_kiro_models.Prelude.{
  ℕ, zero, suc, ◌+◌, ◌-◌, ◌≤◌, ◌<◌, min, true, false, [], ◌∷◌, none, some, ◌≡◌, refl, inl, inr,
  if◌then◌else◌, Text, index, starts_with, text_eq, length, take, drop, arith, Bool-cases,
  Option-cases, starts_with-length, take_all, drop_all, ltb,
}
use mathlib.Core.Option
use native.Mathlib.Decide.{dec_le}
use native.Mathlib.Nat.{suc-add, zero-add}
use claude_code_kiro_models.Respconv.ThinkingTags.Scan.{
  found, held, scan, scan_nil, scan_found, scan_held, scan_skip,
}
use claude_code_kiro_models.Respconv.ThinkingTags.{suffix_from, partial_tag_suffix, hold}

index_here :
    (tag : Text) (c : ℕ) (s : Text) → starts_with (c ∷ s) tag ≡ true → index tag (c ∷ s) ≡ some 0
unfolding index
index_here tag c s h = rw (h, index)

index_later :
    (tag : Text) (c : ℕ) (s : Text)
    → starts_with (c ∷ s) tag ≡ false
    → index tag (c ∷ s) ≡ Option.map suc (index tag s)
unfolding index
index_later tag c s h = rw (h, index)

index-length : (tag s : Text) (i : ℕ) → index tag s ≡ some i → i + length tag ≤ length s
unfolding index starts_with
index-length [] [] i h = ground arith
index-length (t ∷ tag) [] i h = cc
index-length tag (c ∷ s) i h =
    ground (arith, index-length tag s (i - 1), starts_with-length (c ∷ s) tag)

scan-index_skip :
    (tag : Text) (c : ℕ) (s : Text) (i : ℕ)
    → starts_with (c ∷ s) tag ≡ false
    → index tag s ≡ some i
    → starts_with tag (c ∷ s) ≡ false
scan-index_skip tag c s i h e = ground (arith, index-length tag s i, starts_with-length tag (c ∷ s))

pub scan-index :
    (tag s : Text) (i : ℕ)
    → 0 < length tag
    → index tag s ≡ some i
    → scan tag s ≡ found (take i s) (drop (i + length tag) s)
scan-index [] [] i p h = absurd (omega arith)
scan-index (t ∷ tag) [] i p h = unfold index starts_with in cc
scan-index tag (c ∷ s) i p h = elim (Bool-cases (starts_with (c ∷ s) tag)) [
  | inl here ↦
      let e : i ≡ 0 = ground (arith, index_here tag c s here) in
      rw (e, scan_found tag c s here) (rw zero-add)
  | inr later ↦ elim (Option-cases (index tag s)) [
    | inl missing ↦ ground (arith, index_later tag c s later)
    | inr (j, e) ↦
        let at_j : i ≡ suc j = ground (arith, index_later tag c s later) in
        rw
          (
            at_j,
            scan_skip tag c s later (scan-index_skip tag c s j later e),
            scan-index tag s j p e,
          )
          (rw suc-add)
  ]
]

-- The end that is kept.
abbrev pub kept_length : Text → Text → ℕ
kept_length s tag = length s - partial_tag_suffix s tag

suffix_from-le : (n : ℕ) (s tag : Text) → suffix_from n s tag ≤ n
unfolding suffix_from
suffix_from-le zero s tag = omega arith
suffix_from-le (suc n) s tag = ground (arith, suffix_from-le n s tag)

hold_lem : (s tag : Text) → hold s tag ≡ (take (kept_length s tag) s, drop (kept_length s tag) s)
unfolding hold
hold_lem s tag = elim (Bool-cases (ltb 0 (partial_tag_suffix s tag))) [
  | inl h ↦ rw (h, hold)
  | inr h ↦
      let none_kept : partial_tag_suffix s tag ≡ 0 = ground arith in
      let all_sent : length s - 0 ≡ length s = omega arith in
      rw (h, hold)
        (rw (
          none_kept,
          all_sent,
          take_all (length s) s (omega arith),
          drop_all (length s) s (omega arith),
        ))
]

suffix_from-cons :
    (n c : ℕ) (s tag : Text) → n ≤ length s → suffix_from n (c ∷ s) tag ≡ suffix_from n s tag
unfolding suffix_from
suffix_from-cons zero c s tag h = refl
suffix_from-cons (suc n) c s tag h =
    let e : suc (length s) - suc n ≡ suc (length s - suc n) = omega arith in
    rw (e, suffix_from-cons n c s tag (omega arith))

text_eq-take : (s tag : Text) → starts_with tag s ≡ text_eq s (take (length s) tag)
unfolding text_eq starts_with
text_eq-take [] [] = refl
text_eq-take [] (t ∷ tag) = refl
text_eq-take (c ∷ s) [] = refl
text_eq-take (c ∷ s) (t ∷ tag) = ground (arith, text_eq-take s tag)

starts_with_flip :
    (s tag : Text) → starts_with tag s ≡ true → length tag ≤ length s → starts_with s tag ≡ true
unfolding starts_with
starts_with_flip [] [] h k = refl
starts_with_flip [] (t ∷ tag) h k = absurd (omega arith)
starts_with_flip (c ∷ s) [] h k = refl
starts_with_flip (c ∷ s) (t ∷ tag) h k = ground (arith, starts_with_flip s tag)

-- The test at the longest end, the whole text.
suffix_from_whole :
    (c : ℕ) (s tag : Text)
    → suffix_from (suc (length s)) (c ∷ s) tag
      ≡ (if starts_with tag (c ∷ s) then suc (length s) else suffix_from (length s) s tag)
unfolding suffix_from
suffix_from_whole c s tag =
    let e : suc (length s) - suc (length s) ≡ 0 = omega arith in
    rw (e, suffix_from-cons (length s) c s tag (omega arith), text_eq-take (c ∷ s) tag)

-- What the end of `c ∷ s` is, by the two tests of the scan.
kept_here :
    (c : ℕ) (s tag : Text)
    → starts_with (c ∷ s) tag ≡ false
    → starts_with tag (c ∷ s) ≡ true
    → partial_tag_suffix (c ∷ s) tag ≡ length (c ∷ s)
unfolding partial_tag_suffix
kept_here c s tag h k =
    let short : length (c ∷ s) < length tag = ground (arith, starts_with_flip (c ∷ s) tag k) in
    let e : min (length tag - 1) (suc (length s)) ≡ suc (length s) = omega arith in
    rw (e, suffix_from_whole c s tag, k)

kept_later :
    (c : ℕ) (s tag : Text)
    → starts_with tag (c ∷ s) ≡ false
    → partial_tag_suffix (c ∷ s) tag ≡ partial_tag_suffix s tag
unfolding partial_tag_suffix
kept_later c s tag k = elim (dec_le (length tag - 1) (length s)) [
  | yes short ↦
      let e : min (length tag - 1) (suc (length s)) ≡ length tag - 1 = omega arith in
      let e' : min (length tag - 1) (length s) ≡ length tag - 1 = omega arith in
      rw (e, e') (suffix_from-cons (length tag - 1) c s tag short)
  | no long ↦
      let e : min (length tag - 1) (suc (length s)) ≡ suc (length s) = omega arith in
      let e' : min (length tag - 1) (length s) ≡ length s = omega arith in
      rw (e, e', suffix_from_whole c s tag, k)
]

partial_tag_suffix-le : (s tag : Text) → partial_tag_suffix s tag ≤ length s
unfolding partial_tag_suffix
partial_tag_suffix-le s tag = omega (arith, suffix_from-le (min (length tag - 1) (length s)) s tag)

-- With no tag in the text, `scan` keeps what `hold` keeps.
pub scan-hold :
    (tag s : Text) → index tag s ≡ none → scan tag s ≡ held (hold s tag).0 (hold s tag).1
scan-hold tag [] h =
    let e : 0 - partial_tag_suffix [] tag ≡ 0 = omega arith in rw (hold_lem, scan_nil tag) (rw e)
scan-hold tag (c ∷ s) h = elim (Bool-cases (starts_with (c ∷ s) tag)) [
  | inl here ↦ ground (arith, index_here tag c s here)
  | inr later ↦ elim (Bool-cases (starts_with tag (c ∷ s))) [
    | inl whole ↦
        let e : suc (length s) - suc (length s) ≡ 0 = omega arith in
        rw (hold_lem, kept_here c s tag later whole, scan_held tag c s later whole) (rw e)
    | inr part ↦
        let missing : index tag s ≡ none = ground (arith, index_later tag c s later) in
        let e : suc (length s) - partial_tag_suffix s tag ≡ suc (kept_length s tag) =
          omega (arith, partial_tag_suffix-le s tag) in
        rw
          (hold_lem, kept_later c s tag part, scan_skip tag c s later part, scan-hold tag s missing)
          (rw (hold_lem, e))
  ]
]
