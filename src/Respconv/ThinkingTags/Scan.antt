-- ===== src/Respconv/ThinkingTags/Scan.antt =====
-- The search for one tag, in one pass: what `index` and `partial_tag_suffix` find together.
use claude_code_kiro_models.Prelude.{
  append-nil, drop-append, ◌∙◌, starts_with-append, contains_rune, ℕ, zero, suc, ◌≤◌, true, false,
  [], ◌∷◌, ◌++◌, ◌≡◌, refl, sym, ap, inl, inr, if◌then◌else◌, Text, starts_with, length, drop,
  arith, length-drop, ◌<◌, Bool-cases, starts_with_extend, starts_with-length,
}

pub data Scan : Type 0 where
  found held : Text → Text → Scan

abbrev pub push : ℕ → Scan → Scan
push c (found before rest) = found (c ∷ before) rest
push c (held out kept) = held (c ∷ out) kept

-- `found before rest`: the text is `before`, the tag, `rest`. `held out kept`: the tag is nowhere,
-- and `kept` is the longest end of the text that begins the tag.
unfoldable pub scan : Text → Text → Scan
scan tag [] = held [] []
scan tag (c ∷ s) =
    let rest = push c (scan tag s) in
    if starts_with (c ∷ s) tag
    then found [] (drop (length tag) (c ∷ s))
    else if starts_with tag (c ∷ s)
    then held [] (c ∷ s)
    else rest

abbrev pub prepend : Text → Scan → Scan
prepend a (found before rest) = found (a ++ before) rest
prepend a (held out kept) = held (a ++ out) kept

pub prepend-push : (c : ℕ) (a : Text) (r : Scan) → push c (prepend a r) ≡ prepend (c ∷ a) r
prepend-push c a (found before rest) = refl
prepend-push c a (held out kept) = refl

-- The text scanned on, after a first part has been scanned.
abbrev pub resume : Text → Text → Scan → Scan
resume tag d (found before rest) = found before (rest ++ d)
resume tag d (held out kept) = prepend out (scan tag (kept ++ d))

resume-push : (tag d : Text) (c : ℕ) (r : Scan) → push c (resume tag d r) ≡ resume tag d (push c r)
resume-push tag d c (found before rest) = refl
resume-push tag d c (held out kept) = prepend-push c out (scan tag (kept ++ d))

-- Two texts that do not begin one another still do not when one is longer.
no_prefix_extend :
    (s tag d : Text)
    → starts_with s tag ≡ false
    → starts_with tag s ≡ false
    → (starts_with (s ++ d) tag ≡ false) × (starts_with tag (s ++ d) ≡ false)
unfolding starts_with
no_prefix_extend [] [] d p q = cc
no_prefix_extend [] (t ∷ tag) d p q = cc
no_prefix_extend (c ∷ s) [] d p q = cc
no_prefix_extend (c ∷ s) (t ∷ tag) d p q = ground (arith, no_prefix_extend s tag d)

drop_extend : (n : ℕ) (s d : Text) → n ≤ length s → drop n (s ++ d) ≡ drop n s ++ d
drop_extend zero s d h = refl
drop_extend (suc n) [] d h = absurd (omega arith)
drop_extend (suc n) (c ∷ s) d h = drop_extend n s d (omega arith)

pub scan_nil : (tag : Text) → scan tag [] ≡ held [] []
unfolding scan
scan_nil tag = refl

-- One rune of the scan, by the test that decides it.
pub scan_found :
    (tag : Text) (c : ℕ) (s : Text)
    → starts_with (c ∷ s) tag ≡ true
    → scan tag (c ∷ s) ≡ found [] (drop (length tag) (c ∷ s))
unfolding scan
scan_found tag c s h = rw (h, scan)

pub scan_held :
    (tag : Text) (c : ℕ) (s : Text)
    → starts_with (c ∷ s) tag ≡ false
    → starts_with tag (c ∷ s) ≡ true
    → scan tag (c ∷ s) ≡ held [] (c ∷ s)
unfolding scan
scan_held tag c s h k = rw (h, scan) (rw k)

pub scan_skip :
    (tag : Text) (c : ℕ) (s : Text)
    → starts_with (c ∷ s) tag ≡ false
    → starts_with tag (c ∷ s) ≡ false
    → scan tag (c ∷ s) ≡ push c (scan tag s)
unfolding scan
scan_skip tag c s h k = rw (h, scan) (rw k)

prepend_nil : (r : Scan) → prepend [] r ≡ r
prepend_nil (found before rest) = refl
prepend_nil (held out kept) = refl

-- Scanning a longer text is scanning its first part, and then what was kept with the rest.
pub scan-append : (tag x d : Text) → scan tag (x ++ d) ≡ resume tag d (scan tag x)
unfolding scan
scan-append tag [] d = sym (prepend_nil (scan tag d))
scan-append tag (c ∷ s) d = elim (Bool-cases (starts_with (c ∷ s) tag)) [
  | inl h ↦
      rw (scan_found tag c s h, scan_found tag c (s ++ d) (starts_with_extend (c ∷ s) tag d h))
        (ap (found []) (drop_extend (length tag) (c ∷ s) d (starts_with-length (c ∷ s) tag h)))
  | inr h ↦ elim (Bool-cases (starts_with tag (c ∷ s))) [
    | inl k ↦ rw (scan_held tag c s h k) (sym (prepend_nil (scan tag ((c ∷ s) ++ d))))
    | inr k ↦
        let (h', k') = no_prefix_extend (c ∷ s) tag d h k in
        rw (scan_skip tag c s h k, scan_skip tag c (s ++ d) h' k', scan-append tag s d)
          (resume-push tag d c (scan tag s))
  ]
]

-- How long the parts are, for a tag that is not empty.
abbrev pub Shrinks : Text → Scan → Type 0
Shrinks s (found before rest) = length rest < length s
Shrinks s (held out kept) = length kept ≤ length s

Shrinks-push : (c : ℕ) (s : Text) (r : Scan) → Shrinks s r → Shrinks (c ∷ s) (push c r)
Shrinks-push c s (found before rest) h = omega arith
Shrinks-push c s (held out kept) h = omega arith

pub scan-Shrinks : (tag s : Text) → 0 < length tag → Shrinks s (scan tag s)
scan-Shrinks tag [] p = rw (scan_nil tag) (omega arith)
scan-Shrinks tag (c ∷ s) p = elim (Bool-cases (starts_with (c ∷ s) tag)) [
  | inl h ↦ rw (scan_found tag c s h) (omega (arith, length-drop (length tag) (c ∷ s)))
  | inr h ↦ elim (Bool-cases (starts_with tag (c ∷ s))) [
    | inl k ↦ rw (scan_held tag c s h k) (omega arith)
    | inr k ↦ rw (scan_skip tag c s h k) (Shrinks-push c s (scan tag s) (scan-Shrinks tag s p))
  ]
]

-- A text without the first rune of the tag is skipped whole.
pub scan-append_free :
    (b : ℕ) (tag t s : Text)
    → contains_rune b t ≡ false
    → scan (b ∷ tag) (t ++ s) ≡ prepend t (scan (b ∷ tag) s)
unfolding contains_rune starts_with
scan-append_free b tag [] s h = sym (prepend_nil _)
scan-append_free b tag (c ∷ t) s h =
    rw
      (
        scan_skip (b ∷ tag) c (t ++ s) (ground arith) (ground arith),
        scan-append_free b tag t s (ground arith),
      )
      (prepend-push c t (scan (b ∷ tag) s))

-- The tag itself is found at once.
pub scan_tag : (b : ℕ) (tag rest : Text) → scan (b ∷ tag) ((b ∷ tag) ++ rest) ≡ found [] rest
scan_tag b tag rest =
    scan_found (b ∷ tag) b (tag ++ rest) (starts_with-append (b ∷ tag) rest)
    ∙ ap (found []) (drop-append (b ∷ tag) rest)

pub scan_between :
    (b : ℕ) (tag t rest : Text)
    → contains_rune b t ≡ false
    → scan (b ∷ tag) (t ++ ((b ∷ tag) ++ rest)) ≡ found t rest
scan_between b tag t rest h =
    scan-append_free b tag t ((b ∷ tag) ++ rest) h
    ∙ ap (prepend t) (scan_tag b tag rest)
    ∙ rw append-nil
