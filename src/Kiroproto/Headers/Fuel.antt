-- ===== src/Kiroproto/Headers/Fuel.antt =====
-- The headers' loop ends.
use claude_code_kiro_models.Kiroproto.Headers.{
  big_endian, ValueSize, fixed, prefixed, Turn, stop, header, read_value, read_sized, read_type,
  read_header, FrameTypes, note_header, extract_loop, extract_frame_headers, header_value_sizes,
  no_types,
}
use claude_code_kiro_models.Prelude.{
  length-drop, if-intro, ◌+◌, ℕ, zero, suc, List, [], ◌∷◌, ◌≡◌, ◌≤◌, ltb, length, take, drop,
  Option, none, some, refl, arith,
}

-- What a turn leaves is no longer than a bound.
abbrev Leaves : ℕ → Turn → Type 0
Leaves k stop = Unit
Leaves k (header name value_type value rest) = length rest ≤ k

Leaves-le : (k l : ℕ) (t : Turn) → k ≤ l → Leaves k t → Leaves l t
Leaves-le k l stop h le = tt
Leaves-le k l (header name value_type value rest) h le = omega arith

read_value-Leaves :
    (name : List ℕ) (t n : ℕ) (bs : List ℕ) → Leaves (length bs) (read_value name t n bs)
unfolding read_value
read_value-Leaves name t n bs =
    if-intro (Leaves (length bs)) (ltb (length bs) n) (λ h. tt)
      (λ h. omega (arith, length-drop n bs))

read_sized-Leaves :
    (name : List ℕ) (t : ℕ) (o : Option ValueSize) (bs : List ℕ)
    → Leaves (length bs) (read_sized name t o bs)
unfolding read_sized
read_sized-Leaves name t none bs = tt
read_sized-Leaves name t (some (fixed n)) bs = read_value-Leaves name t n bs
read_sized-Leaves name t (some prefixed) bs =
    if-intro (Leaves (length bs)) (ltb (length bs) 2) (λ h. tt)
      (λ h.
        Leaves-le (length (drop 2 bs)) (length bs)
          (read_value name t (big_endian 0 (take 2 bs)) (drop 2 bs))
          (omega (arith, length-drop 2 bs))
          (read_value-Leaves name t (big_endian 0 (take 2 bs)) (drop 2 bs)))

read_type-Leaves : (name bs : List ℕ) → Leaves (length bs) (read_type name bs)
unfolding read_type
read_type-Leaves name [] = tt
read_type-Leaves name (t ∷ bs) =
    Leaves-le (length bs) (length (t ∷ bs)) (read_sized name t (header_value_sizes t) bs)
      (omega arith) (read_sized-Leaves name t (header_value_sizes t) bs)

read_header-Leaves : (n : ℕ) (bs : List ℕ) → Leaves (length bs) (read_header n bs)
unfolding read_header
read_header-Leaves n bs =
    if-intro (Leaves (length bs)) (ltb (length bs) n) (λ h. tt)
      (λ h.
        Leaves-le (length (drop n bs)) (length bs) (read_type (take n bs) (drop n bs))
          (omega (arith, length-drop n bs)) (read_type-Leaves (take n bs) (drop n bs)))

-- What two loops find, with their own fuel.
abbrev BothFind : ℕ → ℕ → FrameTypes → List ℕ → Type 0
BothFind k l found bs =
    (types : FrameTypes) × ((extract_loop k found bs ≡ some types)
      × (extract_loop l found bs ≡ some types))

abbrev pub after : ℕ → FrameTypes → Turn → Option FrameTypes
after k found t = elim t [
  | stop ↦ some found
  | header name value_type value rest ↦
      extract_loop k (note_header found name value_type value) rest
]

after_turn :
    (k l : ℕ) (found : FrameTypes) (bound : ℕ) (t : Turn)
    → Leaves bound t
    → ((types : FrameTypes) (rest : List ℕ) → length rest ≤ bound → BothFind k l types rest)
    → (types : FrameTypes) × ((after k found t ≡ some types) × (after l found t ≡ some types))
after_turn k l found bound stop le more = (found, (refl, refl))
after_turn k l found bound (header name value_type value rest) le more =
    more (note_header found name value_type value) rest le

-- With fuel for every byte, the loop ends and what it finds does not depend on the fuel.
extract_loop_fuel :
    (k l : ℕ) (found : FrameTypes) (bs : List ℕ)
    → length bs ≤ k
    → length bs ≤ l
    → BothFind k l found bs
unfolding extract_loop
extract_loop_fuel k l found [] hk hl = (found, (refl, refl))
extract_loop_fuel zero l found (b ∷ bs) hk hl = absurd (omega arith)
extract_loop_fuel (suc k) zero found (b ∷ bs) hk hl = absurd (omega arith)
extract_loop_fuel (suc k) (suc l) found (b ∷ bs) hk hl =
    after_turn k l found (length bs) (read_header b bs) (read_header-Leaves b bs)
      (λ types rest h. extract_loop_fuel k l types rest (omega arith) (omega arith))

-- extractFrameHeaders ends on every list of bytes, and more turns would find nothing else.
pub extract_frame_headers_total :
    (k : ℕ) (bs : List ℕ)
    → (types : FrameTypes) × ((extract_frame_headers bs ≡ some types)
        × (extract_loop (length bs + k) no_types bs ≡ some types))
unfolding extract_frame_headers
extract_frame_headers_total k bs =
    extract_loop_fuel (length bs) (length bs + k) no_types bs (omega arith) (omega arith)
