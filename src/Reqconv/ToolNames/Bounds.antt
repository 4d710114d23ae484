-- ===== src/Reqconv/ToolNames/Bounds.antt =====
-- How long short names are.
use claude_code_kiro_models.Prelude.{
  leb→le, subst, suc, ℕ, zero, suc, ◌+◌, ◌≤◌, ◌<◌, List, [], ◌∷◌, ◌++◌, Text, codes, ◌≡◌, refl, sym,
  if-intro, ltb, leb, take, length, arith, All, map, length-take,
}
use claude_code_kiro_models.Reqconv.ToolNames.{
  new_tool_name_map, max_tool_name_len, rune_prefix, short_name, shorten_all,
}
use claude_code_kiro_models.Respconv.ToolCalls.{rune_len, byte_length}
use claude_code_kiro_models.Reqconv.ToolNames.RoundTrip.{wire, shorten_all-outs}

byte_length-append : (s t : Text) → byte_length (s ++ t) ≡ byte_length s + byte_length t
unfolding byte_length
byte_length-append [] t = omega arith
byte_length-append (r ∷ s) t = omega (arith, byte_length-append s t)

rune_prefix_bound : (used : ℕ) (s : Text) → used ≤ 50 → used + byte_length (rune_prefix used s) ≤ 50
unfolding rune_prefix byte_length
rune_prefix_bound used [] h = omega arith
rune_prefix_bound used (r ∷ s) h =
    if-intro (λ t. used + byte_length t ≤ 50) (ltb 50 (used + rune_len r)) (λ t. omega arith)
      (λ f.
        let rest = rune_prefix_bound (used + rune_len r) s (ground arith) in omega (arith, rest))

abbrev pub IsAscii : ℕ → Type 0
IsAscii r = r < 128

byte_length-take : (n : ℕ) (s : Text) → All IsAscii s → byte_length (take n s) ≡ length (take n s)
unfolding byte_length rune_len
byte_length-take zero s h = refl
byte_length-take (suc n) [] h = refl
byte_length-take (suc n) (r ∷ s) (hr, h) = ground (arith, byte_length-take n s h)

module _ (hex_digest : Text → Text) (ascii : (name : Text) → All IsAscii (hex_digest name)) where
  short_name-bound : (name : Text) → byte_length (short_name hex_digest name) ≤ 64
  unfolding short_name
  short_name-bound name =
      let tail = take 13 (hex_digest name) in
      let one : byte_length (codes "_" ++ tail) ≡ 1 + byte_length tail =
        unfold byte_length rune_len in refl in
      omega (
        arith,
        byte_length-append (rune_prefix 0 name) (codes "_" ++ tail),
        rune_prefix_bound 0 name (omega arith),
        one,
        byte_length-take 13 (hex_digest name) (ascii name),
        length-take 13 (hex_digest name),
      )

  wire-bound : (name : Text) → byte_length (wire hex_digest name) ≤ 64
  wire-bound name =
      if-intro (λ n. byte_length n ≤ 64) (leb (byte_length name) max_tool_name_len)
        (λ t. leb→le (byte_length name) 64 t) (λ f. short_name-bound name)

  wires-bound : (ns : List Text) → All (λ n. byte_length n ≤ 64) (map (wire hex_digest) ns)
  wires-bound [] = tt
  wires-bound (n ∷ ns) = (wire-bound n, wires-bound ns)

  -- No name that Shorten gives is longer than 64 bytes, if the digest is written in ASCII.
  shorten_all-bound :
      (names : List Text)
      → All (λ n. byte_length n ≤ 64) (shorten_all hex_digest new_tool_name_map names).1
  shorten_all-bound names =
      subst (All (λ n. byte_length n ≤ 64)) (sym (shorten_all-outs hex_digest names))
        (wires-bound names)
