-- ===== src/Kiroproto/Headers/RoundTrip.antt =====
-- Headers that are built as the format says, and read back.
use claude_code_kiro_models.Kiroproto.Checksum.{put_uint16, big_endian-put_uint16}
use claude_code_kiro_models.Kiroproto.Headers.Fuel.{after}
use claude_code_kiro_models.Kiroproto.Headers.{
  ValueSize, fixed, prefixed, header, read_value, read_sized, read_type, read_header, FrameTypes,
  note_header, extract_loop, extract_frame_headers, header_value_sizes, no_types,
}
use claude_code_kiro_models.Prelude.{
  ◌∙◌, ap, if-intro, sym, All, drop-append, take-append, length-append, ◌++◌, ◌<◌, ℕ, zero, suc,
  List, [], ◌∷◌, ◌≡◌, ◌≤◌, ltb, length, Option, none, some, refl, arith,
}

-- A header of a type that is known, by its name, type and value.
pub record Header : Type 0 where
  pub name : List ℕ
  pub value_type : ℕ
  pub value : List ℕ

-- The value has the size of its type, or one that two bytes hold.
unfoldable pub FitsSize : Option ValueSize → List ℕ → Type 0
FitsSize none value = ⊥
FitsSize (some (fixed size)) value = length value ≡ size
FitsSize (some prefixed) value = length value < 65536

unfoldable pub IsHeader : Header → Type 0
IsHeader h = FitsSize (header_value_sizes h.value_type) h.value

unfoldable pub size_prefix : Option ValueSize → List ℕ → List ℕ
size_prefix (some prefixed) value = put_uint16 (length value)
size_prefix (some (fixed size)) value = []
size_prefix none value = []

unfoldable pub encode_value : Header → List ℕ
encode_value h = h.value_type ∷ (size_prefix (header_value_sizes h.value_type) h.value ++ h.value)

unfoldable pub encode_headers : List Header → List ℕ
encode_headers [] = []
encode_headers (h ∷ hs) = length h.name ∷ (h.name ++ (encode_value h ++ encode_headers hs))

-- What the headers say, the last of a name.
unfoldable pub types_of : FrameTypes → List Header → FrameTypes
types_of found [] = found
types_of found (h ∷ hs) = types_of (note_header found h.name h.value_type h.value) hs

read_value-append :
    (name : List ℕ) (t n : ℕ) (value rest : List ℕ)
    → n ≡ length value
    → read_value name t n (value ++ rest) ≡ header name t value rest
unfolding read_value
read_value-append name t n value rest e =
    rw e (ground (arith, length-append value rest, take-append value rest, drop-append value rest))

read_sized-encode :
    (name : List ℕ) (t : ℕ) (o : Option ValueSize) (value rest : List ℕ)
    → FitsSize o value
    → read_sized name t o ((size_prefix o value ++ value) ++ rest) ≡ header name t value rest
unfolding read_sized FitsSize size_prefix put_uint16
read_sized-encode name t none value rest h = absurd h
read_sized-encode name t (some (fixed n)) value rest h =
    read_value-append name t n value rest (sym h)
read_sized-encode name t (some prefixed) value rest h =
    if-intro (λ r. r ≡ header name t value rest) (ltb (suc (suc (length (value ++ rest)))) 2)
      (λ lacks. absurd (ground arith))
      (λ enough. read_value-append name t _ value rest (big_endian-put_uint16 (length value) h))

read_header-encode :
    (h : Header) (rest : List ℕ)
    → IsHeader h
    → read_header (length h.name) (h.name ++ (encode_value h ++ rest))
      ≡ header h.name h.value_type h.value rest
unfolding read_header read_type encode_value IsHeader
read_header-encode h rest fits =
    let more : List ℕ = encode_value h ++ rest in
    ground (
      arith,
      length-append h.name more,
      take-append h.name more,
      drop-append h.name more,
      read_sized-encode h.name h.value_type (header_value_sizes h.value_type) h.value rest fits,
    )

extract_loop-encode :
    (k : ℕ) (found : FrameTypes) (hs : List Header)
    → All IsHeader hs
    → length (encode_headers hs) ≤ k
    → extract_loop k found (encode_headers hs) ≡ some (types_of found hs)
unfolding extract_loop encode_headers types_of
extract_loop-encode k found [] ok hk = refl
extract_loop-encode zero found (h ∷ hs) ok hk = absurd (omega arith)
extract_loop-encode (suc k) found (h ∷ hs) (ok, oks) hk =
    let more : List ℕ = encode_value h ++ encode_headers hs in
    let shorter : length (encode_headers hs) ≤ k =
      omega
        (arith, length-append h.name more, length-append (encode_value h) (encode_headers hs)) in
    ap (after k found) (read_header-encode h (encode_headers hs) ok)
    ∙ extract_loop-encode k (note_header found h.name h.value_type h.value) hs oks shorter

-- extractFrameHeaders finds in encoded headers the last `:message-type` and the last `:event-type`
-- or `:exception-type` of string type, and goes past the headers of every other type and name.
pub extract_frame_headers-encode_headers :
    (hs : List Header)
    → All IsHeader hs
    → extract_frame_headers (encode_headers hs) ≡ some (types_of no_types hs)
unfolding extract_frame_headers
extract_frame_headers-encode_headers hs h =
    extract_loop-encode (length (encode_headers hs)) no_types hs h (omega arith)
