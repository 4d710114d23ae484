-- ===== src/Kiroproto/Headers.antt =====
-- internal/kiroproto/frame.go: extractFrameHeaders. The bytes from index `i` on are a list, and
-- what a break leaves is what the loop has found so far.
pub mod Fuel
pub mod RoundTrip
use claude_code_kiro_models.Kiroproto.Checksum.{big_endian}
use claude_code_kiro_models.Prelude.{
  ℕ, zero, suc, Bool, true, false, List, [], ◌∷◌, ◌||◌, ◌≡◌, ltb, ◌==◌, if◌then◌else◌, length, take,
  drop, Text, codes, text_eq, Option, none, some,
}

-- headerValueSizes: a fixed size, or -1 for a length prefix. `none` is a type that is not known.
pub data ValueSize : Type 0 where
  fixed : ℕ → ValueSize
  prefixed : ValueSize

unfoldable pub header_value_sizes : ℕ → Option ValueSize
header_value_sizes t =
    if (t == 0) || (t == 1)
    then some (fixed 0)
    else if t == 2
    then some (fixed 1)
    else if t == 3
    then some (fixed 2)
    else if t == 4
    then some (fixed 4)
    else if (t == 5) || (t == 8)
    then some (fixed 8)
    else if (t == 6) || (t == 7)
    then some prefixed
    else if t == 9
    then some (fixed 16)
    else none

-- A turn of the loop: a break, or a header's name, type and value and the bytes after it.
pub data Turn : Type 0 where
  stop : Turn
  header : List ℕ → ℕ → List ℕ → List ℕ → Turn

unfoldable pub read_value : List ℕ → ℕ → ℕ → List ℕ → Turn
read_value name value_type value_len bs =
    if ltb (length bs) value_len
    then stop
    else header name value_type (take value_len bs) (drop value_len bs)

unfoldable pub read_sized : List ℕ → ℕ → Option ValueSize → List ℕ → Turn
read_sized name value_type none bs = stop
read_sized name value_type (some (fixed size)) bs = read_value name value_type size bs
read_sized name value_type (some prefixed) bs =
    if ltb (length bs) 2
    then stop
    else read_value name value_type (big_endian 0 (take 2 bs)) (drop 2 bs)

unfoldable pub read_type : List ℕ → List ℕ → Turn
read_type name [] = stop
read_type name (value_type ∷ bs) = read_sized name value_type (header_value_sizes value_type) bs

unfoldable pub read_header : ℕ → List ℕ → Turn
read_header name_len bs =
    if ltb (length bs) name_len then stop else read_type (take name_len bs) (drop name_len bs)

-- msgType and eventType.
pub record FrameTypes : Type 0 where
  pub msg_type : Text
  pub event_type : Text

abbrev pub no_types : FrameTypes
no_types = record { msg_type = []; event_type = [] }

-- The switch on a string header's name.
unfoldable pub note_header : FrameTypes → List ℕ → ℕ → List ℕ → FrameTypes
note_header found name value_type value =
    if value_type == 7
    then if text_eq name (codes ":message-type")
      then record found { msg_type = value }
      else if text_eq name (codes ":event-type") || text_eq name (codes ":exception-type")
      then record found { event_type = value }
      else found
    else found

-- `none` is fuel that runs out.
unfoldable pub extract_loop : ℕ → FrameTypes → List ℕ → Option FrameTypes
extract_loop fuel found [] = some found
extract_loop zero found (b ∷ bs) = none
extract_loop (suc fuel) found (b ∷ bs) = elim (read_header b bs) [
  | stop ↦ some found
  | header name value_type value rest ↦
      extract_loop fuel (note_header found name value_type value) rest
]

unfoldable pub extract_frame_headers : List ℕ → Option FrameTypes
extract_frame_headers bs = extract_loop (length bs) no_types bs
