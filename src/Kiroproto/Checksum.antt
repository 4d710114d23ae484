-- ===== src/Kiroproto/Checksum.antt =====
-- hash/crc32 with the IEEE table and encoding/binary's BigEndian, as internal/kiroproto/frame.go
-- uses them. A byte is a number below 256, and a uint32 one below 2 ^ 32.
use native.Mathlib.Omega.{arith}
use claude_code_kiro_models.Prelude.{
  sym, ◌∙◌, ℕ, zero, suc, List, [], ◌∷◌, ◌++◌, ◌≡◌, refl, ap, ◌+◌, ◌-◌, ◌*◌, ◌/◌, ◌%◌, ◌^◌, ◌<◌,
  ◌==◌, if◌then◌else◌, length, All,
}

-- The exclusive or of the lowest `w` bits.
unfoldable pub xor : ℕ → ℕ → ℕ → ℕ
xor zero a b = 0
xor (suc w) a b = (a + b) % 2 + 2 * xor w (a / 2) (b / 2)

unfoldable pub complement : ℕ → ℕ
complement c = 4294967295 - c

-- One bit of the reflected polynomial 0xEDB88320.
unfoldable pub shift_bit : ℕ → ℕ
shift_bit c = if c % 2 == 1 then xor 32 (c / 2) 3988292384 else c / 2

unfoldable pub shift_bits : ℕ → ℕ → ℕ
shift_bits zero c = c
shift_bits (suc n) c = shift_bits n (shift_bit c)

unfoldable pub fold_bytes : ℕ → List ℕ → ℕ
fold_bytes c [] = c
fold_bytes c (b ∷ bs) = fold_bytes (shift_bits 8 (xor 32 c b)) bs

-- crc32.Update, and a digest's Write.
unfoldable pub update : ℕ → List ℕ → ℕ
update digest bs = complement (fold_bytes (complement digest) bs)

-- crc32.Checksum
unfoldable pub checksum : List ℕ → ℕ
checksum bs = update 0 bs

-- binary.BigEndian.Uint32 and Uint16
unfoldable pub big_endian : ℕ → List ℕ → ℕ
big_endian v [] = v
big_endian v (b ∷ bs) = big_endian (v * 256 + b) bs

-- binary.BigEndian.AppendUint32 and AppendUint16, which the tests build frames with.
unfoldable pub put_uint32 : ℕ → List ℕ
put_uint32 v = v / 16777216 % 256 ∷ v / 65536 % 256 ∷ v / 256 % 256 ∷ v % 256 ∷ []

unfoldable pub put_uint16 : ℕ → List ℕ
put_uint16 v = v / 256 % 256 ∷ v % 256 ∷ []

xor_lt : (w a b : ℕ) → xor w a b < 2 ^ w
unfolding xor
xor_lt zero a b = omega arith
xor_lt (suc w) a b = omega (arith, xor_lt w (a / 2) (b / 2))

xor_32_lt : (a b : ℕ) → xor 32 a b < 4294967296
xor_32_lt a b = xor_lt 32 a b

shift_bit_lt : (c : ℕ) → c < 4294967296 → shift_bit c < 4294967296
unfolding shift_bit
shift_bit_lt c h = ground (arith, xor_32_lt (c / 2) 3988292384)

shift_bits_lt : (n c : ℕ) → c < 4294967296 → shift_bits n c < 4294967296
unfolding shift_bits
shift_bits_lt zero c h = h
shift_bits_lt (suc n) c h = shift_bits_lt n (shift_bit c) (shift_bit_lt c h)

fold_bytes_lt : (c : ℕ) (bs : List ℕ) → c < 4294967296 → fold_bytes c bs < 4294967296
unfolding fold_bytes
fold_bytes_lt c [] h = h
fold_bytes_lt c (b ∷ bs) h =
    fold_bytes_lt (shift_bits 8 (xor 32 c b)) bs (shift_bits_lt 8 (xor 32 c b) (xor_32_lt c b))

fold_bytes-append :
    (c : ℕ) (xs ys : List ℕ) → fold_bytes c (xs ++ ys) ≡ fold_bytes (fold_bytes c xs) ys
unfolding fold_bytes
fold_bytes-append c [] ys = refl
fold_bytes-append c (x ∷ xs) ys = fold_bytes-append (shift_bits 8 (xor 32 c x)) xs ys

complement_twice : (c : ℕ) → c < 4294967296 → complement (complement c) ≡ c
unfolding complement
complement_twice c h = omega arith

pub complement_lt : (c : ℕ) → complement c < 4294967296
unfolding complement
complement_lt c = omega arith

pub checksum_lt : (bs : List ℕ) → checksum bs < 4294967296
unfolding checksum update
checksum_lt bs = complement_lt (fold_bytes (complement 0) bs)

-- A digest that two writes feed is the checksum of both in one.
pub update-checksum : (xs ys : List ℕ) → update (checksum xs) ys ≡ checksum (xs ++ ys)
unfolding checksum update
update-checksum xs ys =
    ap (λ c. complement (fold_bytes c ys))
      (complement_twice _ (fold_bytes_lt (complement 0) xs (complement_lt 0)))
    ∙ ap complement (sym (fold_bytes-append (complement 0) xs ys))

pub big_endian-put_uint32 : (v : ℕ) → v < 4294967296 → big_endian 0 (put_uint32 v) ≡ v
unfolding big_endian put_uint32
big_endian-put_uint32 v h = omega arith

pub big_endian-put_uint16 : (v : ℕ) → v < 65536 → big_endian 0 (put_uint16 v) ≡ v
unfolding big_endian put_uint16
big_endian-put_uint16 v h = omega arith

pub length-put_uint32 : (v : ℕ) → length (put_uint32 v) ≡ 4
unfolding put_uint32
length-put_uint32 v = refl

abbrev pub IsByte : ℕ → Type 0
IsByte b = b < 256

put_uint32_bytes :
    (v a b c d : ℕ)
    → v / 16777216 % 256 ≡ a
    → v / 65536 % 256 ≡ b
    → v / 256 % 256 ≡ c
    → v % 256 ≡ d
    → put_uint32 v ≡ a ∷ b ∷ c ∷ d ∷ []
unfolding put_uint32
put_uint32_bytes v a b c d ea eb ec ed = rw (ea, eb, ec, ed)

-- Four bytes are what AppendUint32 makes of the number they hold.
pub put_uint32-big_endian :
    (bs : List ℕ) → All IsByte bs → length bs ≡ 4 → put_uint32 (big_endian 0 bs) ≡ bs
unfolding big_endian put_uint32
put_uint32-big_endian (a ∷ b ∷ c ∷ d ∷ []) (ha, (hb, (hc, (hd, t)))) h =
    put_uint32_bytes ((((0 + a) * 256 + b) * 256 + c) * 256 + d) a b c d (omega arith) (omega arith)
      (omega arith) (omega arith)
put_uint32-big_endian [] hs h = absurd (omega arith)
put_uint32-big_endian (a ∷ []) hs h = absurd (omega arith)
put_uint32-big_endian (a ∷ b ∷ []) hs h = absurd (omega arith)
put_uint32-big_endian (a ∷ b ∷ c ∷ []) hs h = absurd (omega arith)
put_uint32-big_endian (a ∷ b ∷ c ∷ d ∷ e ∷ bs) hs h = absurd (omega arith)
