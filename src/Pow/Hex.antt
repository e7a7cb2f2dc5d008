-- ===== src/Pow/Hex.antt =====
-- `to_hex` of src/pow/sha256.cpp, and `hex_decode` and `random_hex` of src/main.cpp.
pub mod RoundTrip
use deltafeedback.Prelude.{
  ℕ, ◌+◌, ◌-◌, ◌*◌, ◌/◌, ◌^◌, Bool, ◌&&◌, [], ◌∷◌, ◌++◌, Option, none, some, Bytes, codes, bit_and,
  bit_or, leb, if◌then◌else◌, get_or,
}

-- `kHex[i]`, and `h[i]` of `random_hex`.
unfoldable pub hex_digit : ℕ → ℕ
hex_digit i = get_or (codes "0123456789abcdef") i 0

unfoldable pub to_hex : Bytes → Bytes
unfolding hex_digit
to_hex [] = []
to_hex (b ∷ bs) = hex_digit (b / 2 ^ 4) ∷ hex_digit (bit_and b 0x0F) ∷ to_hex bs

-- The λ `v`; its -1 is `none`.
unfoldable pub hex_value : ℕ → Option ℕ
hex_value c =
    if leb b'0' c && leb c b'9'
    then some (c - b'0')
    else if leb b'a' c && leb c b'f'
    then some (10 + c - b'a')
    else if leb b'A' c && leb c b'F'
    then some (10 + c - b'A')
    else none

-- `(hi << 4) | lo`, or nothing where one of the two is -1.
unfoldable pub hex_byte : Option ℕ → Option ℕ → Option ℕ
hex_byte none lo = none
hex_byte (some hi) none = none
hex_byte (some hi) (some lo) = some (bit_or (hi * 2 ^ 4) lo)

-- The loop of `hex_decode`; a bad digit returns the empty string, and an odd last digit is dropped.
hex_decode_loop : Bytes → Bytes → Bytes
hex_decode_loop (h ∷ l ∷ hex) out = elim (hex_byte (hex_value h) (hex_value l)) [
  | none ↦ []
  | some b ↦ hex_decode_loop hex (out ++ b ∷ [])
]
hex_decode_loop _ out = out

unfoldable pub hex_decode : Bytes → Bytes
unfolding hex_decode_loop hex_byte hex_value
hex_decode hex = hex_decode_loop hex []
