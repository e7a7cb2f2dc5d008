-- ===== src/Pow/Hex/RoundTrip.antt =====
-- Decoding what was encoded.
use deltafeedback.Prelude.{
  ℕ, ◌*◌, ◌/◌, ◌^◌, ◌<◌, ◌≡◌, refl, sym, ◌∙◌, Bool, true, false, [], ◌∷◌, ◌++◌, none, some,
  append-nil, append_assoc, Bytes, IsBytes, length, bit_and, ◌==◌, all_below, all_below_sound,
  arith,
}
use deltafeedback.Pow.Hex.{hex_digit, to_hex, hex_value, hex_byte, hex_decode_loop, hex_decode}

-- Every byte is read back from its two digits, by evaluation.
abbrev reads_back : ℕ → Bool
reads_back b =
    elim (hex_byte (hex_value (hex_digit (b / 2 ^ 4))) (hex_value (hex_digit (bit_and b 0x0F)))) [
      | none ↦ false
      | some c ↦ c == b
    ]

reads_back_table : all_below 256 reads_back ≡ true
unfolding all_below hex_byte hex_value hex_digit
reads_back_table = refl

hex_byte_digits :
    (b : ℕ)
    → b < 256
    → hex_byte (hex_value (hex_digit (b / 2 ^ 4))) (hex_value (hex_digit (bit_and b 0x0F))) ≡ some b
hex_byte_digits b h = ground (arith, all_below_sound 256 reads_back b reads_back_table h)

hex_decode_loop-to_hex : (s out : Bytes) → IsBytes s → hex_decode_loop (to_hex s) out ≡ out ++ s
unfolding hex_decode_loop to_hex
hex_decode_loop-to_hex [] out h = sym (append-nil out)
hex_decode_loop-to_hex (b ∷ s) out h =
    rw (hex_byte_digits b h.0, hex_decode_loop)
      (hex_decode_loop-to_hex s (out ++ b ∷ []) h.1 ∙ append_assoc out (b ∷ []) s)

-- `hex_decode` reads back every string of bytes that `to_hex` wrote.
pub hex_decode-to_hex : (s : Bytes) → IsBytes s → hex_decode (to_hex s) ≡ s
unfolding hex_decode
hex_decode-to_hex s h = hex_decode_loop-to_hex s [] h

-- Two digits for a byte.
pub length-to_hex : (s : Bytes) → length (to_hex s) ≡ 2 * length s
unfolding to_hex
length-to_hex [] = refl
length-to_hex (b ∷ s) = omega (arith, length-to_hex s)
