-- ===== src/Pow/Digest.antt =====
-- `leading_zero_bits` of src/pow/sha256.cpp. The count is at most 256 and does not wrap.
pub mod Target
use deltafeedback.Prelude.{
  ℕ, zero, suc, ◌+◌, ◌/◌, ◌^◌, [], ◌∷◌, Bytes, bit_and, ◌==◌, if◌then◌else◌,
}

-- The inner loop, with `i + 1` rounds left; it returns at the first bit that is set.
unfoldable pub zero_bits_of : ℕ → ℕ → ℕ → ℕ
zero_bits_of zero b count = count
zero_bits_of (suc i) b count =
    if bit_and (b / 2 ^ i) 1 == 0 then zero_bits_of i b (count + 1) else count

leading_loop : Bytes → ℕ → ℕ
leading_loop [] count = count
leading_loop (b ∷ d) count = if b == 0 then leading_loop d (count + 8) else zero_bits_of 8 b count

unfoldable pub leading_zero_bits : Bytes → ℕ
unfolding leading_loop zero_bits_of
leading_zero_bits d = leading_loop d 0
