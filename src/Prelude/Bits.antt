-- ===== src/Prelude/Bits.antt =====
-- `&`, `|` and `^` of the source, as arithmetic. Each native operation is a recursion on binary
-- digits with fuel; the first lemmas drop the fuel, and the others follow digit by digit.
use Prim.Native.Nat.{
  ℕ, zero, suc, ◌+◌, ◌*◌, ◌/◌, ◌%◌, ◌^◌, ◌≤◌, ◌<◌, min, max, differ, digits, bitwise, bit_and,
  bit_or, bit_xor, bit_and-bitwise, bit_or-bitwise, bit_xor-bitwise,
}
use mathlib.Core.Path.{◌≡◌, refl, ap}
use mathlib.Core.Logic.{◌↔◌}
use native.Mathlib.Nat.{pow-suc}
use native.Mathlib.Omega.{arith}

module _ (rest : ℕ → ℕ) (op : ℕ → ℕ → ℕ) where
  more_fuel : (k a b : ℕ) → a ≤ k → digits rest op k a b ≡ digits rest op a a b
  more_fuel k a b h = at_most k k a b h (omega arith)
    where
      same : (k j a b : ℕ) → a ≤ k → a ≤ j → digits rest op k a b ≡ digits rest op j a b
      same zero zero a b p q = refl
      same zero (suc j) zero b p q = refl
      same zero (suc j) (suc a) b p q = absurd (omega arith)
      same (suc k) zero zero b p q = refl
      same (suc k) zero (suc a) b p q = absurd (omega arith)
      same (suc k) (suc j) zero b p q = refl
      same (suc k) (suc j) (suc a) b p q =
          rw (same k j (suc a / 2) (b / 2) (omega arith) (omega arith))

      at_most : (m k a b : ℕ) → a ≤ k → k ≤ m → digits rest op k a b ≡ digits rest op a a b
      at_most m k a b h _ = same k a a b h (omega arith)

  bitwise_low :
      (a b : ℕ)
      → bitwise rest op (suc a) b ≡ bitwise rest op (suc a / 2) (b / 2) * 2 + op (suc a % 2) (b % 2)
  bitwise_low a b = omega (arith, more_fuel a (suc a / 2) (b / 2) (omega arith))

pub bit_or_low : (a b : ℕ) → bit_or a b ≡ bit_or (a / 2) (b / 2) * 2 + max (a % 2) (b % 2)
bit_or_low zero b = simp bit_or-bitwise (omega arith)
bit_or_low (suc a) b = simp bit_or-bitwise (bitwise_low (λ y. y) max a b)

pub bit_and_low : (a b : ℕ) → bit_and a b ≡ bit_and (a / 2) (b / 2) * 2 + min (a % 2) (b % 2)
bit_and_low zero b = simp bit_and-bitwise (omega arith)
bit_and_low (suc a) b = simp bit_and-bitwise (bitwise_low (λ y. 0) min a b)

bit_xor_low : (a b : ℕ) → bit_xor a b ≡ bit_xor (a / 2) (b / 2) * 2 + differ (a % 2) (b % 2)
bit_xor_low zero b = simp bit_xor-bitwise (omega arith)
bit_xor_low (suc a) b = simp bit_xor-bitwise (bitwise_low (λ y. y) differ a b)

bit_or-zero_below : (k a : ℕ) → a ≤ k → bit_or a 0 ≡ a
bit_or-zero_below k zero h = refl
bit_or-zero_below zero (suc a) h = absurd (omega arith)
bit_or-zero_below (suc k) (suc a) h =
    omega (arith, bit_or_low (suc a) 0, bit_or-zero_below k (suc a / 2) (omega arith))

bit_and-zero_below : (k a : ℕ) → a ≤ k → bit_and a 0 ≡ 0
bit_and-zero_below k zero h = refl
bit_and-zero_below zero (suc a) h = absurd (omega arith)
bit_and-zero_below (suc k) (suc a) h =
    omega (arith, bit_and_low (suc a) 0, bit_and-zero_below k (suc a / 2) (omega arith))

-- A mask of low bits is a remainder.
pub bit_and_1 : (a : ℕ) → bit_and a 0x01 ≡ a % 2
bit_and_1 a = omega (arith, bit_and_low a 1, bit_and-zero_below (a / 2) (a / 2) (omega arith))

pub bit_and_3 : (a : ℕ) → bit_and a 0x03 ≡ a % 4
bit_and_3 a = omega (arith, bit_and_low a 3, bit_and_1 (a / 2))

pub bit_and_15 : (a : ℕ) → bit_and a 0x0F ≡ a % 16
bit_and_15 a = omega (arith, bit_and_low a 15, bit_and_low (a / 2) 7, bit_and_3 (a / 2 / 2))

pub bit_and_31 : (a : ℕ) → bit_and a 0x1F ≡ a % 32
bit_and_31 a = omega (arith, bit_and_low a 31, bit_and_15 (a / 2))

pub bit_and_63 : (a : ℕ) → bit_and a 0x3F ≡ a % 64
bit_and_63 a = omega (arith, bit_and_low a 63, bit_and_31 (a / 2))

pub bit_and_255 : (a : ℕ) → bit_and a 0xFF ≡ a % 256
bit_and_255 a = omega (arith, bit_and_low a 255, bit_and_low (a / 2) 127, bit_and_63 (a / 2 / 2))

-- `(q << k) | r` is a sum where `r` has at most `k` bits.
pub bit_or_shifted : (k q r : ℕ) → r < 2 ^ k → bit_or (q * 2 ^ k) r ≡ q * 2 ^ k + r
bit_or_shifted zero q r h = ground (arith, bit_or-zero_below (q * 1) (q * 1) (omega arith))
bit_or_shifted (suc k) q r h = ground (
  arith,
  pow-suc 2 k,
  ap (λ (t : ℕ). q * t) (pow-suc 2 k),
  bit_or_low (q * 2 ^ suc k) r,
  bit_or_shifted k q (r / 2) (omega (arith, pow-suc 2 k)),
)

-- Or is zero only of zeros, and exclusive or only of equals.
bit_or-eq-zero_below : (k a b : ℕ) → a ≤ k → b ≤ k → bit_or a b ≡ 0 → (a ≡ 0) × (b ≡ 0)
bit_or-eq-zero_below zero a b p q h = omega arith
bit_or-eq-zero_below (suc k) a b p q h =
    let e = bit_or_low a b in
    let (l, r) = bit_or-eq-zero_below k (a / 2) (b / 2) (omega arith) (omega arith) (omega arith) in
    omega arith

pub bit_or-eq-zero : (a b : ℕ) → (bit_or a b ≡ 0) ↔ ((a ≡ 0) × (b ≡ 0))
bit_or-eq-zero a b =
    (bit_or-eq-zero_below (a + b) a b (omega arith) (omega arith), λ (e, f). rw (e, f))

differ-eq-zero : (x y : ℕ) → x < 2 → y < 2 → differ x y ≡ 0 → x ≡ y
differ-eq-zero zero y p q h = omega arith
differ-eq-zero (suc zero) zero p q h = absurd (omega arith)
differ-eq-zero (suc zero) (suc y) p q h = omega arith
differ-eq-zero (suc (suc x)) y p q h = absurd (omega arith)

differ_self : (x : ℕ) → x < 2 → differ x x ≡ 0
differ_self zero p = refl
differ_self (suc zero) p = refl
differ_self (suc (suc x)) p = absurd (omega arith)

bit_xor-eq-zero_below : (k a b : ℕ) → a ≤ k → b ≤ k → bit_xor a b ≡ 0 → a ≡ b
bit_xor-eq-zero_below zero a b p q h = omega arith
bit_xor-eq-zero_below (suc k) a b p q h =
    let e = bit_xor_low a b in
    let top = bit_xor-eq-zero_below k (a / 2) (b / 2) (omega arith) (omega arith) (omega arith) in
    let low = differ-eq-zero (a % 2) (b % 2) (omega arith) (omega arith) (omega arith) in
    omega arith

bit_xor_self_below : (k a : ℕ) → a ≤ k → bit_xor a a ≡ 0
bit_xor_self_below k zero h = refl
bit_xor_self_below zero (suc a) h = absurd (omega arith)
bit_xor_self_below (suc k) (suc a) h = omega (
  arith,
  bit_xor_low (suc a) (suc a),
  differ_self (suc a % 2) (omega arith),
  bit_xor_self_below k (suc a / 2) (omega arith),
)

pub bit_xor-eq-zero : (a b : ℕ) → (bit_xor a b ≡ 0) ↔ (a ≡ b)
bit_xor-eq-zero a b = (
  bit_xor-eq-zero_below (a + b) a b (omega arith) (omega arith),
  λ e. rw e (bit_xor_self_below b b (omega arith)),
)
