-- ===== src/Pow/Digest/Target.antt =====
-- Leading zero bits as a bound on the digest read as a big-endian number.
use native.Mathlib.Decide.{dec_le}
use native.Mathlib.Nat.{pow-suc, mul-le-mul_left, mul-le-mul_right}
use deltafeedback.Prelude.{
  ℕ, zero, suc, ◌+◌, ◌-◌, ◌*◌, ◌^◌, ◌≤◌, ◌<◌, ◌≡◌, refl, ◌↔◌, Bool, true, ◌&&◌, ◌||◌, [], ◌∷◌,
  subst, Bytes, IsBytes, length, ltb, leb, ◌==◌, all_below, all_below_sound, arith,
}
use deltafeedback.Pow.Digest.{zero_bits_of, leading_loop, leading_zero_bits}

-- The number that the bytes write, the first the most significant.
abbrev pub big_endian : Bytes → ℕ
big_endian [] = 0
big_endian (b ∷ d) = b * 256 ^ length d + big_endian d

abbrev tight : ℕ → Bool
tight b =
    let n = zero_bits_of 8 b 0 in
    b == 0 || (ltb n 8 && leb ((b + 1) * 2 ^ n) 256 && leb 256 (b * 2 ^ (n + 1)))

tight_table : all_below 256 tight ≡ true
unfolding all_below zero_bits_of
tight_table = refl

zero_bits_tight :
    (b : ℕ)
    → 0 < b
    → b < 256
    → (zero_bits_of 8 b 0 < 8)
      × ((b + 1) * 2 ^ zero_bits_of 8 b 0 ≤ 256)
      × (256 ≤ b * 2 ^ (zero_bits_of 8 b 0 + 1))
zero_bits_tight b p h = ground (arith, all_below_sound 256 tight b tight_table h)

zero_bits_count : (i b c : ℕ) → zero_bits_of i b c ≡ c + zero_bits_of i b 0
unfolding zero_bits_of
zero_bits_count zero b c = omega arith
zero_bits_count (suc i) b c =
    ground (arith, zero_bits_count i b (c + 1), zero_bits_count i b (0 + 1))

leading_count : (d : Bytes) (c : ℕ) → leading_loop d c ≡ c + leading_loop d 0
unfolding leading_loop
leading_count [] c = omega arith
leading_count (b ∷ d) c =
    ground (arith, leading_count d (c + 8), leading_count d (0 + 8), zero_bits_count 8 b c)

pow_pos : (k : ℕ) → 1 ≤ 2 ^ k
pow_pos zero = omega arith
pow_pos (suc k) = omega (arith, pow-suc 2 k, pow_pos k)

pow_mono : (j k : ℕ) → j ≤ k → 2 ^ j ≤ 2 ^ k
pow_mono j zero h = let e : j ≡ 0 = omega arith in ground arith
pow_mono zero (suc k) h = omega (arith, pow_pos (suc k))
pow_mono (suc j) (suc k) h = omega (arith, pow-suc 2 j, pow-suc 2 k, pow_mono j k (omega arith))

big_endian-lt : (d : Bytes) → IsBytes d → big_endian d < 256 ^ length d
big_endian-lt [] h = omega arith
big_endian-lt (b ∷ d) (hb, h) = grind (arith, big_endian-lt d h, pow-suc 256 (length d))

-- The bound at a first byte that is not zero, with `p` for the weight of that byte.
module _ (b r p k : ℕ) (hb : 0 < b) (lt : b < 256) (hr : r < p) where
  first_byte_fits : k ≤ zero_bits_of 8 b 0 → (b * p + r) * 2 ^ k < p * 256
  first_byte_fits h =
      let (_, top, _) = zero_bits_tight b hb lt in
      let x : ℕ = 2 ^ zero_bits_of 8 b 0 in
      let e : suc (b * p + r) ≤ (b + 1) * p = omega arith in
      omega (
        arith,
        mul-le-mul_left (b * p + r) (pow_mono k (zero_bits_of 8 b 0) h),
        mul-le-mul_right x e,
        mul-le-mul_left p top,
        pow_pos (zero_bits_of 8 b 0),
      )

  first_byte_exceeds : zero_bits_of 8 b 0 < k → p * 256 ≤ (b * p + r) * 2 ^ k
  first_byte_exceeds h =
      let (_, _, low) = zero_bits_tight b hb lt in
      let m : zero_bits_of 8 b 0 + 1 ≤ k = omega arith in
      omega (
        arith,
        mul-le-mul_left p low,
        mul-le-mul_left (b * p) (pow_mono (zero_bits_of 8 b 0 + 1) k m),
      )

abbrev Target : Bytes → ℕ → Type 0
Target d k = (k ≤ leading_loop d 0) ↔ (big_endian d * 2 ^ k < 256 ^ length d)

pow_eight : (j : ℕ) → 2 ^ (8 + j) ≡ 256 * 2 ^ j
pow_eight j =
    let e : 8 + j ≡ suc (suc (suc (suc (suc (suc (suc (suc j))))))) = omega arith in
    rw e (
      omega (
        arith,
        pow-suc 2 j,
        pow-suc 2 (suc j),
        pow-suc 2 (suc (suc j)),
        pow-suc 2 (suc (suc (suc j))),
        pow-suc 2 (suc (suc (suc (suc j)))),
        pow-suc 2 (suc (suc (suc (suc (suc j))))),
        pow-suc 2 (suc (suc (suc (suc (suc (suc j)))))),
        pow-suc 2 (suc (suc (suc (suc (suc (suc (suc j))))))),
      ))

-- A first byte of zero gives eight bits and passes the rest on to the other bytes.
zero_byte_few :
    (d : Bytes) (k : ℕ) → IsBytes d → k ≤ 8 → big_endian d * 2 ^ k < 256 ^ suc (length d)
zero_byte_few d k h le =
    let small = big_endian-lt d h in
    omega (arith, pow-suc 256 (length d), mul-le-mul_left (big_endian d) (pow_mono k 8 le))

zero_byte_many :
    (d : Bytes) (j : ℕ)
    → (big_endian d * 2 ^ j < 256 ^ length d) ↔ (big_endian d * 2 ^ (8 + j) < 256 ^ suc (length d))
zero_byte_many d j = rw (pow_eight j, pow-suc 256 (length d)) (λ h. omega arith, λ h. omega arith)

zero_first : (d : Bytes) (j : ℕ) → Target d j → Target (zero ∷ d) (8 + j)
unfolding leading_loop
zero_first d j t =
    let (up, down) = zero_byte_many d j in
    (
      (λ p. let small = up (t.0 (omega (arith, leading_count d (0 + 8)))) in omega arith),
      (λ p. let long = t.1 (down (omega arith)) in omega (arith, leading_count d (0 + 8))),
    )

first_set : (b : ℕ) (d : Bytes) (k : ℕ) → suc b < 256 → IsBytes d → Target (suc b ∷ d) k
unfolding leading_loop
first_set b d k hb h =
    let small = big_endian-lt d h in
    let weight = pow-suc 256 (length d) in
    let fits = first_byte_fits (suc b) (big_endian d) (256 ^ length d) k (omega arith) hb small in
    let exceeds =
      first_byte_exceeds (suc b) (big_endian d) (256 ^ length d) k (omega arith) hb small in
    ((λ p. ground arith), (λ p. ground arith))

leading-Target : (d : Bytes) (k : ℕ) → IsBytes d → k ≤ 8 * length d → Target d k
unfolding leading_loop
leading-Target [] k h le =
    (λ _. let e : k ≡ 0 = omega arith in rw e (omega arith), λ _. omega arith)
leading-Target (zero ∷ d) k (hb, h) le = elim (dec_le k 8) [
  | yes few ↦
      (λ _. omega (arith, zero_byte_few d k h few), λ _. omega (arith, leading_count d (0 + 8)))
  | no many ↦
      let e : 8 + (k - 8) ≡ k = omega arith in
      subst (Target (zero ∷ d)) e (zero_first d (k - 8) (leading-Target d (k - 8) h (omega arith)))
]
leading-Target (suc b ∷ d) k (hb, h) le = first_set b d k hb h

-- A digest has at least `k` leading zero bits exactly when, read as a big-endian number, it is below
-- 2 ^ (8 * length - k); both sides are multiplied by 2 ^ k here.
pub leading_zero_bits-target :
    (d : Bytes) (k : ℕ)
    → IsBytes d
    → k ≤ 8 * length d
    → (k ≤ leading_zero_bits d) ↔ (big_endian d * 2 ^ k < 256 ^ length d)
unfolding leading_zero_bits
leading_zero_bits-target d k h le = leading-Target d k h le
