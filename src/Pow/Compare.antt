-- ===== src/Pow/Compare.antt =====
-- The constant-time comparison: `ct_eq` of src/pow/challenge.cpp, and the same loop written out in
-- `submit_reply` of src/feedback/service.cpp.
use deltafeedback.Prelude.{
  ℕ, ◌≡◌, refl, ◌↔◌, Bool, true, false, not, [], ◌∷◌, Bytes, length, bit_or, bit_xor,
  bit_or-eq-zero, bit_xor-eq-zero, ◌==◌, ==_iff, if◌then◌else◌, arith, ap, Bool-cases, inl, inr,
}

-- `d |= a[i] ^ b[i]` over the common length; the operands are bytes, and so is the result.
unfoldable pub difference : Bytes → Bytes → ℕ → ℕ
difference (x ∷ a) (y ∷ b) d = difference a b (bit_or d (bit_xor x y))
difference _ _ d = d

unfoldable pub ct_eq : Bytes → Bytes → Bool
unfolding difference
ct_eq a b = if not (length a == length b) then false else difference a b 0 == 0

pub difference-eq-zero :
    (a b : Bytes) (d : ℕ) → length a ≡ length b → (difference a b d ≡ 0) ↔ ((d ≡ 0) × (a ≡ b))
unfolding difference
difference-eq-zero [] [] d h = (λ e. (e, refl), λ p. p.0)
difference-eq-zero [] (y ∷ b) d h = absurd (omega arith)
difference-eq-zero (x ∷ a) [] d h = absurd (omega arith)
difference-eq-zero (x ∷ a) (y ∷ b) d h = ground (
  arith,
  difference-eq-zero a b (bit_or d (bit_xor x y)) (omega arith),
  bit_or-eq-zero d (bit_xor x y),
  bit_xor-eq-zero x y,
)

-- The constant-time comparison accepts exactly equal texts.
pub ct_eq_iff : (a b : Bytes) → (ct_eq a b ≡ true) ↔ (a ≡ b)
unfolding ct_eq
ct_eq_iff a b = elim (Bool-cases (length a == length b)) [
  | inl e ↦ rw e (ground (arith, difference-eq-zero a b 0 ((==_iff (length a) (length b)).0 e)))
  | inr e ↦ rw e (λ h. cc, λ h. absurd (ground (arith, ap length h)))
]
