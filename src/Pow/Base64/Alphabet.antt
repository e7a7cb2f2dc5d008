-- ===== src/Pow/Base64/Alphabet.antt =====
-- The characters of the alphabet, by evaluation over its 64 places.
use deltafeedback.Prelude.{
  ℕ, ◌<◌, ◌≡◌, ◌≢◌, refl, Bool, true, false, not, none, some, ◌==◌, all_below, all_below_sound,
  arith,
}
use deltafeedback.Pow.Base64.{alpha, rev}

abbrev in_place : ℕ → Bool
in_place i = elim (rev (alpha i)) [ none ↦ false | some j ↦ j == i ]

in_place_table : all_below 64 in_place ≡ true
unfolding all_below rev alpha
in_place_table = refl

-- The reverse table inverts the alphabet.
pub rev-alpha : (i : ℕ) → i < 64 → rev (alpha i) ≡ some i
rev-alpha i h = ground (arith, all_below_sound 64 in_place i in_place_table h)

no_dot_table : all_below 64 (λ i. not (alpha i == b'.')) ≡ true
unfolding all_below alpha
no_dot_table = refl

-- The separator of the token is not in the alphabet.
pub alpha-ne-dot : (i : ℕ) → i < 64 → alpha i ≢ b'.'
alpha-ne-dot i h e =
    ground (arith, all_below_sound 64 (λ i. not (alpha i == b'.')) i no_dot_table h)
