-- ===== src/Pow/Base64.antt =====
-- `b64url_encode` and `b64url_decode` of src/pow/challenge.cpp.
pub mod RoundTrip
pub mod Alphabet
use deltafeedback.Prelude.{
  ℕ, suc, ◌+◌, ◌-◌, ◌*◌, ◌/◌, ◌%◌, ◌^◌, Bool, true, false, [], ◌∷◌, ◌++◌, Option, none, some, Bytes,
  codes, bit_and, bit_or, ltb, ◌==◌, if◌then◌else◌, get_or,
}

abbrev pub alphabet : Bytes
alphabet = codes "ABCDEFGHIJKLMNOPQRSTUVWXYZabcdefghijklmnopqrstuvwxyz0123456789-_"

-- `kAlpha[i]`.
unfoldable pub alpha : ℕ → ℕ
alpha i = get_or alphabet i 0

unfoldable pub b64url_encode : Bytes → Bytes
b64url_encode (a ∷ b ∷ c ∷ rest) =
    alpha (a / 2 ^ 2)
    ∷ alpha (bit_or (bit_and a 0x03 * 2 ^ 4) (b / 2 ^ 4))
    ∷ alpha (bit_or (bit_and b 0x0F * 2 ^ 2) (c / 2 ^ 6))
    ∷ alpha (bit_and c 0x3F)
    ∷ b64url_encode rest
b64url_encode (a ∷ b ∷ []) =
    alpha (a / 2 ^ 2)
    ∷ alpha (bit_or (bit_and a 0x03 * 2 ^ 4) (b / 2 ^ 4))
    ∷ alpha (bit_and b 0x0F * 2 ^ 2)
    ∷ []
b64url_encode (a ∷ []) = alpha (a / 2 ^ 2) ∷ alpha (bit_and a 0x03 * 2 ^ 4) ∷ []
b64url_encode [] = []

-- `rev[ch]`: the place of the character in the alphabet, and `none` for the -1 of all others.
unfoldable pub place : ℕ → Bytes → ℕ → Option ℕ
place ch [] i = none
place ch (c ∷ cs) i = if ch == c then some i else place ch cs (i + 1)

unfoldable pub rev : ℕ → Option ℕ
unfolding place
rev ch = place ch alphabet 0

-- The loop over the input. `val` is an `int` that is never masked, so its upper bits run off the top;
-- it is kept as its 32-bit pattern. `bits` is below 8 before each round, so the byte that is read
-- lies in the low bits, where the pattern shifted right and the value shifted right agree.
unfoldable pub b64url_decode_loop : Bytes → ℕ → ℕ → Bytes → Option Bytes
b64url_decode_loop [] val bits out = some out
b64url_decode_loop (ch ∷ s) val bits out = elim (rev ch) [
  | none ↦ none
  | some v ↦
      let val' = bit_or (val * 2 ^ 6 % 2 ^ 32) v in
      let bits' = bits + 6 in
      elim (ltb bits' 8) [
        | true ↦ b64url_decode_loop s val' bits' out
        | false ↦
            b64url_decode_loop s val' (bits' - 8)
              (out ++ bit_and (val' / 2 ^ (bits' - 8)) 0xFF ∷ [])
      ]
]

unfoldable pub b64url_decode : Bytes → Option Bytes
unfolding b64url_decode_loop
b64url_decode s = b64url_decode_loop s 0 0 []
