-- ===== src/Pow/Base64/RoundTrip.antt =====
-- Decoding what was encoded.
use deltafeedback.Prelude.{
  ℕ, ◌+◌, ◌*◌, ◌/◌, ◌%◌, ◌^◌, ◌<◌, ◌≡◌, refl, sym, ◌∙◌, ap, [], ◌∷◌, ◌++◌, some, append-nil,
  append_assoc, Bytes, IsBytes, bit_and, bit_or, bit_and_3, bit_and_15, bit_and_63, bit_and_255,
  bit_or_shifted, Lacks, arith,
}
use deltafeedback.Pow.Base64.{alpha, b64url_encode, b64url_decode_loop, b64url_decode}
use deltafeedback.Pow.Base64.Alphabet.{rev-alpha, alpha-ne-dot}

shift_in : (val v : ℕ) → v < 64 → bit_or (val * 2 ^ 6 % 2 ^ 32) v ≡ val % 2 ^ 26 * 64 + v
shift_in val v h =
    let e : val * 2 ^ 6 % 2 ^ 32 ≡ val % 2 ^ 26 * 2 ^ 6 = omega arith in
    rw e (bit_or_shifted 6 (val % 2 ^ 26) v h)

-- One round, at a character of the alphabet, from each number of bits that is left over.
module _ (v val : ℕ) (s out : Bytes) (h : v < 64) where
  abbrev next : ℕ
  next = val % 2 ^ 26 * 64 + v

  round_0 : b64url_decode_loop (alpha v ∷ s) val 0 out ≡ b64url_decode_loop s next 6 out
  unfolding b64url_decode_loop
  round_0 = rw (rev-alpha v h, b64url_decode_loop) (rw (shift_in val v h))

  round_6 :
      b64url_decode_loop (alpha v ∷ s) val 6 out
      ≡ b64url_decode_loop s next 4 (out ++ (next / 16 % 256) ∷ [])
  unfolding b64url_decode_loop
  round_6 = rw (rev-alpha v h, b64url_decode_loop) (rw (shift_in val v h, bit_and_255))

  round_4 :
      b64url_decode_loop (alpha v ∷ s) val 4 out
      ≡ b64url_decode_loop s next 2 (out ++ (next / 4 % 256) ∷ [])
  unfolding b64url_decode_loop
  round_4 = rw (rev-alpha v h, b64url_decode_loop) (rw (shift_in val v h, bit_and_255))

  round_2 :
      b64url_decode_loop (alpha v ∷ s) val 2 out
      ≡ b64url_decode_loop s next 0 (out ++ (next / 1 % 256) ∷ [])
  unfolding b64url_decode_loop
  round_2 = rw (rev-alpha v h, b64url_decode_loop) (rw (shift_in val v h, bit_and_255))

-- The six-bit values that `b64url_encode` looks up, as arithmetic.
field_2 : (a b : ℕ) → b < 256 → bit_or (bit_and a 0x03 * 2 ^ 4) (b / 2 ^ 4) ≡ a % 4 * 16 + b / 16
field_2 a b h = rw bit_and_3 (bit_or_shifted 4 (a % 4) (b / 2 ^ 4) (omega arith))

field_3 : (b c : ℕ) → c < 256 → bit_or (bit_and b 0x0F * 2 ^ 2) (c / 2 ^ 6) ≡ b % 16 * 4 + c / 64
field_3 b c h = rw bit_and_15 (bit_or_shifted 2 (b % 16) (c / 2 ^ 6) (omega arith))

-- The same round, with its value and its byte written another way.
restate :
    (s out : Bytes) (bits : ℕ) {val val' x y : ℕ}
    → val ≡ val'
    → x ≡ y
    → b64url_decode_loop s val bits (out ++ x ∷ []) ≡ b64url_decode_loop s val' bits (out ++ y ∷ [])
restate s out bits p q = cc

-- The first two characters of a group give its first byte, and each further one the next.
module _ (a b val : ℕ) (s out : Bytes) (ha : a < 256) (hb : b < 256) where
  decode_first :
      b64url_decode_loop (alpha (a / 4) ∷ alpha (a % 4 * 16 + b / 16) ∷ s) val 0 out
      ≡ b64url_decode_loop s (val % 2 ^ 20 * 4096 + a * 16 + b / 16) 4 (out ++ a ∷ [])
  decode_first =
      round_0 (a / 4) val _ out (omega arith)
      ∙ round_6 (a % 4 * 16 + b / 16) _ s out (omega arith)
      ∙ restate s out 4 (omega arith) (omega arith)

  decode_second :
      (c : ℕ)
      → c < 256
      → b64url_decode_loop (alpha (b % 16 * 4 + c / 64) ∷ s) (val * 4096 + a * 16 + b / 16) 4 out
        ≡ b64url_decode_loop s
            (((val % 2 ^ 14 * 4096 + a * 16 + b / 16) * 16 + b % 16) * 4 + c / 64)
            2
            (out ++ b ∷ [])
  decode_second c hc =
      round_4 (b % 16 * 4 + c / 64) _ s out (omega arith)
      ∙ restate s out 2 (omega arith) (omega arith)

decode_third :
    (c val : ℕ) (s out : Bytes)
    → c < 256
    → b64url_decode_loop (alpha (c % 64) ∷ s) (val * 4 + c / 64) 2 out
      ≡ b64url_decode_loop s (val % 2 ^ 24 * 256 + c) 0 (out ++ c ∷ [])
decode_third c val s out h =
    round_2 (c % 64) _ s out (omega arith) ∙ restate s out 0 (omega arith) (omega arith)

decode_end : (val bits : ℕ) (out : Bytes) → b64url_decode_loop [] val bits out ≡ some out
unfolding b64url_decode_loop
decode_end val bits out = refl

-- Decoding from any left-over value, as long as no bits are pending.
decode_loop-encode :
    (s : Bytes) (val : ℕ) (out : Bytes)
    → IsBytes s
    → b64url_decode_loop (b64url_encode s) val 0 out ≡ some (out ++ s)
unfolding b64url_encode
decode_loop-encode [] val out h = decode_end val 0 out ∙ ap some (sym (append-nil out))
decode_loop-encode (a ∷ []) val out (ha, _) =
    let pad : a % 4 * 2 ^ 4 ≡ a % 4 * 16 + 0 / 16 = omega arith in
    rw (bit_and_3, pad) (decode_first a 0 val [] out ha (omega arith) ∙ decode_end _ 4 _)
decode_loop-encode (a ∷ b ∷ []) val out (ha, (hb, _)) =
    let pad : b % 16 * 2 ^ 2 ≡ b % 16 * 4 + 0 / 64 = omega arith in
    rw (field_2 a b hb, bit_and_15, pad)
      (decode_first a b val _ out ha hb
        ∙ decode_second a b _ [] (out ++ a ∷ []) ha hb 0 (omega arith)
        ∙ decode_end _ 2 _
        ∙ ap some (append_assoc out (a ∷ []) (b ∷ [])))
decode_loop-encode (a ∷ b ∷ c ∷ rest) val out (ha, (hb, (hc, h))) =
    rw (field_2 a b hb, field_3 b c hc, bit_and_63)
      (decode_first a b val _ out ha hb
        ∙ decode_second a b _ _ (out ++ a ∷ []) ha hb c hc
        ∙ decode_third c _ _ _ hc
        ∙ decode_loop-encode rest _ (out ++ a ∷ [] ++ b ∷ [] ++ c ∷ []) h
        ∙ ap some (simp append_assoc))

-- `b64url_decode` reads back every string of bytes that `b64url_encode` wrote.
pub b64url_decode-encode : (s : Bytes) → IsBytes s → b64url_decode (b64url_encode s) ≡ some s
unfolding b64url_decode
b64url_decode-encode s h = decode_loop-encode s 0 [] h

-- The encoded text has no dot, whatever the bytes.
pub b64url_encode-Lacks : (s : Bytes) → IsBytes s → Lacks b'.' (b64url_encode s)
unfolding b64url_encode
b64url_encode-Lacks [] h = tt
b64url_encode-Lacks (a ∷ []) (ha, _) =
    rw bit_and_3 (alpha-ne-dot _ (omega arith), (alpha-ne-dot _ (omega arith), tt))
b64url_encode-Lacks (a ∷ b ∷ []) (ha, (hb, _)) =
    rw (field_2 a b hb, bit_and_15)
      (
        alpha-ne-dot _ (omega arith),
        (alpha-ne-dot _ (omega arith), (alpha-ne-dot _ (omega arith), tt)),
      )
b64url_encode-Lacks (a ∷ b ∷ c ∷ rest) (ha, (hb, (hc, h))) =
    rw (field_2 a b hb, field_3 b c hc, bit_and_63)
      (
        alpha-ne-dot _ (omega arith),
        (
          alpha-ne-dot _ (omega arith),
          (
            alpha-ne-dot _ (omega arith),
            (alpha-ne-dot _ (omega arith), b64url_encode-Lacks rest h),
          ),
        ),
      )
