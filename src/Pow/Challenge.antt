-- ===== src/Pow/Challenge.antt =====
-- `ChallengeIssuer` of src/pow/challenge.h and challenge.cpp. The reading of the clock is an argument
-- of each call; OpenSSL is the parameter `c`.
pub mod Split
pub mod Verdict
pub mod Issue
use deltafeedback.Prelude.{
  ℕ, ◌+◌, Bool, true, false, not, [], ◌∷◌, ◌++◌, List, Option, none, some, Bytes, ◌==◌, ltb,
  if◌then◌else◌, ℤ, ltb_ℤ, add64,
}
use deltafeedback.Pow.Crypto.{Crypto}
use deltafeedback.Pow.Base64.{b64url_encode, b64url_decode}
use deltafeedback.Pow.Compare.{ct_eq}
use deltafeedback.Pow.Decimal.{to_string, i64_to_str, parse_i64, parse_uint}
use deltafeedback.Pow.Digest.{leading_zero_bits}

pub record Challenge : Type 0 where
  pub token : Bytes
  pub id : Bytes
  pub expires_unix : ℤ
  pub difficulty_bits : ℕ

pub data VerifyResult : Type 0 where
  ok malformed bad_signature expired insufficient_work replay : VerifyResult

-- `ttl` is the count of seconds of `ttl_`.
pub record ChallengeIssuer : Type 0 where
  pub secret : Bytes
  pub difficulty_bits : ℕ
  pub ttl : ℤ

-- `parts[0]` to `parts[3]`.
pub record Fields : Type 0 where
  pub id_b64 : Bytes
  pub expires : Bytes
  pub difficulty : Bytes
  pub sig_b64 : Bytes

-- What the signature covers.
abbrev pub payload_of : Bytes → Bytes → Bytes → Bytes
payload_of id expires difficulty = id ++ (b'.' ∷ (expires ++ (b'.' ∷ difficulty)))

-- The loop that splits the token; `cur` holds `token[start]` to `token[i - 1]`, and `none` is the
-- return in the loop, at a dot inside the fourth field.
unfoldable pub split_loop : ℕ → Bytes → Bytes → List Bytes → Option (List Bytes)
split_loop idx [] cur parts = some (parts ++ cur ∷ [])
split_loop idx (c ∷ s) cur parts =
    if c == b'.'
    then (if idx == 3 then none else split_loop (idx + 1) s [] (parts ++ cur ∷ []))
    else split_loop idx s (cur ++ c ∷ []) parts

-- `idx != 4` is malformed.
abbrev pub four : Option (List Bytes) → Option Fields
four (some (a ∷ b ∷ c ∷ d ∷ [])) =
    some (record { id_b64 = a; expires = b; difficulty = c; sig_b64 = d })
four _ = none

unfoldable pub split_fields : Bytes → Option Fields
unfolding split_loop
split_fields token = four (split_loop 0 token [] [])

-- An early return on a missing value.
abbrev pub or_return {ℓ κ} : {A : Type ℓ} {R : Type κ} → Option A → R → (A → R) → R
or_return none r k = r
or_return (some a) r k = k a

module _ (c : Crypto) where
  unfoldable pub issue : ChallengeIssuer → ℤ → Bytes → Challenge
  issue p now random_id =
      let expires = add64 now p.ttl in
      let payload =
        payload_of (b64url_encode random_id) (i64_to_str expires) (to_string p.difficulty_bits) in
      let sig = c.hmac_sha256 p.secret payload in
      record {
        token = payload ++ (b'.' ∷ b64url_encode sig);
        id = random_id;
        expires_unix = expires;
        difficulty_bits = p.difficulty_bits;
      }

  -- From the parsing of the fields on. The second part of the result is `*out_id` after the call.
  unfoldable pub verify_fields :
      ChallengeIssuer → ℤ → Bytes → Bytes → Bytes → Fields → VerifyResult × Bytes
  verify_fields p now token nonce out_id f =
      or_return (parse_i64 f.expires) (VerifyResult.malformed, out_id)
        λ expires.
          or_return (parse_uint f.difficulty) (VerifyResult.malformed, out_id)
            λ difficulty.
              or_return (b64url_decode f.id_b64) (VerifyResult.malformed, out_id)
                λ id_raw.
                  or_return (b64url_decode f.sig_b64) (VerifyResult.malformed, out_id)
                    λ sig_raw.
                      let expected =
                        c.hmac_sha256 p.secret (payload_of f.id_b64 f.expires f.difficulty) in
                      if not (ct_eq expected sig_raw)
                      then (VerifyResult.bad_signature, out_id)
                      else if ltb_ℤ expires now
                      then (VerifyResult.expired, out_id)
                      else if ltb (leading_zero_bits (c.sha256 (token ++ (b':' ∷ nonce))))
                          difficulty
                      then (VerifyResult.insufficient_work, out_id)
                      else (VerifyResult.ok, id_raw)

  unfoldable pub verify : ChallengeIssuer → ℤ → Bytes → Bytes → Bytes → VerifyResult × Bytes
  unfolding verify_fields
  verify p now token nonce out_id =
      or_return (split_fields token) (VerifyResult.malformed, out_id)
        (verify_fields p now token nonce out_id)
