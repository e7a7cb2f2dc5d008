-- ===== src/Pow/Challenge/Issue.antt =====
-- What `verify` makes of a token that `issue` made.
use deltafeedback.Prelude.{
  ℕ, ◌^◌, ◌<◌, ◌≡◌, refl, ◌∷◌, ◌++◌, Bytes, IsBytes, arith, ℤ, pos, add64, ◌+ℤ◌, signed64,
  pattern64, Lacks, if◌then◌else◌, ltb_ℤ, ltb,
}
use deltafeedback.Pow.Crypto.{Crypto}
use deltafeedback.Pow.Base64.{b64url_encode}
use deltafeedback.Pow.Base64.RoundTrip.{b64url_decode-encode, b64url_encode-Lacks}
use deltafeedback.Pow.Compare.{ct_eq_iff}
use deltafeedback.Pow.Decimal.{to_string, i64_to_str}
use deltafeedback.Pow.Decimal.RoundTrip.{
  parse_uint-to_string, parse_i64-i64_to_str, to_string-Lacks,
}
use deltafeedback.Pow.Digest.{leading_zero_bits}
use deltafeedback.Pow.Challenge.{
  Challenge, ChallengeIssuer, VerifyResult, Fields, payload_of, issue, verify_fields, verify,
}
use deltafeedback.Pow.Challenge.Split.{join, IsSplit, split_fields-join}

-- A sum of a clock reading and a time to live, where it neither overflows nor is negative.
add64_fits :
    (now : ℕ) (ttl : ℤ) (n : ℕ) → n < 2 ^ 63 → pos now +ℤ ttl ≡ pos n → add64 (pos now) ttl ≡ pos n
unfolding add64 ◌+ℤ◌ signed64 pattern64
add64_fits now ttl n h e = rw e (ground arith)

-- The answer on a token that this issuer made, at a later time and with some nonce.
abbrev pub expected_answer : Crypto → Challenge → ℤ → Bytes → Bytes → VerifyResult × Bytes
expected_answer c ch later nonce out_id =
    if ltb_ℤ ch.expires_unix later
    then (VerifyResult.expired, out_id)
    else if ltb (leading_zero_bits (c.sha256 (ch.token ++ (b':' ∷ nonce)))) ch.difficulty_bits
    then (VerifyResult.insufficient_work, out_id)
    else (VerifyResult.ok, ch.id)

i64_to_str-Lacks : (n : ℕ) → Lacks b'.' (i64_to_str (pos n))
unfolding i64_to_str
i64_to_str-Lacks n = to_string-Lacks n

module _ (c : Crypto) (p : ChallengeIssuer) (id : Bytes) (n : ℕ) (hid : IsBytes id) where
  abbrev payload : Bytes
  payload = payload_of (b64url_encode id) (i64_to_str (pos n)) (to_string p.difficulty_bits)

  abbrev fields : Fields
  fields = record {
    id_b64 = b64url_encode id;
    expires = i64_to_str (pos n);
    difficulty = to_string p.difficulty_bits;
    sig_b64 = b64url_encode (c.hmac_sha256 p.secret payload);
  }

  fields-IsSplit : IsSplit fields
  fields-IsSplit = record {
    id_b64 = b64url_encode-Lacks id hid;
    expires = i64_to_str-Lacks n;
    difficulty = to_string-Lacks p.difficulty_bits;
    sig_b64 = b64url_encode-Lacks _ (c.hmac_sha256-IsBytes p.secret payload);
  }

  abbrev made : Challenge
  made = record {
    token = join fields;
    id = id;
    expires_unix = pos n;
    difficulty_bits = p.difficulty_bits;
  }

  verify-made :
      (later : ℤ) (nonce out_id : Bytes)
      → n < 2 ^ 63
      → p.difficulty_bits < 2 ^ 32
      → verify c p later (join fields) nonce out_id ≡ expected_answer c made later nonce out_id
  unfolding verify verify_fields
  verify-made later nonce out_id hn hd =
      let mac = c.hmac_sha256 p.secret payload in
      rw
        (
          split_fields-join fields fields-IsSplit,
          parse_i64-i64_to_str n hn,
          parse_uint-to_string p.difficulty_bits hd,
          b64url_decode-encode id hid,
          b64url_decode-encode mac (c.hmac_sha256-IsBytes p.secret payload),
          (ct_eq_iff mac mac).1 refl,
        )
        refl

-- A token that `issue` made is refused only once it has expired or for too little work, and then
-- gives back the id that it was issued for.
pub verify-issue :
    (c : Crypto) (p : ChallengeIssuer) (now n : ℕ) (later : ℤ) (id nonce out_id : Bytes)
    → IsBytes id
    → pos now +ℤ p.ttl ≡ pos n
    → n < 2 ^ 63
    → p.difficulty_bits < 2 ^ 32
    → verify c p later (issue c p (pos now) id).token nonce out_id
      ≡ expected_answer c (issue c p (pos now) id) later nonce out_id
unfolding issue
verify-issue c p now n later id nonce out_id hid e hn hd =
    rw (add64_fits now p.ttl n hn e) (verify-made c p id n hid later nonce out_id hn hd)
