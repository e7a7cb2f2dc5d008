-- ===== src/Tests/Pow.antt =====
-- src/pow.
use deltafeedback.Prelude.{
  ◌*◌, ◌^◌, ◌≤◌, ◌<◌, ◌≡◌, ◌↔◌, refl, [], ◌∷◌, some, Bytes, codes, arith, pos, ◌+ℤ◌, add64, ap, sym,
  ◌∙◌, ℤ,
}
use deltafeedback.Pow.Base64.{alpha, b64url_encode, b64url_decode}
use deltafeedback.Pow.Base64.RoundTrip.{b64url_decode-encode}
use deltafeedback.Pow.Decimal.{i64_to_str}
use deltafeedback.Pow.Digest.{leading_zero_bits}
use deltafeedback.Pow.Digest.Target.{big_endian, leading_zero_bits-target}
use deltafeedback.Pow.Challenge.{VerifyResult, Fields, split_fields, issue, verify}
use deltafeedback.Pow.Challenge.Split.{IsSplit}
use deltafeedback.Pow.Challenge.Verdict.{Accepted, verify-Accepted_iff}
use deltafeedback.Pow.Challenge.Issue.{expected_answer, verify-issue}
use deltafeedback.Tests.Sample.{toy_crypto, issuer}

abbrev pub man : Bytes
man = codes "Ma"

man_encoded : b64url_encode man ≡ codes "TWE"
unfolding b64url_encode alpha
man_encoded = refl

b64url_decode-encode_example : b64url_decode (b64url_encode man) ≡ some man
b64url_decode-encode_example = b64url_decode-encode man (omega arith, (omega arith, tt))

abbrev digest : Bytes
digest = 0 ∷ 0x1F ∷ []

digest_bits : leading_zero_bits digest ≡ 11
unfolding leading_zero_bits
digest_bits = refl

leading_zero_bits-target_example :
    (11 ≤ leading_zero_bits digest) ↔ (big_endian digest * 2 ^ 11 < 256 ^ 2)
leading_zero_bits-target_example =
    leading_zero_bits-target digest 11 (omega arith, (omega arith, tt)) (omega arith)

abbrev four_fields : Fields
four_fields = record {
  id_b64 = codes "TWE";
  expires = codes "1300";
  difficulty = codes "8";
  sig_b64 = codes "TWE";
}

four_fields-IsSplit : IsSplit four_fields
four_fields-IsSplit = record {
  id_b64 = ground arith;
  expires = ground arith;
  difficulty = ground arith;
  sig_b64 = ground arith;
}

split_token : split_fields (codes "TWE.1300.8.TWE") ≡ some four_fields
unfolding split_fields
split_token = refl

-- The token for the id "Ma" at the time 1000, and its verification at 1200.
abbrev pub token : Bytes
token = codes "TWE.1300.8.AAoAAAAAAAAAAAAAAAAAAAAAAAAAAAAAAAAAAAAAAAA"

token_issued : (issue toy_crypto issuer (pos 1000) man).token ≡ token
unfolding issue b64url_encode alpha i64_to_str add64
token_issued = refl

token_answer :
    (later : ℤ)
    → verify toy_crypto issuer later token (codes "n") []
      ≡ expected_answer toy_crypto (issue toy_crypto issuer (pos 1000) man) later (codes "n") []
token_answer later =
    ap (λ t. verify toy_crypto issuer later t (codes "n") []) (sym token_issued)
    ∙ verify-issue toy_crypto issuer 1000 1300 later man (codes "n") []
        (omega arith, (omega arith, tt)) (unfold ◌+ℤ◌ in refl) (omega arith) (omega arith)

pub token_verified :
    verify toy_crypto issuer (pos 1200) token (codes "n") [] ≡ (VerifyResult.ok, man)
unfolding issue i64_to_str add64 b64url_encode leading_zero_bits
token_verified = token_answer (pos 1200) ∙ refl

token_expired :
    verify toy_crypto issuer (pos 1301) token (codes "n") [] ≡ (VerifyResult.expired, [])
unfolding issue i64_to_str add64
token_expired = token_answer (pos 1301) ∙ refl

verify-Accepted_iff_example :
    (verify toy_crypto issuer (pos 1200) token (codes "n") [] ≡ (VerifyResult.ok, man))
    ↔ Accepted toy_crypto issuer (pos 1200) token (codes "n") man
verify-Accepted_iff_example =
    verify-Accepted_iff toy_crypto issuer (pos 1200) token (codes "n") [] man

verify-issue_example :
    verify toy_crypto issuer
      (pos 1200)
      (issue toy_crypto issuer (pos 1000) man).token
      (codes "n")
      []
    ≡ expected_answer toy_crypto (issue toy_crypto issuer (pos 1000) man) (pos 1200) (codes "n") []
verify-issue_example =
    verify-issue toy_crypto issuer 1000 1300 (pos 1200) man (codes "n") []
      (omega arith, (omega arith, tt)) (unfold ◌+ℤ◌ in refl) (omega arith) (omega arith)
