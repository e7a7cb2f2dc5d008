-- ===== src/Pow/Challenge/Verdict.antt =====
-- When `verify` accepts, and what it does to `*out_id` when it does not.
use deltafeedback.Prelude.{
  ℕ, ◌≤◌, ◌≡◌, ◌≢◌, ◌↔◌, refl, ap, ◌∙◌, inl, inr, ◌∷◌, ◌++◌, Option, none, some, Option-cases,
  Bytes, arith, ℤ, ◌≤ℤ◌,
}
use deltafeedback.Pow.Crypto.{Crypto}
use deltafeedback.Pow.Base64.{b64url_decode}
use deltafeedback.Pow.Compare.{ct_eq_iff}
use deltafeedback.Pow.Decimal.{parse_i64, parse_uint}
use deltafeedback.Pow.Digest.{leading_zero_bits}
use deltafeedback.Pow.Challenge.{
  ChallengeIssuer, VerifyResult, Fields, payload_of, split_fields, or_return, verify_fields, verify,
}
use deltafeedback.Pow.Challenge.Split.{join, IsSplit, split_fields-join, split_fields-IsSplit}

module _ (c : Crypto) (p : ChallengeIssuer) (now : ℤ) (token nonce : Bytes) where
  -- The fields are in order, signed with the secret, not expired, and carry enough work.
  pub record Proves (f : Fields) (id : Bytes) : Type 0 where
    pub expires : ℤ
    pub difficulty : ℕ
    pub expires_is : parse_i64 f.expires ≡ some expires
    pub difficulty_is : parse_uint f.difficulty ≡ some difficulty
    pub id_is : b64url_decode f.id_b64 ≡ some id
    pub signed :
        b64url_decode f.sig_b64
        ≡ some (c.hmac_sha256 p.secret (payload_of f.id_b64 f.expires f.difficulty))
    pub fresh : now ≤ℤ expires
    pub work : difficulty ≤ leading_zero_bits (c.sha256 (token ++ (b':' ∷ nonce)))

  -- The token is four such fields with dots between them, and none inside.
  pub record Accepted (id : Bytes) : Type 0 where
    pub fields : Fields
    pub split : IsSplit fields
    pub token_is : token ≡ join fields
    pub proves : Proves fields id

  verify_fields-Proves :
      (f : Fields) (out_id id : Bytes)
      → verify_fields c p now token nonce out_id f ≡ (VerifyResult.ok, id)
      → Proves f id
  unfolding verify_fields
  verify_fields-Proves f out_id id e = elim (Option-cases (parse_i64 f.expires)) [
    | inl p1 ↦ absurd (ground arith)
    | inr (expires, p1) ↦ elim (Option-cases (parse_uint f.difficulty)) [
      | inl p2 ↦ absurd (ground arith)
      | inr (difficulty, p2) ↦ elim (Option-cases (b64url_decode f.id_b64)) [
        | inl p3 ↦ absurd (ground arith)
        | inr (id_raw, p3) ↦ elim (Option-cases (b64url_decode f.sig_b64)) [
          | inl p4 ↦ absurd (ground arith)
          | inr (sig_raw, p4) ↦
              let same =
                ct_eq_iff (c.hmac_sha256 p.secret (payload_of f.id_b64 f.expires f.difficulty))
                  sig_raw in
              record {
                expires = expires;
                difficulty = difficulty;
                expires_is = p1;
                difficulty_is = p2;
                id_is = ground arith;
                signed = ground (arith, same);
                fresh = ground arith;
                work = ground arith;
              }
        ]
      ]
    ]
  ]

  Proves-verify_fields :
      (f : Fields) (out_id id : Bytes)
      → Proves f id
      → verify_fields c p now token nonce out_id f ≡ (VerifyResult.ok, id)
  unfolding verify_fields
  Proves-verify_fields f out_id id h =
      let expected = c.hmac_sha256 p.secret (payload_of f.id_b64 f.expires f.difficulty) in
      rw (h.expires_is, h.difficulty_is, h.id_is, h.signed)
        (ground (arith, ct_eq_iff expected expected, h.fresh, h.work))

  split-Accepted :
      (r : Option Fields) (out_id id : Bytes)
      → split_fields token ≡ r
      → or_return r (VerifyResult.malformed, out_id) (verify_fields c p now token nonce out_id)
        ≡ (VerifyResult.ok, id)
      → Accepted id
  split-Accepted none out_id id s e = absurd (ground arith)
  split-Accepted (some f) out_id id s e =
      let (split, join) = split_fields-IsSplit token f s in
      record {
        fields = f;
        split = split;
        token_is = join;
        proves = verify_fields-Proves f out_id id e;
      }

  -- `verify` answers `Ok` with an id exactly when the token is four fields, signed, fresh and worked
  -- for, and the id is what the first field encodes.
  pub verify-Accepted_iff :
      (out_id id : Bytes)
      → (verify c p now token nonce out_id ≡ (VerifyResult.ok, id)) ↔ Accepted id
  unfolding verify
  verify-Accepted_iff out_id id = (
    split-Accepted (split_fields token) out_id id refl,
    λ a.
        let s : split_fields token ≡ some a.fields =
          ap split_fields a.token_is ∙ split_fields-join a.fields a.split in
        rw s (Proves-verify_fields a.fields out_id id a.proves),
  )

  -- On every other answer the caller's id is left as it was, and `Replay` is no answer.
  pub verify_out_id :
      (out_id : Bytes)
      → let r = verify c p now token nonce out_id in
        (r.0 ≢ VerifyResult.ok → r.1 ≡ out_id) × (r.0 ≢ VerifyResult.replay)
  unfolding verify
  verify_out_id out_id = ground arith
