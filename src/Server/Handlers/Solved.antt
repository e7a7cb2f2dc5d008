-- ===== src/Server/Handlers/Solved.antt =====
-- From GET /api/captcha to POST /api/feedback.
use deltafeedback.Prelude.{
  ℕ, ◌^◌, ◌≤◌, ◌<◌, ◌≡◌, refl, sym, ap, subst, ◌∙◌, true, false, [], ◌∷◌, ◌++◌, some, none, Option,
  ℤ, codes, Bytes, IsBytes, pos, ◌+ℤ◌, ltb_ℤ, ltb, Result, arith,
}
use deltafeedback.Pow.Digest.{leading_zero_bits}
use deltafeedback.Pow.Challenge.{Challenge, VerifyResult, issue, verify}
use deltafeedback.Pow.Challenge.Issue.{expected_answer, verify-issue}
use deltafeedback.Db.Replay.{has_challenge}
use deltafeedback.Db.Tickets.{find_ticket}
use deltafeedback.Feedback.Random.{make_random, make_random-IsBytes}
use deltafeedback.Feedback.Validator.{report_ok, validate}
use deltafeedback.Feedback.Forms.{Setup, Readings, SubmitInput, World, submission}
use deltafeedback.Feedback.Service.{submit_id, submit_token, submit_new}
use deltafeedback.Feedback.Service.Accept.{IsReady, submit_note, sent_result, submit_new_ready}
use deltafeedback.Server.Responses.{map_submit_error, Payload, Response}
use deltafeedback.Server.Handlers.{
  Json, get_captcha, fill_time, submit_input, submit_response, respond, submit_parsed,
  post_feedback,
}

-- What a visitor does with a challenge: the form holds its token and a nonce that is work enough, and is
-- posted in time.
pub record Solves {W : Type 0} (u : Setup W) (r : Readings) (ch : Challenge) (i : SubmitInput)
    : Type 0 where
  pub token_is : i.pow_token ≡ ch.token
  pub in_time : ltb_ℤ ch.expires_unix r.pow_now ≡ false
  pub work :
      ch.difficulty_bits ≤ leading_zero_bits (u.crypto.sha256 (ch.token ++ (b':' ∷ i.pow_nonce)))

abbrev challenge_or : Challenge → Payload → Challenge
challenge_or other (Payload.challenge ch) = ch
challenge_or other _ = other

-- The two answers to a form that went through: the sender took the notification, or did not.
abbrev pub told : Bytes → Bytes → Option ℕ → Response
told id token (some dc_msg_id) = record {
  status = 200;
  payload = Payload.submitted (codes "ok") (some (id, token));
}
told id token none = record { status = 502; payload = Payload.submitted (codes "send_failed") none }

abbrev answered : {A : Type 0} → (A → Response) → Result A → Result Response
answered f Result.throw = Result.throw
answered f (Result.ok a) = Result.ok (f a)

respond-answered :
    {A S : Type 0} (f : A → Response) (x : Result A × S) → (respond f x).0 ≡ answered f x.0
respond-answered f (Result.throw, s) = refl
respond-answered f (Result.ok a, s) = refl

module _ {W : Type 0} (u : Setup W) (r : Readings) (s : World W) where
  solved_verified :
      (now n : ℕ) (id : Bytes) (i : SubmitInput) (ch : Challenge)
      → ch ≡ issue u.crypto u.issuer (pos now) id
      → IsBytes id
      → pos now +ℤ u.issuer.ttl ≡ pos n
      → n < 2 ^ 63
      → u.issuer.difficulty_bits < 2 ^ 32
      → Solves u r ch i
      → verify u.crypto u.issuer r.pow_now i.pow_token i.pow_nonce [] ≡ (VerifyResult.ok, ch.id)
  solved_verified now n id i ch e bytes ttl fits bits solves = rw solves.token_is (
      rw e (
        verify-issue u.crypto u.issuer now n r.pow_now id i.pow_nonce [] bytes ttl fits bits
        ∙ solved_answer))
    where
      made : Challenge
      made = issue u.crypto u.issuer (pos now) id

      late : ltb_ℤ made.expires_unix r.pow_now ≡ false
      late = subst (λ c. ltb_ℤ c.expires_unix r.pow_now ≡ false) e solves.in_time

      enough :
          ltb
            (leading_zero_bits (u.crypto.sha256 (made.token ++ (b':' ∷ i.pow_nonce))))
            made.difficulty_bits
          ≡ false
      enough =
          subst
            (λ c.
              ltb (leading_zero_bits (u.crypto.sha256 (c.token ++ (b':' ∷ i.pow_nonce))))
                c.difficulty_bits
              ≡ false)
            e (ground (arith, solves.work))

      solved_answer :
          expected_answer u.crypto made r.pow_now i.pow_nonce [] ≡ (VerifyResult.ok, made.id)
      solved_answer = rw (late, enough) refl

  told-submit_response :
      (i : SubmitInput) (answer : Option ℕ)
      → submit_response (sent_result u r i s answer)
        ≡ told (submit_id u r) (submit_token u r) answer
  unfolding submit_response map_submit_error
  told-submit_response i none = refl
  told-submit_response i (some dc_msg_id) = refl

  -- A visitor who fetched a challenge at the time `now`, found a nonce with work enough and posts the form
  -- before the challenge expires, is answered with status 200, the code ok and the new ticket's id and
  -- read token if the sender takes the notification, and with status 502, the code send_failed and
  -- neither of them if it does not. The form's fill_time_ms is a number or left out, the challenge's id
  -- is not used yet, the fields are valid, there is an owner, the new id is free, the expiry is a
  -- 63-bit number and the difficulty a 32-bit one.
  pub captcha_solved :
      (now n : ℕ) (draws : ℕ → ℕ) (body : Json) (filled : ℤ) (ip : Bytes) (ch : Challenge)
      (owner : ℕ)
      → let i = submit_input body filled ip in
        fill_time (body.int (codes "fill_time_ms")) ≡ Result.ok filled
        → get_captcha u.crypto u.issuer (pos now) draws true
          ≡ record { status = 200; payload = Payload.challenge ch }
        → pos now +ℤ u.issuer.ttl ≡ pos n
        → n < 2 ^ 63
        → u.issuer.difficulty_bits < 2 ^ 32
        → Solves u r ch i
        → has_challenge ch.id s.db.pow_replay ≡ false
        → report_ok (validate u.limits (submission i)) ≡ true
        → u.sender.owner_contact_id s.out ≡ some owner
        → find_ticket (submit_id u r) s.db.tickets ≡ none
        → (post_feedback u r true (some body) ip s).0
          ≡ Result.ok (
              told
                (submit_id u r)
                (submit_token u r)
                (u.sender.send_to_owner (submit_note u r i s) 0 s.out).0)
  unfolding get_captcha post_feedback
  captcha_solved now n draws body filled ip ch owner read given ttl fits bits solves unused valid
        owned id_free =
      let i = submit_input body filled ip in
      let e : ch ≡ issue u.crypto u.issuer (pos now) (make_random draws 16) =
        sym (ap (λ x. challenge_or ch x.payload) given) in
      let verified =
        solved_verified now n (make_random draws 16) i ch e (make_random-IsBytes draws 16).1 ttl
          fits bits solves in
      let ready : IsReady u r i s = record {
        challenge_id = ch.id;
        verified = verified;
        unused = unused;
        valid = valid;
        owner = owner;
        owned = owned;
        id_free = id_free;
      } in
      ap (λ ms. (submit_parsed u r body ip ms s).0) read
      ∙ respond-answered submit_response (submit_new u r i s)
      ∙ ap (answered submit_response) (submit_new_ready u r i s ready)
      ∙ ap Result.ok
          (told-submit_response i (u.sender.send_to_owner (submit_note u r i s) 0 s.out).0)
