-- ===== src/Tests/Solved.antt =====
-- A visitor's challenge, solved and posted.
use deltafeedback.Prelude.{
  ℕ, ◌+◌, ◌≡◌, add64, refl, true, some, [], codes, pos, ◌+ℤ◌, bytes_eq, if◌then◌else◌, Result,
  arith,
}
use deltafeedback.Pow.Base64.{b64url_encode}
use deltafeedback.Pow.Decimal.{i64_to_str}
use deltafeedback.Pow.Challenge.{Challenge, issue}
use deltafeedback.Feedback.Random.{make_random, make_ticket_id}
use deltafeedback.Db.Tickets.{find_ticket}
use deltafeedback.Db.Replay.{has_challenge}
use deltafeedback.Feedback.Validator.{
  check_text, has_disallowed_control_chars, report_ok, utf8_codepoint_count, validate,
  default_limits,
}
use deltafeedback.Feedback.Forms.{submission, SubmitInput}
use deltafeedback.Feedback.Service.{submit_id, submit_token}
use deltafeedback.Server.Responses.{Payload}
use deltafeedback.Pow.Digest.{leading_zero_bits}
use deltafeedback.Server.Handlers.{Json, fill_time, submit_input, post_feedback, get_captcha}
use deltafeedback.Server.Handlers.Solved.{Solves, captcha_solved}
use deltafeedback.Tests.Sample.{toy_crypto, issuer}
use deltafeedback.Tests.Feedback.{setup, readings, world}
use deltafeedback.Tests.Protocol.{member}

abbrev draws : ℕ → ℕ
draws k = k + 1

abbrev fetched : Challenge
fetched = issue toy_crypto issuer (pos 1000) (make_random draws 16)

abbrev posted : Json
unfolding bytes_eq
posted = record {
  str = λ k. if bytes_eq k (codes "pow_token") then some fetched.token else member k;
  int = λ k. some (Result.ok (pos 2000));
}

abbrev input : SubmitInput
input = submit_input posted (pos 2000) []

posted_token : input.pow_token ≡ fetched.token
unfolding posted bytes_eq
posted_token = refl

posted_filled : fill_time (posted.int (codes "fill_time_ms")) ≡ Result.ok (pos 2000)
unfolding posted
posted_filled = refl

posted-Solves : Solves setup readings fetched input
unfolding issue add64 leading_zero_bits b64url_encode make_random i64_to_str posted member
posted-Solves = record { token_is = posted_token; in_time = refl; work = omega arith }

posted_valid : report_ok (validate default_limits (submission input)) ≡ true
unfolding posted member report_ok validate bytes_eq check_text has_disallowed_control_chars
    utf8_codepoint_count
posted_valid = refl

captcha_solved_example :
    (post_feedback setup readings true (some posted) [] world).0
    ≡ Result.ok (record {
      status = 200;
      payload =
          Payload.submitted
            (codes "ok")
            (some (submit_id setup readings, submit_token setup readings));
    })
captcha_solved_example =
    captcha_solved setup readings world 1000 1300 draws posted (pos 2000) [] fetched 10
      posted_filled (unfold get_captcha in refl) (unfold ◌+ℤ◌ in refl) (omega arith) (omega arith)
      posted-Solves
      (unfold issue in unfold has_challenge in unfold make_random in unfold bytes_eq in refl)
      posted_valid refl (unfold make_ticket_id in unfold find_ticket in unfold bytes_eq in refl)
