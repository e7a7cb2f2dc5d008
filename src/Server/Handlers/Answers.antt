-- ===== src/Server/Handlers/Answers.antt =====
-- Which answers hand out a read token, and the status of the others.
use deltafeedback.Prelude.{
  ℕ, ◌≤◌, ◌≡◌, refl, Bool, true, false, Option, none, some, Bytes, codes, ℤ, Result, arith,
}
use deltafeedback.Feedback.Forms.{Setup, Readings, SubmitError, SubmitResult, World}
use deltafeedback.Feedback.Service.{submit_new}
use deltafeedback.Server.Responses.{map_submit_error, Payload, Response}
use deltafeedback.Server.Handlers.{
  Json, fill_time, submit_input, submit_response, respond, submit_parsed, post_feedback,
}

-- A ticket's id and token come with the status 200; every other answer is an error.
abbrev pub Released : ℕ → Payload → Type 0
Released status (Payload.submitted code (some (id, token))) = status ≡ 200
Released status (Payload.submitted code none) = 400 ≤ status
Released status (Payload.error_code code) = 400 ≤ status
Released status _ = ⊥

abbrev pub AllReleased : {S : Type 0} → Result Response × S → Type 0
AllReleased (Result.throw, s) = Unit
AllReleased (Result.ok a, s) = Released a.status a.payload

by_submit_error :
    (e : SubmitError) (id token : Bytes)
    → let a = submit_response (record { error = e; ticket_id = id; read_token = token }) in
      Released a.status a.payload
unfolding submit_response map_submit_error
by_submit_error SubmitError.ok id token = refl
by_submit_error _ id token = omega arith

-- POST /api/feedback hands out an id and a token with status 200 only; every other answer is an error
-- of status 400 or more.
pub post_feedback-Released :
    {W : Type 0} (u : Setup W) (r : Readings) (allowed : Bool) (body : Option Json) (ip : Bytes)
    (s : World W)
    → AllReleased (post_feedback u r allowed body ip s)
unfolding post_feedback
post_feedback-Released u r false body ip s = omega arith
post_feedback-Released u r true none ip s = omega arith
post_feedback-Released {W} u r true (some body) ip s =
    parsed (fill_time (body.int (codes "fill_time_ms")))
  where
    answer : (x : Result SubmitResult × World W) → AllReleased (respond submit_response x)
    answer (Result.throw, t) = tt
    answer (Result.ok a, t) = by_submit_error a.error a.ticket_id a.read_token

    parsed : (filled : Result ℤ) → AllReleased (submit_parsed u r body ip filled s)
    parsed Result.throw = tt
    parsed (Result.ok filled) = answer (submit_new u r (submit_input body filled ip) s)
