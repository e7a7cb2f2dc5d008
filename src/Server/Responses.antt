-- ===== src/Server/Responses.antt =====
-- The answers of the API of src/server/server.cpp: the maps of errors, and the bodies.
use deltafeedback.Prelude.{ℕ, List, Option, Bytes, codes}
use deltafeedback.Pow.Challenge.{Challenge}
use deltafeedback.Db.Messages.{Message}
use deltafeedback.Feedback.Forms.{SubmitError, ReplyError}

pub record Outcome : Type 0 where
  pub status : ℕ
  pub code : Bytes

unfoldable pub map_submit_error : SubmitError → Outcome
map_submit_error SubmitError.ok = record { status = 200; code = codes "ok" }
map_submit_error SubmitError.no_owner_configured = record { status = 503; code = codes "no_owner" }
map_submit_error SubmitError.pow_missing = record { status = 400; code = codes "pow_failed" }
map_submit_error SubmitError.pow_invalid = record { status = 400; code = codes "pow_failed" }
map_submit_error SubmitError.pow_expired = record { status = 400; code = codes "pow_failed" }
map_submit_error SubmitError.pow_replayed = record { status = 400; code = codes "pow_failed" }
map_submit_error SubmitError.pow_insufficient = record { status = 400; code = codes "pow_failed" }
map_submit_error SubmitError.honeypot_tripped = record { status = 400; code = codes "honeypot" }
map_submit_error SubmitError.filled_too_fast = record { status = 400; code = codes "too_fast" }
map_submit_error SubmitError.bad_field = record { status = 400; code = codes "bad_field" }
map_submit_error SubmitError.send_failed = record { status = 502; code = codes "send_failed" }

unfoldable pub map_reply_error : ReplyError → Outcome
map_reply_error ReplyError.ok = record { status = 200; code = codes "ok" }
map_reply_error ReplyError.not_found = record { status = 404; code = codes "not_found" }
map_reply_error ReplyError.bad_token = record { status = 403; code = codes "bad_token" }
map_reply_error ReplyError.not_awaiting_visitor = record {
  status = 409;
  code = codes "not_your_turn";
}
map_reply_error ReplyError.closed = record { status = 410; code = codes "ticket_closed" }
map_reply_error ReplyError.pow_invalid = record { status = 400; code = codes "pow_failed" }
map_reply_error ReplyError.pow_expired = record { status = 400; code = codes "pow_failed" }
map_reply_error ReplyError.pow_replayed = record { status = 400; code = codes "pow_failed" }
map_reply_error ReplyError.pow_insufficient = record { status = 400; code = codes "pow_failed" }
map_reply_error ReplyError.pow_missing = record { status = 400; code = codes "pow_failed" }
map_reply_error ReplyError.bad_field = record { status = 400; code = codes "bad_field" }
map_reply_error ReplyError.send_failed = record { status = 502; code = codes "send_failed" }

-- The body of an answer, before it is printed as JSON.
pub data Payload : Type 0 where
  error_code : Bytes → Payload
  challenge : Challenge → Payload
  submitted : Bytes → Option (Bytes × Bytes) → Payload
  thread : Bytes → List Message → Payload
  no_body : Payload

pub record Response : Type 0 where
  pub status : ℕ
  pub payload : Payload

abbrev pub failure : ℕ → Bytes → Response
failure status code = record { status = status; payload = error_code code }

abbrev pub rate_limited : Response
rate_limited = failure 429 (codes "rate_limited")
