-- ===== src/Feedback/Forms.antt =====
-- The inputs and outcomes of src/feedback/service.h, and what `Service` holds.
use deltafeedback.Prelude.{ℕ, not, [], Option, none, some, Bytes, if◌then◌else◌, ℤ}
use deltafeedback.Pow.Crypto.{Crypto}
use deltafeedback.Pow.Challenge.{ChallengeIssuer, VerifyResult}
use deltafeedback.Db.Schema.{Database}
use deltafeedback.Dc.Sender.{MessageSender}
use deltafeedback.Feedback.Validator.{Limits, is_ok, ValidationReport, SubmissionInput}
use deltafeedback.Feedback.Notify.{Tm}

pub data SubmitError : Type 0 where
  ok no_owner_configured pow_missing pow_invalid pow_replayed pow_expired pow_insufficient
        honeypot_tripped filled_too_fast bad_field send_failed :
      SubmitError

pub record SubmitResult : Type 0 where
  pub error : SubmitError
  pub ticket_id : Bytes
  pub read_token : Bytes

pub record SubmitInput : Type 0 where
  pub pow_token : Bytes
  pub pow_nonce : Bytes
  pub name : Bytes
  pub locale : Bytes
  pub honeypot : Bytes
  pub message : Bytes
  pub fill_time_ms : ℤ
  pub visitor_ip : Bytes

pub data ReplyError : Type 0 where
  ok not_found bad_token not_awaiting_visitor closed pow_missing pow_invalid pow_replayed
        pow_expired pow_insufficient bad_field send_failed :
      ReplyError

pub record ReplyInput : Type 0 where
  pub ticket_id : Bytes
  pub read_token : Bytes
  pub pow_token : Bytes
  pub pow_nonce : Bytes
  pub body : Bytes
  pub visitor_ip : Bytes

-- The clock when the token is verified, when the challenge is consumed and when the message is
-- stored, and the draws of the call.
pub record Readings : Type 0 where
  pub pow_now : ℤ
  pub replay_now : ℤ
  pub stamp_now : ℤ
  pub draws : ℕ → ℕ

-- The database and what the sender changes.
pub record World (W : Type 0) : Type 0 where
  pub db : Database
  pub out : W

-- The members that a call does not change, and the calendar.
pub record Setup (W : Type 0) : Type 0 where
  pub crypto : Crypto
  pub gmtime : ℤ → Tm
  pub issuer : ChallengeIssuer
  pub limits : Limits
  pub sender : MessageSender W

abbrev pub refuse : SubmitError → SubmitResult
refuse error = record { error = error; ticket_id = []; read_token = [] }

-- The switch over the verdict; `none` goes on.
unfoldable pub pow_error : VerifyResult → Option SubmitError
pow_error VerifyResult.ok = none
pow_error VerifyResult.malformed = some SubmitError.pow_invalid
pow_error VerifyResult.bad_signature = some SubmitError.pow_invalid
pow_error VerifyResult.expired = some SubmitError.pow_expired
pow_error VerifyResult.insufficient_work = some SubmitError.pow_insufficient
pow_error VerifyResult.replay = some SubmitError.pow_replayed

-- Step 3's choice of an error.
unfoldable pub report_error : ValidationReport → SubmitError
report_error rep =
    if not (is_ok rep.honeypot)
    then SubmitError.honeypot_tripped
    else if not (is_ok rep.timing)
    then SubmitError.filled_too_fast
    else SubmitError.bad_field

abbrev pub submission : SubmitInput → SubmissionInput
submission i = record {
  name = i.name;
  message = i.message;
  locale = i.locale;
  honeypot = i.honeypot;
  fill_time_ms = i.fill_time_ms;
}
