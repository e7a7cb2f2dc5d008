-- ===== src/Feedback/Service.antt =====
-- `Service` of src/feedback/service.h and service.cpp. A call's readings of the clock and draws of the
-- generator are its argument `r`; the repositories work on one database, and `sender` on its own state.
pub mod Submit
pub mod Submitted
pub mod Replied
pub mod Accept
pub mod Once
pub mod Keeps
pub mod Reply
use deltafeedback.Prelude.{
  ℕ, suc, Bool, true, false, not, [], ◌∷◌, Option, none, some, Bytes, is_empty, if◌then◌else◌, ℤ,
  pos, add64, Result, Exec, bind_at, ◌==◌, length,
}
use deltafeedback.Pow.Crypto.{Crypto}
use deltafeedback.Pow.Compare.{ct_eq}
use deltafeedback.Pow.Hex.{to_hex}
use deltafeedback.Pow.Challenge.{ChallengeIssuer, VerifyResult, verify}
use deltafeedback.Db.Schema.{Database}
use deltafeedback.Db.Replay.{try_consume}
use deltafeedback.Db.Tickets.{
  TicketStatus, awaiting_admin, awaiting_visitor, Ticket, insert_new, get, set_status,
}
use deltafeedback.Db.Messages.{visitor, append, set_dc_msg_id, latest_dc_msg_id_for_ticket}
use deltafeedback.Dc.Sender.{MessageSender}
use deltafeedback.Feedback.Validator.{
  Limits, FieldError, is_ok, ValidationReport, report_ok, SubmissionInput, validate, validate_reply,
}
use deltafeedback.Feedback.Random.{make_ticket_id, make_random}
use deltafeedback.Feedback.Notify.{Tm, format_admin_notification}
use deltafeedback.Feedback.Forms.{
  SubmitError, SubmitResult, SubmitInput, ReplyError, ReplyInput, Readings, World, Setup, refuse,
  pow_error, report_error, submission,
}

-- The replay store keeps a challenge for this many seconds.
abbrev pub replay_ttl : ℤ
replay_ttl = pos 3600

module _ {W : Type 0} (u : Setup W) where
  abbrev pub submit_id : Readings → Bytes
  submit_id r = make_ticket_id (r.draws 0)

  abbrev pub submit_token : Readings → Bytes
  submit_token r = to_hex (make_random (λ k. r.draws (suc k)) 32)

  abbrev pub submit_ticket : Readings → SubmitInput → Ticket
  submit_ticket r i = record {
    id = submit_id r;
    read_token_hash = u.crypto.sha256 (submit_token r);
    name = i.name;
    locale = i.locale;
    status = awaiting_admin;
    created_at = r.stamp_now;
    closed_at = none;
  }

  -- Step 6, from the answer of the sender on; the message id is set after a successful send.
  abbrev pub sent : Readings → ℕ → Database → Option ℕ × W → Result SubmitResult × World W
  sent r row_id db (none, w) = (
    Result.ok (record {
      error = SubmitError.send_failed;
      ticket_id = submit_id r;
      read_token = submit_token r;
    }),
    record { db = db; out = w },
  )
  sent r row_id db (some dc_msg_id, w) = (
    Result.ok
        (record { error = SubmitError.ok; ticket_id = submit_id r; read_token = submit_token r }),
    record { db = set_dc_msg_id row_id dc_msg_id db; out = w },
  )

  abbrev pub after_append :
      Readings → SubmitInput → W → Result ℕ × Database → Result SubmitResult × World W
  after_append r i w (Result.throw, db) = (Result.throw, record { db = db; out = w })
  after_append r i w (Result.ok row_id, db) =
      let note =
        format_admin_notification u.gmtime (submit_id r) i.visitor_ip r.stamp_now i.locale i.name
          i.message false in
      sent r row_id db (u.sender.send_to_owner note 0 w)

  abbrev pub after_insert :
      Readings → SubmitInput → W → Result (Unit {0}) × Database → Result SubmitResult × World W
  after_insert r i w (Result.throw, db) = (Result.throw, record { db = db; out = w })
  after_insert r i w (Result.ok _, db) =
      after_append r i w (append (submit_id r) visitor i.message r.stamp_now i.visitor_ip none db)

  -- Steps 5 and 6.
  unfoldable pub store_and_notify : Readings → SubmitInput → Exec (World W) SubmitResult
  store_and_notify r i s = after_insert r i s.out (insert_new (submit_ticket r i) s.db)

  -- Steps 3 to 6.
  unfoldable pub checked : Readings → SubmitInput → Exec (World W) SubmitResult
  unfolding report_error
  checked r i s =
      let rep = validate u.limits (submission i) in
      if not (report_ok rep)
      then (Result.ok (refuse (report_error rep)), s)
      else elim (u.sender.owner_contact_id s.out) [
        | none ↦ (Result.ok (refuse SubmitError.no_owner_configured), s)
        | some _ ↦ store_and_notify r i s
      ]

  abbrev pub after_consume :
      Readings → SubmitInput → W → Bool × Database → Result SubmitResult × World W
  after_consume r i w (false, db) =
      (Result.ok (refuse SubmitError.pow_replayed), record { db = db; out = w })
  after_consume r i w (true, db) = checked r i (record { db = db; out = w })

  abbrev pub after_verify :
      Readings → SubmitInput → Bytes → Option SubmitError → Exec (World W) SubmitResult
  after_verify r i challenge_id (some error) s = (Result.ok (refuse error), s)
  after_verify r i challenge_id none s =
      after_consume r i s.out (try_consume challenge_id (add64 r.replay_now replay_ttl) s.db)

  unfoldable pub submit_new : Readings → SubmitInput → Exec (World W) SubmitResult
  unfolding pow_error
  submit_new r i s =
      let (pv, challenge_id) = verify u.crypto u.issuer r.pow_now i.pow_token i.pow_nonce [] in
      after_verify r i challenge_id (pow_error pv) s

-- The switch of `submit_reply`.
unfoldable pub reply_pow_error : VerifyResult → Option ReplyError
reply_pow_error VerifyResult.ok = none
reply_pow_error VerifyResult.malformed = some ReplyError.pow_invalid
reply_pow_error VerifyResult.bad_signature = some ReplyError.pow_invalid
reply_pow_error VerifyResult.expired = some ReplyError.pow_expired
reply_pow_error VerifyResult.insufficient_work = some ReplyError.pow_insufficient
reply_pow_error VerifyResult.replay = some ReplyError.pow_replayed

abbrev pub or_zero : Option ℕ → ℕ
or_zero none = 0
or_zero (some i) = i

module _ {W : Type 0} (u : Setup W) where
  abbrev pub reply_sent : ℕ → Database → Option ℕ × W → Result ReplyError × World W
  reply_sent row_id db (none, w) = (Result.ok ReplyError.send_failed, record { db = db; out = w })
  reply_sent row_id db (some dc_msg_id, w) =
      (Result.ok ReplyError.ok, record { db = set_dc_msg_id row_id dc_msg_id db; out = w })

  abbrev pub reply_appended :
      Readings → ReplyInput → Ticket → ℕ → W → Result ℕ × Database → Result ReplyError × World W
  reply_appended r i t quote_id w (Result.throw, db) = (Result.throw, record { db = db; out = w })
  reply_appended r i t quote_id w (Result.ok row_id, db) =
      let note =
        format_admin_notification u.gmtime i.ticket_id i.visitor_ip r.stamp_now t.locale t.name
          i.body true in
      reply_sent row_id (set_status i.ticket_id awaiting_admin db)
        (u.sender.send_to_owner note quote_id w)

  -- From the reading of the clock on.
  unfoldable pub store_reply : Readings → ReplyInput → Ticket → Exec (World W) ReplyError
  store_reply r i t s =
      let quote_id = or_zero (latest_dc_msg_id_for_ticket i.ticket_id s.db) in
      reply_appended r i t quote_id s.out
        (append i.ticket_id visitor i.body r.stamp_now i.visitor_ip none s.db)

  abbrev pub reply_consumed :
      Readings → ReplyInput → Ticket → W → Bool × Database → Result ReplyError × World W
  reply_consumed r i t w (false, db) =
      (Result.ok ReplyError.pow_replayed, record { db = db; out = w })
  reply_consumed r i t w (true, db) =
      if not (is_ok (validate_reply u.limits i.body))
      then (Result.ok ReplyError.bad_field, record { db = db; out = w })
      else store_reply r i t (record { db = db; out = w })

  abbrev pub reply_verified :
      Readings → ReplyInput → Ticket → Bytes → Option ReplyError → Exec (World W) ReplyError
  reply_verified r i t challenge_id (some error) s = (Result.ok error, s)
  reply_verified r i t challenge_id none s =
      reply_consumed r i t s.out (try_consume challenge_id (add64 r.replay_now replay_ttl) s.db)

  -- From the comparison of the hashes on; the loop there is `ct_eq`.
  unfoldable pub reply_to : Readings → ReplyInput → Ticket → Exec (World W) ReplyError
  unfolding reply_pow_error
  reply_to r i t s =
      if not (ct_eq (u.crypto.sha256 i.read_token) t.read_token_hash)
      then (Result.ok ReplyError.bad_token, s)
      else elim t.status [
        | TicketStatus.closed ↦ (Result.ok ReplyError.closed, s)
        | TicketStatus.awaiting_admin ↦ (Result.ok ReplyError.not_awaiting_visitor, s)
        | TicketStatus.awaiting_visitor ↦
            let (pv, challenge_id) =
              verify u.crypto u.issuer r.pow_now i.pow_token i.pow_nonce [] in
            reply_verified r i t challenge_id (reply_pow_error pv) s
      ]

  abbrev pub reply_found :
      Readings → ReplyInput → W → Result (Option Ticket) × Database → Result ReplyError × World W
  reply_found r i w (Result.throw, db) = (Result.throw, record { db = db; out = w })
  reply_found r i w (Result.ok none, db) =
      (Result.ok ReplyError.not_found, record { db = db; out = w })
  reply_found r i w (Result.ok (some t), db) = reply_to r i t (record { db = db; out = w })

  unfoldable pub submit_reply : Readings → ReplyInput → Exec (World W) ReplyError
  submit_reply r i s = reply_found r i s.out (get i.ticket_id s.db)
