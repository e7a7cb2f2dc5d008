-- ===== src/Feedback/Service/Replied.antt =====
-- What `submit_reply` stores and answers, case by case.
use deltafeedback.Prelude.{
  ℕ, ◌+◌, ◌≡◌, ◌≢◌, ◌⊎◌, true, false, [], ◌∷◌, ◌++◌, Option, none, some, Bytes, is_empty,
  if◌then◌else◌, add64, Result,
}
use deltafeedback.Pow.Challenge.{VerifyResult, verify}
use deltafeedback.Db.Schema.{MessageRow}
use deltafeedback.Db.Replay.{has_challenge}
use deltafeedback.Db.Tickets.{
  TicketStatus, awaiting_admin, awaiting_visitor, Ticket, get, set_status,
}
use deltafeedback.Db.Messages.{visitor, sender_to_string, latest_dc_msg_id_for_ticket}
use deltafeedback.Feedback.Validator.{is_ok, validate_reply}
use deltafeedback.Feedback.Forms.{Setup, Readings, ReplyInput, ReplyError, World}
use deltafeedback.Feedback.Service.{or_zero, replay_ttl}
use deltafeedback.Feedback.Notify.{format_admin_notification}
use deltafeedback.Feedback.Service.Submitted.{Unstored}

abbrev pub sent_error : Option ℕ → ReplyError
sent_error none = ReplyError.send_failed
sent_error (some dc_msg_id) = ReplyError.ok

module _ {W : Type 0} (u : Setup W) (r : Readings) (i : ReplyInput) (s : World W) where
  abbrev pub verdict : VerifyResult × Bytes
  verdict = verify u.crypto u.issuer r.pow_now i.pow_token i.pow_nonce []

  -- The ticket is there, and the read token is the one that was given out for it.
  pub record Authentic (t : Ticket) : Type 0 where
    pub found : (get i.ticket_id s.db).0 ≡ Result.ok (some t)
    pub hash_is : u.crypto.sha256 i.read_token ≡ t.read_token_hash

  abbrev pub reply_message : Option ℕ → MessageRow
  reply_message dc_msg_id = record {
    id = s.db.last_message_id + 1;
    ticket_id = i.ticket_id;
    sender = sender_to_string visitor;
    body = i.body;
    created_at = r.stamp_now;
    visitor_ip = if is_empty i.visitor_ip then none else some i.visitor_ip;
    dc_msg_id = dc_msg_id;
  }

  abbrev pub note : Ticket → Bytes
  note t =
      format_admin_notification u.gmtime i.ticket_id i.visitor_ip r.stamp_now t.locale t.name i.body
        true

  -- The call passed every check, stored the message, and gave the ticket back to the admin.
  pub record Replied (e : ReplyError) (world : World W) : Type 0 where
    pub ticket : Ticket
    pub authentic : Authentic ticket
    pub awaiting : ticket.status ≡ awaiting_visitor
    pub challenge_id : Bytes
    pub verified : verdict ≡ (VerifyResult.ok, challenge_id)
    pub unused : has_challenge challenge_id s.db.pow_replay ≡ false
    pub valid : is_ok (validate_reply u.limits i.body) ≡ true
    pub read_back :
        (get i.ticket_id world.db).0 ≡ Result.ok (some (record ticket { status = awaiting_admin }))
    pub moved : world.db.tickets ≡ (set_status i.ticket_id awaiting_admin s.db).tickets
    pub dc_msg_id : Option ℕ
    pub messages : world.db.messages ≡ s.db.messages ++ reply_message dc_msg_id ∷ []
    pub notified :
        u.sender.send_to_owner
          (note ticket)
          (or_zero (latest_dc_msg_id_for_ticket i.ticket_id s.db))
          s.out
        ≡ (dc_msg_id, world.out)
    pub error_is : e ≡ sent_error dc_msg_id
    pub used :
        world.db.pow_replay
        ≡ s.db.pow_replay
          ++ record { challenge_id = challenge_id; expires_at = add64 r.replay_now replay_ttl } ∷ []

  -- The visitor's turn, under the read token.
  abbrev pub InTurn : Type 0
  InTurn = (t : Ticket) × Authentic t × (t.status ≡ awaiting_visitor)

  -- What each refusal says.
  abbrev pub Reason : ReplyError → Type 0
  Reason ReplyError.not_found = (get i.ticket_id s.db).0 ≡ Result.ok none
  Reason ReplyError.bad_token =
      (t : Ticket) × ((get i.ticket_id s.db).0 ≡ Result.ok (some t))
      × (u.crypto.sha256 i.read_token ≢ t.read_token_hash)
  Reason ReplyError.closed = (t : Ticket) × Authentic t × (t.status ≡ TicketStatus.closed)
  Reason ReplyError.not_awaiting_visitor = (t : Ticket) × Authentic t × (t.status ≡ awaiting_admin)
  Reason ReplyError.pow_expired = InTurn × (verdict.0 ≡ VerifyResult.expired)
  Reason ReplyError.pow_insufficient = InTurn × (verdict.0 ≡ VerifyResult.insufficient_work)
  Reason ReplyError.pow_invalid =
      InTurn × ((verdict.0 ≡ VerifyResult.malformed) ⊎ (verdict.0 ≡ VerifyResult.bad_signature))
  Reason ReplyError.pow_replayed =
      InTurn
      × ((verdict.0 ≡ VerifyResult.replay)
          ⊎ ((verdict.0 ≡ VerifyResult.ok) × (has_challenge verdict.1 s.db.pow_replay ≡ true)))
  Reason ReplyError.bad_field =
      InTurn
      × (verdict.0 ≡ VerifyResult.ok)
      × (has_challenge verdict.1 s.db.pow_replay ≡ false)
      × (is_ok (validate_reply u.limits i.body) ≡ false)
  Reason _ = ⊥

  abbrev pub Outcome : Result ReplyError × World W → Type 0
  Outcome (Result.throw, world) = Unstored s world × ((get i.ticket_id s.db).0 ≡ Result.throw)
  Outcome (Result.ok ReplyError.ok, world) = Replied ReplyError.ok world
  Outcome (Result.ok ReplyError.send_failed, world) = Replied ReplyError.send_failed world
  Outcome (Result.ok e, world) = Unstored s world × Reason e
