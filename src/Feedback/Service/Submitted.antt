-- ===== src/Feedback/Service/Submitted.antt =====
-- What `submit_new` stores and answers, case by case.
use deltafeedback.Prelude.{
  ℕ, ◌+◌, ◌≡◌, ◌≢◌, Bool, true, false, [], ◌∷◌, ◌++◌, Option, none, some, Bytes, codes,
  if◌then◌else◌, add64, Result, length, is_empty, ltb_ℤ, ◌⊎◌,
}
use deltafeedback.Pow.Challenge.{VerifyResult, verify}
use deltafeedback.Db.Schema.{TicketRow, MessageRow}
use deltafeedback.Db.Replay.{has_challenge}
use deltafeedback.Db.Tickets.{find_ticket, has_ticket}
use deltafeedback.Db.Messages.{visitor, sender_to_string}
use deltafeedback.Dc.Parse.Marker.{IsId}
use deltafeedback.Feedback.Validator.{report_ok, validate}
use deltafeedback.Feedback.Notify.{format_admin_notification}
use deltafeedback.Feedback.Forms.{
  Setup, Readings, SubmitInput, SubmitError, SubmitResult, World, submission,
}
use deltafeedback.Feedback.Service.{replay_ttl, submit_id, submit_token}

-- The two answers after which a ticket is in the table.
abbrev pub is_stored : SubmitError → Bool
is_stored SubmitError.ok = true
is_stored SubmitError.send_failed = true
is_stored _ = false

-- The answer after the sender took the notification, under an id of its own, or did not.
abbrev pub sent_error : Option ℕ → SubmitError
sent_error none = SubmitError.send_failed
sent_error (some dc_msg_id) = SubmitError.ok

-- No ticket, message or notification is made.
pub record Unstored {W : Type 0} (s t : World W) : Type 0 where
  pub tickets : t.db.tickets ≡ s.db.tickets
  pub messages : t.db.messages ≡ s.db.messages
  pub out : t.out ≡ s.out

module _ {W : Type 0} (u : Setup W) (r : Readings) (i : SubmitInput) (s : World W) where
  abbrev pub first_message : Option ℕ → MessageRow
  first_message dc_msg_id = record {
    id = s.db.last_message_id + 1;
    ticket_id = submit_id u r;
    sender = sender_to_string visitor;
    body = i.message;
    created_at = r.stamp_now;
    visitor_ip = if is_empty i.visitor_ip then none else some i.visitor_ip;
    dc_msg_id = dc_msg_id;
  }

  abbrev pub first_row : TicketRow
  first_row = record {
    id = submit_id u r;
    read_token_hash = u.crypto.sha256 (submit_token u r);
    name = i.name;
    locale = i.locale;
    status = codes "awaiting_admin";
    created_at = r.stamp_now;
    closed_at = none;
  }

  abbrev pub note : Bytes
  note =
      format_admin_notification u.gmtime (submit_id u r) i.visitor_ip r.stamp_now i.locale i.name
        i.message false

  -- The call passed every check, and stored the ticket with its first message.
  pub record Stored (res : SubmitResult) (t : World W) : Type 0 where
    pub challenge_id : Bytes
    pub verified :
        verify u.crypto u.issuer r.pow_now i.pow_token i.pow_nonce []
        ≡ (VerifyResult.ok, challenge_id)
    pub unused : has_challenge challenge_id s.db.pow_replay ≡ false
    pub used :
        t.db.pow_replay
        ≡ s.db.pow_replay
          ++ record { challenge_id = challenge_id; expires_at = add64 r.replay_now replay_ttl } ∷ []
    pub valid : report_ok (validate u.limits (submission i)) ≡ true
    pub owned : u.sender.owner_contact_id s.out ≢ none
    pub id_free : find_ticket res.ticket_id s.db.tickets ≡ none
    pub tickets : t.db.tickets ≡ s.db.tickets ++ first_row ∷ []
    pub id_is : res.ticket_id ≡ first_row.id
    pub hash_is : u.crypto.sha256 res.read_token ≡ first_row.read_token_hash
    pub is_id : IsId res.ticket_id
    pub token_length : length res.read_token ≡ 64
    pub dc_msg_id : Option ℕ
    pub messages : t.db.messages ≡ s.db.messages ++ first_message dc_msg_id ∷ []
    pub notified : u.sender.send_to_owner note 0 s.out ≡ (dc_msg_id, t.out)
    pub error_is : res.error ≡ sent_error dc_msg_id

  abbrev pub verdict : VerifyResult × Bytes
  verdict = verify u.crypto u.issuer r.pow_now i.pow_token i.pow_nonce []

  -- The proof of work is taken.
  abbrev pub Worked : Type 0
  Worked = (verdict.0 ≡ VerifyResult.ok) × (has_challenge verdict.1 s.db.pow_replay ≡ false)

  -- What each refusal says.
  abbrev pub Reason : SubmitError → Type 0
  Reason SubmitError.pow_expired = verdict.0 ≡ VerifyResult.expired
  Reason SubmitError.pow_insufficient = verdict.0 ≡ VerifyResult.insufficient_work
  Reason SubmitError.pow_invalid =
      (verdict.0 ≡ VerifyResult.malformed) ⊎ (verdict.0 ≡ VerifyResult.bad_signature)
  Reason SubmitError.pow_replayed =
      (verdict.0 ≡ VerifyResult.replay)
      ⊎ ((verdict.0 ≡ VerifyResult.ok) × (has_challenge verdict.1 s.db.pow_replay ≡ true))
  Reason SubmitError.honeypot_tripped = Worked × (i.honeypot ≢ [])
  Reason SubmitError.filled_too_fast =
      Worked × (i.honeypot ≡ []) × (ltb_ℤ i.fill_time_ms u.limits.min_fill_time_ms ≡ true)
  Reason SubmitError.bad_field =
      Worked
      × (i.honeypot ≡ [])
      × (ltb_ℤ i.fill_time_ms u.limits.min_fill_time_ms ≡ false)
      × (report_ok (validate u.limits (submission i)) ≡ false)
  Reason SubmitError.no_owner_configured =
      Worked
      × (report_ok (validate u.limits (submission i)) ≡ true)
      × (u.sender.owner_contact_id s.out ≡ none)
  Reason _ = ⊥

  abbrev pub Refused : SubmitResult → World W → Type 0
  Refused res t = Unstored s t × (res.ticket_id ≡ []) × (res.read_token ≡ []) × Reason res.error

  abbrev pub Answered : SubmitResult → World W → Type 0
  Answered res t = if is_stored res.error then Stored res t else Refused res t

  abbrev pub Outcome : Result SubmitResult × World W → Type 0
  Outcome (Result.throw, t) = Unstored s t × (has_ticket (submit_id u r) s.db.tickets ≡ true)
  Outcome (Result.ok res, t) = Answered res t
