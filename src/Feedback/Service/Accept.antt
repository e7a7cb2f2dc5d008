-- ===== src/Feedback/Service/Accept.antt =====
-- When `submit_new` goes through.
use deltafeedback.Prelude.{
  ℕ, ◌≡◌, refl, true, false, [], ◌∷◌, ◌++◌, Option, none, some, Bytes, add64, Result,
}
use deltafeedback.Pow.Challenge.{VerifyResult, verify}
use deltafeedback.Db.Schema.{Database}
use deltafeedback.Db.Replay.{has_challenge, try_consume}
use deltafeedback.Db.Tickets.{find_ticket, new_row}
use deltafeedback.Db.Tickets.Status.{insert_new_free, has_ticket-new_row}
use deltafeedback.Db.Messages.{visitor}
use deltafeedback.Db.Messages.Threads.{append_owned}
use deltafeedback.Feedback.Validator.{report_ok, validate}
use deltafeedback.Feedback.Notify.{format_admin_notification}
use deltafeedback.Feedback.Forms.{
  Setup, Readings, SubmitInput, SubmitError, SubmitResult, World, submission, pow_error,
}
use deltafeedback.Feedback.Service.{
  replay_ttl, submit_id, submit_token, submit_ticket, sent, store_and_notify, checked, submit_new,
}

abbrev sent_error : Option ℕ → SubmitError
sent_error none = SubmitError.send_failed
sent_error (some _) = SubmitError.ok

module _ {W : Type 0} (u : Setup W) (r : Readings) (i : SubmitInput) (s : World W) where
  -- What the call asks for.
  pub record IsReady : Type 0 where
    pub challenge_id : Bytes
    pub verified :
        verify u.crypto u.issuer r.pow_now i.pow_token i.pow_nonce []
        ≡ (VerifyResult.ok, challenge_id)
    pub unused : has_challenge challenge_id s.db.pow_replay ≡ false
    pub valid : report_ok (validate u.limits (submission i)) ≡ true
    pub owner : ℕ
    pub owned : u.sender.owner_contact_id s.out ≡ some owner
    pub id_free : find_ticket (submit_id u r) s.db.tickets ≡ none

  abbrev pub submit_note : Bytes
  submit_note =
      format_admin_notification u.gmtime (submit_id u r) i.visitor_ip r.stamp_now i.locale i.name
        i.message false

  -- The answer after the message with the notification went out, or did not.
  abbrev pub sent_result : Option ℕ → SubmitResult
  sent_result answer = record {
    error = sent_error answer;
    ticket_id = submit_id u r;
    read_token = submit_token u r;
  }

  sent_answer :
      (row_id : ℕ) (db : Database) (answer : Option ℕ × W)
      → (sent u r row_id db answer).0 ≡ Result.ok (sent_result answer.0)
  sent_answer row_id db (none, w) = refl
  sent_answer row_id db (some dc_msg_id, w) = refl

  store_answer :
      (db : Database)
      → find_ticket (submit_id u r) db.tickets ≡ none
      → (store_and_notify u r i (record { db = db; out = s.out })).0
        ≡ Result.ok (sent_result (u.sender.send_to_owner submit_note 0 s.out).0)
  unfolding store_and_notify
  store_answer db id_free =
      let t = submit_ticket u r i in
      rw (insert_new_free t db id_free) (
        rw
          (append_owned (submit_id u r) i.message i.visitor_ip visitor r.stamp_now none
            (record db { tickets = db.tickets ++ new_row t ∷ [] })
            (has_ticket-new_row t db.tickets id_free))
          (sent_answer _ _ (u.sender.send_to_owner submit_note 0 s.out)))

  consumed_answer :
      (h : IsReady)
      → try_consume h.challenge_id (add64 r.replay_now replay_ttl) s.db ≡ (
        true,
        record s.db {
          pow_replay =
              s.db.pow_replay
              ++ record {
                challenge_id = h.challenge_id;
                expires_at = add64 r.replay_now replay_ttl;
              }
                ∷ [];
        },
      )
  unfolding try_consume
  consumed_answer h = rw h.unused refl

-- A submission with a verified token whose challenge is not used, valid fields, an owner and a free
-- ticket id is answered with the new ticket's id and token, and `Ok` if the sender took the
-- notification, else `SendFailed`.
pub submit_new_ready :
    {W : Type 0} (u : Setup W) (r : Readings) (i : SubmitInput) (s : World W)
    → IsReady u r i s
    → (submit_new u r i s).0
      ≡ Result.ok (sent_result u r i s (u.sender.send_to_owner (submit_note u r i s) 0 s.out).0)
unfolding submit_new pow_error checked
submit_new_ready u r i s h =
    rw h.verified
      (rw (consumed_answer u r i s h) (rw h.valid (rw h.owned (store_answer u r i s _ h.id_free))))
