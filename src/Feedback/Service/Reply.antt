-- ===== src/Feedback/Service/Reply.antt =====
-- What `submit_reply` stores, and why it refuses.
use deltafeedback.Prelude.{
  ℕ, ◌+◌, ◌≡◌, refl, ap, ◌∙◌, inl, inr, true, false, [], ◌∷◌, ◌++◌, Option, none, some, Bytes,
  add64, Result, Bool-cases, arith,
}
use deltafeedback.Pow.Compare.{ct_eq, ct_eq_iff}
use deltafeedback.Pow.Challenge.{VerifyResult}
use deltafeedback.Db.Schema.{Database}
use deltafeedback.Db.Replay.{has_challenge, try_consume}
use deltafeedback.Db.Tickets.{
  TicketStatus, awaiting_admin, awaiting_visitor, Ticket, find_ticket, has_ticket, get, set_status,
}
use deltafeedback.Db.Tickets.Status.{get-row, get-same, get-set_status}
use deltafeedback.Db.Messages.{visitor, set_dc_msg_id, latest_dc_msg_id_for_ticket}
use deltafeedback.Db.Messages.Threads.{IdsBelow, update-last, append_owned}
use deltafeedback.Feedback.Validator.{is_ok, validate_reply}
use deltafeedback.Feedback.Forms.{Setup, Readings, ReplyInput, World}
use deltafeedback.Feedback.Service.{
  reply_pow_error, or_zero, replay_ttl, reply_sent, reply_consumed, reply_verified, store_reply,
  reply_to, reply_found, submit_reply,
}
use deltafeedback.Feedback.Service.Submitted.{Unstored}
use deltafeedback.Feedback.Service.Replied.{
  verdict, Authentic, reply_message, note, InTurn, Outcome,
}

module _ {W : Type 0} (u : Setup W) (r : Readings) (i : ReplyInput) (s : World W) where
  unchanged : Unstored s s
  unchanged = record { tickets = refl; messages = refl; out = refl }

  module _ (below : IdsBelow s.db.last_message_id s.db.messages) (t : Ticket)
      (authentic : Authentic u r i s t) where
    same_hash : ct_eq (u.crypto.sha256 i.read_token) t.read_token_hash ≡ true
    same_hash = (ct_eq_iff (u.crypto.sha256 i.read_token) t.read_token_hash).1 authentic.hash_is

    in_turn : t.status ≡ awaiting_visitor → InTurn u r i s
    in_turn awaiting = (t, authentic, awaiting)

    here : has_ticket i.ticket_id s.db.tickets ≡ true
    here = let (row, found, is, same) = get-row i.ticket_id s.db t authentic.found in ground arith

    module _ (awaiting : t.status ≡ awaiting_visitor) (challenge_id : Bytes)
        (verified : verdict u r i s ≡ (VerifyResult.ok, challenge_id))
        (unused : has_challenge challenge_id s.db.pow_replay ≡ false) where
      abbrev consumed : World W
      consumed = record s {
        db = record s.db {
          pow_replay =
              s.db.pow_replay
              ++ record { challenge_id = challenge_id; expires_at = add64 r.replay_now replay_ttl }
                ∷ [];
        };
      }

      abbrev appended : Database
      appended = record consumed.db {
        messages = s.db.messages ++ reply_message u r i s none ∷ [];
        last_message_id = s.db.last_message_id + 1;
      }

      read_back :
          (db : Database)
          → db.tickets ≡ (set_status i.ticket_id awaiting_admin appended).tickets
          → (get i.ticket_id db).0 ≡ Result.ok (some (record t { status = awaiting_admin }))
      read_back db e =
          get-same i.ticket_id db (set_status i.ticket_id awaiting_admin appended)
            (ap (find_ticket i.ticket_id) e)
          ∙ get-set_status i.ticket_id awaiting_admin appended t
              (get-same i.ticket_id appended s.db refl ∙ authentic.found) (λ c. ground arith)

      sent-Outcome :
          is_ok (validate_reply u.limits i.body) ≡ true
          → (answer : Option ℕ × W)
          → u.sender.send_to_owner
              (note u r i s t)
              (or_zero (latest_dc_msg_id_for_ticket i.ticket_id s.db))
              s.out
            ≡ answer
          → Outcome u r i s (
              reply_sent u
                (s.db.last_message_id + 1)
                (set_status i.ticket_id awaiting_admin appended)
                answer)
      sent-Outcome valid (none, w) e = record {
        ticket = t;
        authentic = authentic;
        awaiting = awaiting;
        challenge_id = challenge_id;
        verified = verified;
        unused = unused;
        valid = valid;
        read_back = read_back (set_status i.ticket_id awaiting_admin appended) refl;
        moved = unfold set_status in refl;
        dc_msg_id = none;
        messages = unfold set_status in refl;
        notified = e;
        error_is = refl;
        used = unfold set_status in refl;
      }
      sent-Outcome valid (some dc_msg_id, w) e = record {
        ticket = t;
        authentic = authentic;
        awaiting = awaiting;
        challenge_id = challenge_id;
        verified = verified;
        unused = unused;
        valid = valid;
        read_back = read_back _ (unfold set_dc_msg_id in refl);
        moved = unfold set_dc_msg_id set_status in refl;
        dc_msg_id = some dc_msg_id;
        messages =
            unfold set_dc_msg_id set_status in
            update-last s.db.last_message_id (s.db.last_message_id + 1) dc_msg_id s.db.messages
              (reply_message u r i s none) below (omega arith) refl;
        notified = e;
        error_is = refl;
        used = unfold set_dc_msg_id set_status in refl;
      }

      store-Outcome :
          is_ok (validate_reply u.limits i.body) ≡ true
          → Outcome u r i s (store_reply u r i t consumed)
      unfolding store_reply
      store-Outcome valid =
          rw
            (append_owned i.ticket_id i.body i.visitor_ip visitor r.stamp_now none consumed.db here)
            (sent-Outcome valid (u.sender.send_to_owner _ _ s.out)
              (unfold latest_dc_msg_id_for_ticket in refl))

      checked-Outcome : Outcome u r i s (reply_consumed u r i t s.out (true, consumed.db))
      checked-Outcome = elim (Bool-cases (is_ok (validate_reply u.limits i.body))) [
        | inl valid ↦ rw valid (store-Outcome valid)
        | inr invalid ↦ rw invalid (
          record { tickets = refl; messages = refl; out = refl },
          (
            in_turn awaiting,
            ap (λ v. v.0) verified,
            ap (λ v. has_challenge v.1 s.db.pow_replay) verified ∙ unused,
            invalid,
          ),
        )
      ]

    verdict-Outcome :
        t.status ≡ awaiting_visitor
        → (v : VerifyResult × Bytes) → verdict u r i s ≡ v
        → Outcome u r i s (reply_verified u r i t v.1 (reply_pow_error v.0) s)
    unfolding reply_pow_error try_consume
    verdict-Outcome awaiting (VerifyResult.ok, id) e =
        elim (Bool-cases (has_challenge id s.db.pow_replay)) [
          | inl old ↦
              rw (old, try_consume)
                (
                  unchanged,
                  (
                    in_turn awaiting,
                    inr (ap (λ v. v.0) e, ap (λ v. has_challenge v.1 s.db.pow_replay) e ∙ old),
                  ),
                )
          | inr new ↦ rw (new, try_consume) (checked-Outcome awaiting id e new)
        ]
    verdict-Outcome awaiting (VerifyResult.malformed, id) e =
        (unchanged, (in_turn awaiting, inl (ap (λ v. v.0) e)))
    verdict-Outcome awaiting (VerifyResult.bad_signature, id) e =
        (unchanged, (in_turn awaiting, inr (ap (λ v. v.0) e)))
    verdict-Outcome awaiting (VerifyResult.expired, id) e =
        (unchanged, (in_turn awaiting, ap (λ v. v.0) e))
    verdict-Outcome awaiting (VerifyResult.insufficient_work, id) e =
        (unchanged, (in_turn awaiting, ap (λ v. v.0) e))
    verdict-Outcome awaiting (VerifyResult.replay, id) e =
        (unchanged, (in_turn awaiting, inl (ap (λ v. v.0) e)))

    status-Outcome :
        (status : TicketStatus) → t.status ≡ status → Outcome u r i s (reply_to u r i t s)
    unfolding reply_to
    status-Outcome TicketStatus.closed e = rw (same_hash, e) (unchanged, (t, authentic, e))
    status-Outcome awaiting_admin e = rw (same_hash, e) (unchanged, (t, authentic, e))
    status-Outcome awaiting_visitor e = rw (same_hash, e) (verdict-Outcome e (verdict u r i s) refl)

  found-Outcome :
      IdsBelow s.db.last_message_id s.db.messages
      → (o : Result (Option Ticket)) → (get i.ticket_id s.db).0 ≡ o
      → Outcome u r i s (reply_found u r i s.out (o, s.db))
  found-Outcome below Result.throw e = (unchanged, e)
  found-Outcome below (Result.ok none) e = (unchanged, e)
  found-Outcome below (Result.ok (some t)) e =
      elim (Bool-cases (ct_eq (u.crypto.sha256 i.read_token) t.read_token_hash)) [
        | inl same ↦
            status-Outcome below t
              (record {
                found = e;
                hash_is = (ct_eq_iff (u.crypto.sha256 i.read_token) t.read_token_hash).0 same;
              })
              t.status refl
        | inr other ↦
            unfold reply_to in
            rw other (
              unchanged,
              (
                t,
                e,
                λ h. ground (arith, ct_eq_iff (u.crypto.sha256 i.read_token) t.read_token_hash),
              ),
            )
      ]

-- A reply is answered `Ok` or `SendFailed` only if its ticket awaits the visitor, its read token has
-- the ticket's hash, the proof of work was verified with an unused challenge, and its text is valid;
-- then the text is the last message, the ticket is read the same but awaiting the admin, and the rows
-- of the tickets are those of that one change; the challenge is used; and the notification went to the
-- sender: on `Ok` the message carries the id that the sender gave to it, on `SendFailed` the sender gave
-- none. On any other answer no ticket or message changes and nothing is sent, and the answer names the
-- first thing that was wrong: `NotFound` the id, `BadToken` the read token, `Closed` and
-- `NotAwaitingVisitor` the status, `PowExpired`, `PowInsufficient` and `PowInvalid` (malformed or of a
-- wrong signature) the verdict on the token, `PowReplayed` a verified challenge that is used already,
-- `BadField` the text. It throws only if the row of the ticket cannot be read.
-- All this is for a database in which no message id is above the counter.
pub submit_reply-Outcome :
    {W : Type 0} (u : Setup W) (r : Readings) (i : ReplyInput) (s : World W)
    → IdsBelow s.db.last_message_id s.db.messages
    → Outcome u r i s (submit_reply u r i s)
unfolding submit_reply get
submit_reply-Outcome u r i s below = found-Outcome u r i s below (get i.ticket_id s.db).0 refl
