-- ===== src/Feedback/Service/Submit.antt =====
-- What `submit_new` stores, and when.
use deltafeedback.Prelude.{
  ℕ, suc, ◌+◌, ◌≡◌, ◌≢◌, refl, ap, inl, inr, true, false, [], ◌∷◌, ◌++◌, Option, none, some, Bytes,
  add64, length, is_empty, ltb_ℤ, ◌∙◌, Bool-cases, Option-cases, arith,
}
use deltafeedback.Pow.Hex.RoundTrip.{length-to_hex}
use deltafeedback.Pow.Challenge.{VerifyResult, verify}
use deltafeedback.Db.Schema.{Database}
use deltafeedback.Db.Replay.{has_challenge, try_consume}
use deltafeedback.Db.Tickets.{find_ticket, new_row}
use deltafeedback.Db.Tickets.Status.{insert_new_free, insert_new_taken, has_ticket-new_row}
use deltafeedback.Db.Messages.{visitor, set_dc_msg_id}
use deltafeedback.Db.Messages.Threads.{IdsBelow, update-last, append_owned}
use deltafeedback.Feedback.Validator.{ValidationReport, report_ok, validate}
use deltafeedback.Feedback.Random.{make_ticket_id-IsId, make_random, make_random-IsBytes}
use deltafeedback.Feedback.Forms.{
  Setup, Readings, SubmitInput, World, submission, pow_error, report_error,
}
use deltafeedback.Feedback.Service.{
  replay_ttl, submit_id, submit_token, submit_ticket, sent, store_and_notify, checked, after_verify,
  submit_new,
}
use deltafeedback.Feedback.Service.Submitted.{
  is_stored, Unstored, first_message, note, Worked, Reason, Outcome,
}

report_error_lem : (rep : ValidationReport) → is_stored (report_error rep) ≡ false
unfolding report_error
report_error_lem rep = ground arith

module _ {W : Type 0} (u : Setup W) (r : Readings) (i : SubmitInput) (s : World W) where
  reported-Reason :
      Worked u r i s
      → report_ok (validate u.limits (submission i)) ≡ false
      → Reason u r i s (report_error (validate u.limits (submission i)))
  unfolding report_error validate
  reported-Reason worked invalid = elim (Bool-cases (is_empty i.honeypot)) [
    | inr full ↦ rw full (worked, λ e. ground arith)
    | inl empty ↦ elim (Bool-cases (ltb_ℤ i.fill_time_ms u.limits.min_fill_time_ms)) [
      | inl early ↦ rw (empty, early) (worked, ground arith, early)
      | inr late ↦ rw (empty, late) (worked, ground arith, late, invalid)
    ]
  ]

  token_64 : length (submit_token u r) ≡ 64
  token_64 =
      let draws : ℕ → ℕ = λ k. r.draws (suc k) in
      omega (arith, length-to_hex (make_random draws 32), make_random-IsBytes draws 32)

  module _ (below : IdsBelow s.db.last_message_id s.db.messages) (challenge_id : Bytes)
      (verified : verify u.crypto u.issuer r.pow_now i.pow_token i.pow_nonce []
        ≡ (VerifyResult.ok, challenge_id))
      (unused : has_challenge challenge_id s.db.pow_replay ≡ false) where
    abbrev consumed : World W
    consumed = record s {
      db = record s.db {
        pow_replay =
            s.db.pow_replay
            ++ record { challenge_id = challenge_id; expires_at = add64 r.replay_now replay_ttl }
              ∷ [];
      };
    }

    abbrev appended : Database
    appended = record consumed.db {
      tickets = s.db.tickets ++ new_row (submit_ticket u r i) ∷ [];
      messages = s.db.messages ++ first_message u r i s none ∷ [];
      last_message_id = s.db.last_message_id + 1;
    }

    module _ (valid : report_ok (validate u.limits (submission i)) ≡ true)
        (owned : u.sender.owner_contact_id s.out ≢ none)
        (id_free : find_ticket (submit_id u r) s.db.tickets ≡ none) where
      sent-Outcome :
          (answer : Option ℕ × W)
          → u.sender.send_to_owner (note u r i s) 0 s.out ≡ answer
          → Outcome u r i s (sent u r (s.db.last_message_id + 1) appended answer)
      sent-Outcome (none, w) e = record {
        challenge_id = challenge_id;
        verified = verified;
        unused = unused;
        used = refl;
        valid = valid;
        owned = owned;
        id_free = id_free;
        tickets = refl;
        id_is = refl;
        hash_is = refl;
        is_id = make_ticket_id-IsId (r.draws 0);
        token_length = token_64;
        dc_msg_id = none;
        messages = refl;
        notified = e;
        error_is = refl;
      }
      sent-Outcome (some dc_msg_id, w) e = record {
        challenge_id = challenge_id;
        verified = verified;
        unused = unused;
        used = unfold set_dc_msg_id in refl;
        valid = valid;
        owned = owned;
        id_free = id_free;
        tickets = unfold set_dc_msg_id in refl;
        id_is = refl;
        hash_is = refl;
        is_id = make_ticket_id-IsId (r.draws 0);
        token_length = token_64;
        dc_msg_id = some dc_msg_id;
        messages =
            unfold set_dc_msg_id in
            update-last s.db.last_message_id (s.db.last_message_id + 1) dc_msg_id s.db.messages
              (first_message u r i s none) below (omega arith) refl;
        notified = e;
        error_is = refl;
      }

    worked : Worked u r i s
    worked = (ap (λ v. v.0) verified, ap (λ v. has_challenge v.1 s.db.pow_replay) verified ∙ unused)

    unstored : Unstored s consumed
    unstored = record { tickets = refl; messages = refl; out = refl }

    store-Outcome :
        report_ok (validate u.limits (submission i)) ≡ true
        → u.sender.owner_contact_id s.out ≢ none
        → Outcome u r i s (store_and_notify u r i consumed)
    unfolding store_and_notify
    store-Outcome valid owned = elim (Option-cases (find_ticket (submit_id u r) s.db.tickets)) [
      | inl id_free ↦ rw (insert_new_free (submit_ticket u r i) consumed.db id_free) (
          rw
            (append_owned (submit_id u r) i.message i.visitor_ip visitor r.stamp_now none
              (record consumed.db { tickets = s.db.tickets ++ new_row (submit_ticket u r i) ∷ [] })
              (has_ticket-new_row (submit_ticket u r i) s.db.tickets id_free))
            (sent-Outcome valid owned id_free (u.sender.send_to_owner (note u r i s) 0 s.out) refl))
      | inr (row, taken) ↦
          rw (insert_new_taken (submit_ticket u r i) consumed.db row taken)
            (unstored, ap (λ o. elim o [ none ↦ false | some _ ↦ true ]) taken)
    ]

    checked-Outcome : Outcome u r i s (checked u r i consumed)
    unfolding checked
    checked-Outcome = elim (Bool-cases (report_ok (validate u.limits (submission i)))) [
      | inl valid ↦ rw valid (elim (Option-cases (u.sender.owner_contact_id s.out)) [
        | inl unowned ↦ rw unowned (unstored, refl, refl, (worked, valid, unowned))
        | inr (owner, owned) ↦ rw owned (store-Outcome valid (λ e. ground arith))
      ])
      | inr invalid ↦ rw invalid (
          rw (report_error_lem (validate u.limits (submission i)))
            (unstored, refl, refl, reported-Reason worked invalid))
    ]

  same_tables : Unstored s s
  same_tables = record { tickets = refl; messages = refl; out = refl }

  verdict-Outcome :
      IdsBelow s.db.last_message_id s.db.messages
      → (v : VerifyResult × Bytes)
      → verify u.crypto u.issuer r.pow_now i.pow_token i.pow_nonce [] ≡ v
      → Outcome u r i s (after_verify u r i v.1 (pow_error v.0) s)
  unfolding pow_error try_consume
  verdict-Outcome below (VerifyResult.ok, id) e =
      elim (Bool-cases (has_challenge id s.db.pow_replay)) [
        | inl old ↦
            rw (old, try_consume)
              (
                same_tables,
                refl,
                refl,
                inr (ap (λ v. v.0) e, ap (λ v. has_challenge v.1 s.db.pow_replay) e ∙ old),
              )
        | inr new ↦ rw (new, try_consume) (checked-Outcome below id e new)
      ]
  verdict-Outcome below (VerifyResult.malformed, id) e =
      (same_tables, refl, refl, inl (ap (λ v. v.0) e))
  verdict-Outcome below (VerifyResult.bad_signature, id) e =
      (same_tables, refl, refl, inr (ap (λ v. v.0) e))
  verdict-Outcome below (VerifyResult.expired, id) e = (same_tables, refl, refl, ap (λ v. v.0) e)
  verdict-Outcome below (VerifyResult.insufficient_work, id) e =
      (same_tables, refl, refl, ap (λ v. v.0) e)
  verdict-Outcome below (VerifyResult.replay, id) e =
      (same_tables, refl, refl, inl (ap (λ v. v.0) e))

-- A submission is answered `Ok` or `SendFailed` only if its token was verified, its challenge was not
-- used, its fields are valid, there is an owner and the drawn ticket id is free; then the challenge is
-- used, a new ticket is in the table, which awaits the admin and has the name, the locale and the hash of
-- the 64-character token that the answer holds; the text is its message, the last one, from the
-- visitor's address; and the notification went to the sender: on `Ok` the message carries the
-- id that the sender gave to it, and on `SendFailed` the sender gave none. On any other answer no ticket
-- or message is stored, nothing is sent, no id or token is given out, and the answer names the first
-- thing that was wrong: `PowExpired`, `PowInsufficient` and `PowInvalid` (malformed or of a wrong
-- signature) the verdict on the token, `PowReplayed` a verified challenge that is used already,
-- `HoneypotTripped` the honeypot, `FilledTooFast` the time, `BadField` another field, and
-- `NoOwnerConfigured` that there is no owner. An exception comes only from a ticket id that is taken, and leaves the same tables. All this
-- is for a database in which no message id is above the counter.
pub submit_new-Outcome :
    {W : Type 0} (u : Setup W) (r : Readings) (i : SubmitInput) (s : World W)
    → IdsBelow s.db.last_message_id s.db.messages
    → Outcome u r i s (submit_new u r i s)
unfolding submit_new
submit_new-Outcome u r i s below =
    verdict-Outcome u r i s below (verify u.crypto u.issuer r.pow_now i.pow_token i.pow_nonce [])
      refl
