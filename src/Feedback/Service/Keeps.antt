-- ===== src/Feedback/Service/Keeps.antt =====
-- The service changes the tables only by the program's statements: whatever these keep, it keeps.
use deltafeedback.Prelude.{
  ℕ, ◌≡◌, refl, inl, inr, Bool, true, false, Option, none, some, Bytes, add64, Result, Bool-cases,
  Option-cases, arith,
}
use deltafeedback.Db.Schema.{Database}
use deltafeedback.Db.Tickets.{TicketStatus, awaiting_admin, Ticket, get}
use deltafeedback.Db.Messages.{visitor}
use deltafeedback.Db.Invariant.{Statement, exec, Serving}
use deltafeedback.Feedback.Validator.{report_ok, validate, is_ok, validate_reply}
use deltafeedback.Pow.Compare.{ct_eq}
use deltafeedback.Feedback.Forms.{
  Setup, Readings, SubmitInput, SubmitError, ReplyInput, ReplyError, World, submission,
}
use deltafeedback.Feedback.Service.{
  replay_ttl, submit_id, submit_ticket, sent, after_append, after_insert, store_and_notify, checked,
  after_consume, after_verify, submit_new, reply_sent, reply_appended, store_reply, reply_consumed,
  reply_verified, reply_to, reply_found, submit_reply,
}

module _ (P : Database → Type 0)
    (keeps : (st : Statement) (db : Database) → Serving st → P db → P (exec st db)) {W : Type 0}
    (u : Setup W) (r : Readings) where
  module _ (i : SubmitInput) where
    sent_keeps :
        (row_id : ℕ) (db : Database) (answer : Option ℕ × W)
        → P db
        → P (sent u r row_id db answer).1.db
    sent_keeps row_id db (none, w) h = h
    sent_keeps row_id db (some k, w) h = keeps (Statement.message_set_dc_msg_id row_id k) db tt h

    after_append_keeps : (w : W) (a : Result ℕ × Database) → P a.1 → P (after_append u r i w a).1.db
    after_append_keeps w (Result.throw, db) h = h
    after_append_keeps w (Result.ok row_id, db) h = sent_keeps row_id db _ h

    after_insert_keeps :
        (w : W) (a : Result (Unit {0}) × Database) → P a.1 → P (after_insert u r i w a).1.db
    after_insert_keeps w (Result.throw, db) h = h
    after_insert_keeps w (Result.ok _, db) h = after_append_keeps w _ (
        keeps
          (Statement.message_append (submit_id u r) visitor i.message r.stamp_now i.visitor_ip none)
          db tt h)

    checked_keeps : (s : World W) → P s.db → P (checked u r i s).1.db
    unfolding checked
    checked_keeps s h = elim (Bool-cases (report_ok (validate u.limits (submission i)))) [
      | inr invalid ↦ rw invalid h
      | inl valid ↦ rw valid (elim (Option-cases (u.sender.owner_contact_id s.out)) [
        | inl unowned ↦ rw unowned h
        | inr (owner, owned) ↦ rw owned (
            unfold store_and_notify in
            after_insert_keeps s.out _
              (keeps (Statement.ticket_insert (submit_ticket u r i)) s.db tt h))
      ])
    ]

    after_consume_keeps : (w : W) (a : Bool × Database) → P a.1 → P (after_consume u r i w a).1.db
    after_consume_keeps w (false, db) h = h
    after_consume_keeps w (true, db) h = checked_keeps (record { db = db; out = w }) h

    after_verify_keeps :
        (id : Bytes) (e : Option SubmitError) (s : World W)
        → P s.db
        → P (after_verify u r i id e s).1.db
    after_verify_keeps id (some e) s h = h
    after_verify_keeps id none s h =
        after_consume_keeps s.out _
          (keeps (Statement.replay_consume id (add64 r.replay_now replay_ttl)) s.db tt h)

    pub submit_new_keeps : (s : World W) → P s.db → P (submit_new u r i s).1.db
    unfolding submit_new
    submit_new_keeps s h = after_verify_keeps _ _ s h

  module _ (i : ReplyInput) where
    reply_sent_keeps :
        (row_id : ℕ) (db : Database) (answer : Option ℕ × W)
        → P db
        → P (reply_sent u row_id db answer).1.db
    reply_sent_keeps row_id db (none, w) h = h
    reply_sent_keeps row_id db (some k, w) h =
        keeps (Statement.message_set_dc_msg_id row_id k) db tt h

    reply_appended_keeps :
        (t : Ticket) (quote : ℕ) (w : W) (a : Result ℕ × Database)
        → P a.1
        → P (reply_appended u r i t quote w a).1.db
    reply_appended_keeps t quote w (Result.throw, db) h = h
    reply_appended_keeps t quote w (Result.ok row_id, db) h =
        reply_sent_keeps row_id _ _
          (keeps (Statement.ticket_set_status i.ticket_id awaiting_admin) db (λ e. ground arith) h)

    store_reply_keeps : (t : Ticket) (s : World W) → P s.db → P (store_reply u r i t s).1.db
    unfolding store_reply
    store_reply_keeps t s h = reply_appended_keeps t _ s.out _ (
        keeps (Statement.message_append i.ticket_id visitor i.body r.stamp_now i.visitor_ip none)
          s.db tt h)

    reply_consumed_keeps :
        (t : Ticket) (w : W) (a : Bool × Database) → P a.1 → P (reply_consumed u r i t w a).1.db
    reply_consumed_keeps t w (false, db) h = h
    reply_consumed_keeps t w (true, db) h =
        elim (Bool-cases (is_ok (validate_reply u.limits i.body))) [
          | inl valid ↦ rw valid (store_reply_keeps t (record { db = db; out = w }) h)
          | inr invalid ↦ rw invalid h
        ]

    reply_verified_keeps :
        (t : Ticket) (id : Bytes) (e : Option ReplyError) (s : World W)
        → P s.db
        → P (reply_verified u r i t id e s).1.db
    reply_verified_keeps t id (some e) s h = h
    reply_verified_keeps t id none s h =
        reply_consumed_keeps t s.out _
          (keeps (Statement.replay_consume id (add64 r.replay_now replay_ttl)) s.db tt h)

    reply_to_keeps :
        (t : Ticket) (status : TicketStatus) (s : World W)
        → t.status ≡ status
        → P s.db
        → P (reply_to u r i t s).1.db
    unfolding reply_to
    reply_to_keeps t TicketStatus.awaiting_visitor s e h =
        elim (Bool-cases (ct_eq (u.crypto.sha256 i.read_token) t.read_token_hash)) [
          | inr other ↦ rw other h
          | inl same ↦ rw (same, e) (reply_verified_keeps t _ _ s h)
        ]
    reply_to_keeps t TicketStatus.closed s e h =
        elim (Bool-cases (ct_eq (u.crypto.sha256 i.read_token) t.read_token_hash)) [
          | inr other ↦ rw other h
          | inl same ↦ rw (same, e) h
        ]
    reply_to_keeps t awaiting_admin s e h =
        elim (Bool-cases (ct_eq (u.crypto.sha256 i.read_token) t.read_token_hash)) [
          | inr other ↦ rw other h
          | inl same ↦ rw (same, e) h
        ]

    reply_found_keeps :
        (w : W) (a : Result (Option Ticket) × Database) → P a.1 → P (reply_found u r i w a).1.db
    reply_found_keeps w (Result.throw, db) h = h
    reply_found_keeps w (Result.ok none, db) h = h
    reply_found_keeps w (Result.ok (some t), db) h =
        reply_to_keeps t t.status (record { db = db; out = w }) refl h

    pub submit_reply_keeps : (s : World W) → P s.db → P (submit_reply u r i s).1.db
    unfolding submit_reply get
    submit_reply_keeps s h = reply_found_keeps s.out (get i.ticket_id s.db) h
