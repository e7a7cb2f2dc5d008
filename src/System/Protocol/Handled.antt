-- ===== src/System/Protocol/Handled.antt =====
-- Each request and each message changes the tickets as one step of one conversation does.
use deltafeedback.Prelude.{
  ◌≡◌, ◌≢◌, refl, sym, ap, subst, ◌∙◌, codes, inl, inr, Bool, true, false, Option, none, some,
  is_empty, ◌==◌, ℤ, Result, Bool-cases, if◌then◌else◌, [], arith,
}
use deltafeedback.Db.Schema.{Database}
use deltafeedback.Db.State
use deltafeedback.Pow.Decimal.{to_string}
use deltafeedback.Db.Tickets.{TicketStatus, awaiting_visitor, awaiting_admin, Ticket, get}
use deltafeedback.Db.Messages.{visitor, admin}
use deltafeedback.Db.Messages.Threads.{IdsBelow}
use deltafeedback.Dc.Parse.{Kind}
use deltafeedback.Dc.Bot.{
  BotState, Incoming, act_on, route_admin_msg, on_incoming_msg, welcome_text,
}
use deltafeedback.Dc.Bot.Owner.{send_to_keeps}
use deltafeedback.Dc.Bot.Admin
use deltafeedback.Dc.Bot.Admin.{
  seen_keeps, NamesOpen, Acted, route, on_incoming_msg_owner, on_incoming_msg-Acted,
}
use deltafeedback.Feedback.Forms.{
  Setup, Readings, SubmitInput, SubmitResult, ReplyInput, ReplyError, World,
}
use deltafeedback.Feedback.Service.{submit_new, submit_reply, submit_ticket}
use deltafeedback.Feedback.Service.Submit.{submit_new-Outcome}
use deltafeedback.Feedback.Service.Submitted.{is_stored, Unstored, Stored}
use deltafeedback.Feedback.Service.Submitted as Submit
use deltafeedback.Feedback.Service.Reply.{submit_reply-Outcome}
use deltafeedback.Feedback.Service.Replied.{Replied}
use deltafeedback.Feedback.Service.Replied as Reply
use deltafeedback.System.Protocol.Changes.{Change}

module _ {W : Type 0} (u : Setup W) (r : Readings) (s : World W) where
  unstored : (t : World W) → Unstored s t → Change s.db t.db
  unstored t h = Change.unchanged h.tickets h.messages

  Stored-Change :
      (i : SubmitInput) (res : SubmitResult) (t : World W) → Stored u r i s res t → Change s.db t.db
  Stored-Change i res t h =
      Change.opening (submit_ticket u r i) _ i.message i.visitor_ip r.stamp_now h.dc_msg_id
        (ground (arith, h.id_free)) h.tickets h.messages

  answered_Change :
      (i : SubmitInput) (res : SubmitResult) (t : World W) (stored : Bool)
      → (if stored then Stored u r i s res t else Submit.Refused u r i s res t)
      → Change s.db t.db
  answered_Change i res t true h = Stored-Change i res t h
  answered_Change i res t false h = unstored t h.0

  submit_Change :
      (i : SubmitInput) (x : Result SubmitResult × World W)
      → Submit.Outcome u r i s x
      → Change s.db x.1.db
  submit_Change i (Result.throw, t) h = unstored t h.0
  submit_Change i (Result.ok res, t) h = answered_Change i res t (is_stored res.error) h

  Replied-Change :
      (i : ReplyInput) (e : ReplyError) (t : World W) → Replied u r i s e t → Change s.db t.db
  Replied-Change i e t h =
      Change.speaking i.ticket_id h.ticket visitor _ i.body i.visitor_ip r.stamp_now h.dc_msg_id
        h.authentic.found h.awaiting h.moved h.messages

  reply_Change :
      (i : ReplyInput) (x : Result ReplyError × World W)
      → Reply.Outcome u r i s x
      → Change s.db x.1.db
  reply_Change i (Result.throw, t) h = unstored t h.0
  reply_Change i (Result.ok ReplyError.ok, t) h = Replied-Change i _ t h
  reply_Change i (Result.ok ReplyError.send_failed, t) h = Replied-Change i _ t h
  reply_Change i (Result.ok e, t) h = unstored t h.0

  pub submit_new-Change :
      (i : SubmitInput)
      → IdsBelow s.db.last_message_id s.db.messages
      → Change s.db (submit_new u r i s).1.db
  submit_new-Change i below =
      submit_Change i (submit_new u r i s) (submit_new-Outcome u r i s below)

  pub submit_reply-Change :
      (i : ReplyInput)
      → IdsBelow s.db.last_message_id s.db.messages
      → Change s.db (submit_reply u r i s).1.db
  submit_reply-Change i below =
      reply_Change i (submit_reply u r i s) (submit_reply-Outcome u r i s below)

module _ (now : ℤ) (m : Incoming) (s : BotState) where
  same : (b : BotState) → b.db ≡ s.db → Change s.db b.db
  same b e = Change.unchanged (ap (λ d. d.tickets) e) (ap (λ d. d.messages) e)

  -- The message of the owner that names an open ticket.
  body_Change :
      (t : Ticket) (db : Database) (blank : Bool)
      → NamesOpen now m s t
      → (if blank
          then ((db.tickets ≡ s.db.tickets) × (db.messages ≡ s.db.messages))
          else Admin.Replied now m s t db)
      → Change s.db db
  body_Change t db true names h = Change.unchanged h.0 h.1
  body_Change t db false names h =
      Change.speaking (route now m s).ticket_id t admin _ (route now m s).body [] now none
        names.names names.open_now h.moved h.messages

  Acted-Change :
      (t : Ticket) (db : Database) (k : Kind)
      → NamesOpen now m s t
      → Acted now m s k t db
      → Change s.db db
  Acted-Change t db Kind.close names h =
      Change.closing (route now m s).ticket_id t now names.names names.open_now h.moved h.messages
  Acted-Change t db Kind.reply names h = body_Change t db (is_empty (route now m s).body) names h
  Acted-Change t db Kind.no_ticket_id names h = Change.unchanged h.0 h.1

  module _ (owner : (s.contact_id ≢ 0) × (m.from ≡ s.contact_id)) where
    abbrev acted : Result (Option Ticket) → Database
    acted o = (act_on now s.contact_id m.msg_id (route now m s) s (o, s.db)).1.db

    -- A message whose ticket is not an open one.
    refused :
        (t : Ticket) → t.status ≡ TicketStatus.closed → Change s.db (acted (Result.ok (some t)))
    refused t e = rw e (same (record s { db = _ }) (send_to_keeps s.contact_id _ 0 s).0)

    names_open :
        (t : Ticket)
        → (get (route now m s).ticket_id s.db).0 ≡ Result.ok (some t)
        → t.status ≢ TicketStatus.closed
        → Change s.db (on_incoming_msg now m s).1.db
    names_open t found running =
        let names : NamesOpen now m s t = record {
          is_owner = owner;
          names = found;
          open_now = running;
        } in
        Acted-Change t (on_incoming_msg now m s).1.db (route now m s).kind names
          (on_incoming_msg-Acted now m s t names)

    module _
        (routed : (route_admin_msg now s.contact_id m s).1.db
          ≡ acted (get (route now m s).ticket_id s.db).0) where
      through :
          (o : Result (Option Ticket))
          → (get (route now m s).ticket_id s.db).0 ≡ o
          → Change s.db (acted o)
          → Change s.db (on_incoming_msg now m s).1.db
      through o e h =
          subst (Change s.db)
            (sym (on_incoming_msg_owner now m s owner.0 owner.1 ∙ routed ∙ ap acted e)) h

      looked_up :
          (o : Result (Option Ticket))
          → (get (route now m s).ticket_id s.db).0 ≡ o
          → Change s.db (on_incoming_msg now m s).1.db
      looked_up Result.throw e = through Result.throw e (same s refl)
      looked_up (Result.ok none) e = through (Result.ok none) e (
          Change.unchanged (ap (λ d. d.tickets) (send_to_keeps s.contact_id _ 0 s).0)
            (ap (λ d. d.messages) (send_to_keeps s.contact_id _ 0 s).0))
      looked_up (Result.ok (some t)) e = status t.status refl
        where
          status : (st : TicketStatus) → t.status ≡ st → Change s.db (on_incoming_msg now m s).1.db
          status TicketStatus.closed is = through (Result.ok (some t)) e (refused t is)
          status awaiting_admin is = names_open t e (λ c. ground arith)
          status awaiting_visitor is = names_open t e (λ c. ground arith)

    by_kind : (k : Kind) → (route now m s).kind ≡ k → Change s.db (on_incoming_msg now m s).1.db
    unfolding route_admin_msg get
    by_kind Kind.no_ticket_id e =
        subst (Change s.db)
          (sym (
            on_incoming_msg_owner now m s owner.0 owner.1
            ∙ rw (e, route_admin_msg) (send_to_keeps s.contact_id _ 0 s).0))
          (same s refl)
    by_kind Kind.close e = looked_up (simp (e, route_admin_msg)) _ refl
    by_kind Kind.reply e = looked_up (simp (e, route_admin_msg)) _ refl

  pub on_incoming_msg-Change : Change s.db (on_incoming_msg now m s).1.db
  unfolding on_incoming_msg
  on_incoming_msg-Change = elim (Bool-cases (s.contact_id == 0)) [
    | inl nobody ↦ rw nobody (
        let (kept, _) = send_to_keeps m.from welcome_text 0 (record s {
          contact_id = m.from;
          db = State.set (codes "owner_contact_id") (to_string m.from) s.db;
        }) in
        Change.unchanged (ap (λ d. d.tickets) kept ∙ (unfold State.set in refl))
          (ap (λ d. d.messages) kept ∙ (unfold State.set in refl)))
    | inr somebody ↦ elim (Bool-cases (m.from == s.contact_id)) [
      | inl equal ↦ by_kind ((λ z. ground arith), ground arith) (route now m s).kind refl
      | inr other ↦ rw (somebody, other) (same s refl)
    ]
  ]
