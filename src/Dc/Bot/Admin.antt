-- ===== src/Dc/Bot/Admin.antt =====
-- What a message does to the tickets.
use deltafeedback.Prelude.{
  ℕ, ◌+◌, ◌≡◌, ◌≢◌, refl, sym, ap, subst, ◌∙◌, inl, inr, true, false, [], ◌∷◌, ◌++◌, none, some,
  is_empty, ◌==◌, if◌then◌else◌, ℤ, Result, Bool-cases, arith,
}
use deltafeedback.Db.Schema.{Database, MessageRow}
use deltafeedback.Db.Tickets.{
  TicketStatus, awaiting_visitor, closed, Ticket, get, set_status, close,
}
use deltafeedback.Db.Tickets.Status.{get-same, get-set_status, get-close, get-has_ticket}
use deltafeedback.Db.Messages.{admin, append, message_row}
use deltafeedback.Db.Messages.Threads.{append_owned}
use deltafeedback.Dc.Parse.{Kind}
use deltafeedback.Dc.Route.{AdminRoute}
use deltafeedback.Dc.Bot.{
  delete_chat, block_contact, seen, BotState, Incoming, after_append, act_on_open, act_on, route_of,
  route_admin_msg, on_incoming_msg,
}
use deltafeedback.Dc.Bot.Owner.{send_to_keeps}

module _ (now : ℤ) (m : Incoming) (s : BotState) where
  abbrev pub route : AdminRoute
  route = route_of m s.db

  -- The owner's message names an open ticket.
  pub record NamesOpen (t : Ticket) : Type 0 where
    pub is_owner : (s.contact_id ≢ 0) × (m.from ≡ s.contact_id)
    pub names : (get route.ticket_id s.db).0 ≡ Result.ok (some t)
    pub open_now : t.status ≢ closed

  abbrev pub admin_message : MessageRow
  admin_message =
      message_row (s.db.last_message_id + 1) route.ticket_id admin route.body now [] none

  -- The ticket has the text as its last message, and waits for the visitor.
  pub record Replied (t : Ticket) (db : Database) : Type 0 where
    pub read_back :
        (get route.ticket_id db).0 ≡ Result.ok (some (record t { status = awaiting_visitor }))
    pub moved : db.tickets ≡ (set_status route.ticket_id awaiting_visitor s.db).tickets
    pub messages : db.messages ≡ s.db.messages ++ admin_message ∷ []

  -- The ticket is closed, and has no new message.
  pub record Closed (t : Ticket) (db : Database) : Type 0 where
    pub read_back :
        (get route.ticket_id db).0
        ≡ Result.ok (some (record t { status = closed; closed_at = some now }))
    pub moved : db.tickets ≡ (close route.ticket_id now s.db).tickets
    pub messages : db.messages ≡ s.db.messages

  -- The outcome for the tickets, as the route and the text have it.
  abbrev pub Acted : Kind → Ticket → Database → Type 0
  Acted Kind.close t db = Closed t db
  Acted Kind.reply t db =
      if is_empty route.body
      then ((db.tickets ≡ s.db.tickets) × (db.messages ≡ s.db.messages))
      else Replied t db
  Acted Kind.no_ticket_id t db = (db.tickets ≡ s.db.tickets) × (db.messages ≡ s.db.messages)

  abbrev appended : Database
  appended = record s.db {
    messages = s.db.messages ++ admin_message ∷ [];
    last_message_id = s.db.last_message_id + 1;
  }

  module _ (t : Ticket) (h : NamesOpen t) where
    replied :
        Replied t
          (after_append route.ticket_id s
            (append route.ticket_id admin route.body now [] none s.db)).1.db
    replied =
        rw
          (append_owned route.ticket_id route.body [] admin now none s.db
            (get-has_ticket route.ticket_id s.db t h.names))
          (record {
            read_back =
                get-set_status route.ticket_id awaiting_visitor appended t
                  (get-same route.ticket_id appended s.db refl ∙ h.names) h.open_now;
            moved = unfold set_status in refl;
            messages = unfold set_status in refl;
          })

    closes : Closed t (close route.ticket_id now s.db)
    closes = record {
      read_back = get-close route.ticket_id now s.db t h.names h.open_now;
      moved = refl;
      messages = unfold close in refl;
    }

    act_on_open-Acted :
        (k : Kind)
        → route.kind ≡ k
        → k ≢ Kind.no_ticket_id
        → Acted k t (act_on_open now s.contact_id m.msg_id route s).1.db
    unfolding act_on_open
    act_on_open-Acted Kind.close e n =
        rw e (subst (Closed t) (sym (send_to_keeps s.contact_id _ m.msg_id _).0) closes)
    act_on_open-Acted Kind.reply e n = elim (Bool-cases (is_empty route.body)) [
      | inl blank ↦
          rw (e, blank)
            (let same = (send_to_keeps s.contact_id _ 0 s).0 in
              (ap (λ d. d.tickets) same, ap (λ d. d.messages) same))
      | inr full ↦ rw (e, full) replied
    ]
    act_on_open-Acted Kind.no_ticket_id e n = absurd (n refl)

    act_on-open :
        (status : TicketStatus)
        → t.status ≡ status
        → act_on now s.contact_id m.msg_id route s (Result.ok (some t), s.db)
          ≡ act_on_open now s.contact_id m.msg_id route s
    act_on-open closed e = absurd (h.open_now e)
    act_on-open TicketStatus.awaiting_admin e = rw e refl
    act_on-open awaiting_visitor e = rw e refl

    get_pair : get route.ticket_id s.db ≡ (Result.ok (some t), s.db)
    unfolding get
    get_pair = ap (λ o. (o, s.db)) h.names

    routed :
        (k : Kind)
        → route.kind ≡ k
        → k ≢ Kind.no_ticket_id
        → route_admin_msg now s.contact_id m s ≡ act_on_open now s.contact_id m.msg_id route s
    unfolding route_admin_msg
    routed Kind.no_ticket_id e n = absurd (n refl)
    routed Kind.close e n =
        simp (e, route_admin_msg)
          (ap (act_on now s.contact_id m.msg_id route s) get_pair ∙ act_on-open t.status refl)
    routed Kind.reply e n =
        simp (e, route_admin_msg)
          (ap (act_on now s.contact_id m.msg_id route s) get_pair ∙ act_on-open t.status refl)

    unrouted : route.kind ≡ Kind.no_ticket_id → (route_admin_msg now s.contact_id m s).1.db ≡ s.db
    unfolding route_admin_msg
    unrouted e = rw (e, route_admin_msg) (send_to_keeps s.contact_id _ 0 s).0

    route_admin_msg-Acted :
        (k : Kind) → route.kind ≡ k → Acted k t (route_admin_msg now s.contact_id m s).1.db
    route_admin_msg-Acted Kind.no_ticket_id e =
        (ap (λ d. d.tickets) (unrouted e), ap (λ d. d.messages) (unrouted e))
    route_admin_msg-Acted Kind.close e =
        let n : Kind.close ≢ Kind.no_ticket_id = λ x. ground arith in
        subst (λ x. Closed t x.1.db) (sym (routed Kind.close e n))
          (act_on_open-Acted Kind.close e n)
    route_admin_msg-Acted Kind.reply e =
        let n : Kind.reply ≢ Kind.no_ticket_id = λ x. ground arith in
        subst (λ x. Acted Kind.reply t x.1.db) (sym (routed Kind.reply e n))
          (act_on_open-Acted Kind.reply e n)

pub seen_keeps : (i : ℕ) (x : Result (Unit {0}) × BotState) → (seen i x).1.db ≡ x.1.db
seen_keeps i (Result.throw, s) = refl
seen_keeps i (Result.ok _, s) = refl

-- The owner's message is the admin's.
pub on_incoming_msg_owner :
    (now : ℤ) (m : Incoming) (s : BotState)
    → s.contact_id ≢ 0
    → m.from ≡ s.contact_id
    → (on_incoming_msg now m s).1.db ≡ (route_admin_msg now s.contact_id m s).1.db
unfolding on_incoming_msg
on_incoming_msg_owner now m s some_owner same =
    let nonzero : (s.contact_id == 0) ≡ false = ground arith in
    let equal : (m.from == s.contact_id) ≡ true = ground arith in
    rw nonzero (rw equal (seen_keeps m.msg_id (route_admin_msg now s.contact_id m s)))

-- When the owner's message names an open ticket: the word "/close" closes it, and stores no message;
-- any other text is stored as the admin's message, and the ticket waits for the visitor; no text
-- changes nothing.
pub on_incoming_msg-Acted :
    (now : ℤ) (m : Incoming) (s : BotState) (t : Ticket)
    → NamesOpen now m s t
    → Acted now m s (route now m s).kind t (on_incoming_msg now m s).1.db
on_incoming_msg-Acted now m s t h =
    subst (Acted now m s (route now m s).kind t)
      (sym (on_incoming_msg_owner now m s h.is_owner.0 h.is_owner.1))
      (route_admin_msg-Acted now m s t h (route now m s).kind refl)

-- A message of a stranger, when there is an owner, changes no table; the stranger is blocked, the chat
-- deleted, and nothing is sent.
pub on_incoming_msg_stranger :
    (now : ℤ) (m : Incoming) (s : BotState)
    → s.contact_id ≢ 0
    → m.from ≢ s.contact_id
    → on_incoming_msg now m s ≡ (
      Result.ok tt,
      record s { effects = delete_chat m.chat_id ∷ block_contact m.from ∷ s.effects },
    )
unfolding on_incoming_msg
on_incoming_msg_stranger now m s some_owner other =
    let nonzero : (s.contact_id == 0) ≡ false = ground arith in
    let differs : (m.from == s.contact_id) ≡ false = ground arith in rw nonzero (rw differs refl)
