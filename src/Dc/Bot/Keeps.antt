-- ===== src/Dc/Bot/Keeps.antt =====
-- The bot changes the tables only by the program's statements: whatever these keep, it keeps.
use deltafeedback.Prelude.{
  ℕ, ◌≡◌, refl, sym, subst, inl, inr, [], Option, none, some, Bytes, codes, ◌==◌, if◌then◌else◌, ℤ,
  Result, Bool-cases, is_empty, arith,
}
use deltafeedback.Pow.Decimal.{to_string}
use deltafeedback.Db.Schema.{Database}
use deltafeedback.Db.Tickets.{TicketStatus, awaiting_visitor, Ticket, get}
use deltafeedback.Db.Messages.{admin, append}
use deltafeedback.Db.Invariant.{Statement, exec, Serving}
use deltafeedback.Dc.Parse.{Kind}
use deltafeedback.Dc.Route.{AdminRoute}
use deltafeedback.Dc.Bot.{
  BotState, Incoming, send_to, after_append, act_on_open, act_on, route_of, route_admin_msg,
  on_incoming_msg, welcome_text, empty_text,
}
use deltafeedback.Dc.Bot.Owner.{send_to_keeps}
use deltafeedback.Dc.Bot.Admin.{seen_keeps}

module _ (P : Database → Type 0)
    (keeps : (st : Statement) (db : Database) → Serving st → P db → P (exec st db)) (now : ℤ) where
  sent_keeps :
      (contact : ℕ) (text : Bytes) (quote : ℕ) (s : BotState)
      → P s.db
      → P (send_to contact text quote s).db
  sent_keeps contact text quote s h = subst P (sym (send_to_keeps contact text quote s).0) h

  after_append_keeps :
      (id : Bytes) (s : BotState) (a : Result ℕ × Database) → P a.1 → P (after_append id s a).1.db
  after_append_keeps id s (Result.throw, db) h = h
  after_append_keeps id s (Result.ok row_id, db) h =
      keeps (Statement.ticket_set_status id awaiting_visitor) db (λ e. ground arith) h

  replied :
      (owner : ℕ) (route : AdminRoute) (s : BotState)
      → P s.db
      → P
          (if is_empty route.body
            then (Result.ok tt, send_to owner empty_text 0 s)
            else after_append route.ticket_id s
                (append route.ticket_id admin route.body now [] none s.db)).1.db
  replied owner route s h = elim (Bool-cases (is_empty route.body)) [
    | inl blank ↦ rw blank (sent_keeps owner empty_text 0 s h)
    | inr full ↦ rw full (
        after_append_keeps route.ticket_id s _
          (keeps (Statement.message_append route.ticket_id admin route.body now [] none) s.db tt h))
  ]

  act_on_open_keeps :
      (owner msg_id : ℕ) (route : AdminRoute) (k : Kind) (s : BotState)
      → route.kind ≡ k
      → P s.db
      → P (act_on_open now owner msg_id route s).1.db
  unfolding act_on_open
  act_on_open_keeps owner msg_id route Kind.close s e h =
      rw e
        (sent_keeps owner _ msg_id _ (keeps (Statement.ticket_close route.ticket_id now) s.db tt h))
  act_on_open_keeps owner msg_id route Kind.reply s e h = rw e (replied owner route s h)
  act_on_open_keeps owner msg_id route Kind.no_ticket_id s e h = rw e (replied owner route s h)

  act_on_keeps :
      (owner msg_id : ℕ) (route : AdminRoute) (s : BotState) (a : Result (Option Ticket) × Database)
      → P a.1
      → P (act_on now owner msg_id route s a).1.db
  act_on_keeps owner msg_id route s (Result.throw, db) h = h
  act_on_keeps owner msg_id route s (Result.ok none, db) h =
      sent_keeps owner _ 0 (record s { db = db }) h
  act_on_keeps owner msg_id route s (Result.ok (some t), db) h = on_status t.status refl
    where
      on_status :
          (status : TicketStatus)
          → t.status ≡ status
          → P (act_on now owner msg_id route s (Result.ok (some t), db)).1.db
      on_status TicketStatus.closed e = rw e (sent_keeps owner _ 0 (record s { db = db }) h)
      on_status TicketStatus.awaiting_admin e =
          rw e (act_on_open_keeps owner msg_id route route.kind (record s { db = db }) refl h)
      on_status awaiting_visitor e =
          rw e (act_on_open_keeps owner msg_id route route.kind (record s { db = db }) refl h)

  route_admin_msg_keeps :
      (owner : ℕ) (m : Incoming) (k : Kind) (s : BotState)
      → (route_of m s.db).kind ≡ k
      → P s.db
      → P (route_admin_msg now owner m s).1.db
  unfolding route_admin_msg get
  route_admin_msg_keeps owner m Kind.no_ticket_id s e h =
      simp (e, route_admin_msg) (sent_keeps owner _ 0 s h)
  route_admin_msg_keeps owner m Kind.close s e h =
      simp (e, route_admin_msg)
        (act_on_keeps owner m.msg_id (route_of m s.db) s (get (route_of m s.db).ticket_id s.db) h)
  route_admin_msg_keeps owner m Kind.reply s e h =
      simp (e, route_admin_msg)
        (act_on_keeps owner m.msg_id (route_of m s.db) s (get (route_of m s.db).ticket_id s.db) h)

  pub on_incoming_msg_keeps :
      (m : Incoming) (s : BotState) → P s.db → P (on_incoming_msg now m s).1.db
  unfolding on_incoming_msg
  on_incoming_msg_keeps m s h = elim (Bool-cases (s.contact_id == 0)) [
    | inl nobody ↦ rw nobody (
        sent_keeps m.from welcome_text 0 _
          (keeps (Statement.state_set (codes "owner_contact_id") (to_string m.from)) s.db tt h))
    | inr somebody ↦ rw somebody (elim (Bool-cases (m.from == s.contact_id)) [
      | inl same ↦ rw same (
          subst P (sym (seen_keeps m.msg_id (route_admin_msg now s.contact_id m s)))
            (route_admin_msg_keeps s.contact_id m (route_of m s.db).kind s refl h))
      | inr other ↦ rw other h
    ])
  ]
