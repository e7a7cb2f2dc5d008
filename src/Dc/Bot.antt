-- ===== src/Dc/Bot.antt =====
-- What src/dc/bot.cpp does with an incoming message. The calls of Delta Chat's library are kept in a
-- list, `effects`, the last one first: the bot looks at none of their results.
pub mod Owner
pub mod Admin
pub mod Answer
pub mod Keeps
pub mod Configure
pub mod Events
use deltafeedback.Prelude.{
  ℕ, ◌%◌, ◌^◌, Bool, true, false, not, List, [], ◌∷◌, ◌++◌, Option, none, some, Bytes, codes, utf8,
  is_empty, ◌==◌, if◌then◌else◌, ℤ, Result, Exec,
}
use deltafeedback.Pow.Decimal.{to_string}
use deltafeedback.Db.Schema.{Database}
use deltafeedback.Db.State
use deltafeedback.Db.Tickets.{TicketStatus, awaiting_visitor, Ticket, get, set_status, close}
use deltafeedback.Db.Messages.{admin, append, find_ticket_by_dc_msg_id}
use deltafeedback.Dc.Parse.{Kind}
use deltafeedback.Dc.Route.{AdminRoute, route_admin_message}

pub data Effect : Type 0 where
  send_text : ℕ → Bytes → ℕ → Effect
  markseen_msg : ℕ → Effect
  block_contact : ℕ → Effect
  delete_chat : ℕ → Effect

pub record BotState : Type 0 where
  pub db : Database
  pub contact_id : ℕ
  pub effects : List Effect

-- What the handler reads off the event and its message.
pub record Incoming : Type 0 where
  pub chat_id : ℕ
  pub msg_id : ℕ
  pub from : ℕ
  pub text : Bytes
  pub quoted_msg_id : ℕ
  pub quoted_text : Bytes

abbrev pub emit : Effect → BotState → BotState
emit e s = record s { effects = e ∷ s.effects }

-- A chat that cannot be made is the library's affair.
unfoldable pub send_to : ℕ → Bytes → ℕ → BotState → BotState
send_to contact_id text quote_msg_id s =
    if contact_id == 0 then s else emit (send_text contact_id text quote_msg_id) s

abbrev pub named_ticket : Bytes → Bytes → Bytes
named_ticket id after = utf8 "Тикет [" ++ (id ++ after)

abbrev pub no_ticket_text : Bytes
no_ticket_text =
    utf8 "Ответьте на сообщение бота через «reply» — или укажите [ID] тикета в первой строке."

abbrev pub empty_text : Bytes
empty_text = utf8 "Пустой ответ — ничего не отправлено."

abbrev pub welcome_text : Bytes
welcome_text =
    utf8
      "Вы зарегистрированы как администратор обратной связи. Все новые обращения с формы будут приходить сюда. Чтобы ответить — нажмите «ответить» или начните сообщение с [ID]. Команда закрытия: [ID] /close"

abbrev pub after_append : Bytes → BotState → Result ℕ × Database → Result (Unit {0}) × BotState
after_append id s (Result.throw, db) = (Result.throw, record s { db = db })
after_append id s (Result.ok _, db) =
    (Result.ok tt, record s { db = set_status id awaiting_visitor db })

-- From the check of the route's kind on, for an open ticket.
unfoldable pub act_on_open : ℤ → ℕ → ℕ → AdminRoute → Exec BotState (Unit {0})
unfolding send_to
act_on_open now owner admin_msg_id route s = elim route.kind [
  | Kind.close ↦ (
    Result.ok tt,
    send_to owner (named_ticket route.ticket_id (utf8 "] закрыт.")) admin_msg_id
        (record s { db = close route.ticket_id now s.db }),
  )
  | _ ↦
      if is_empty route.body
      then (Result.ok tt, send_to owner empty_text 0 s)
      else after_append route.ticket_id s (append route.ticket_id admin route.body now [] none s.db)
]

abbrev pub act_on :
    ℤ
    → ℕ
    → ℕ
    → AdminRoute
    → BotState
    → Result (Option Ticket) × Database
    → Result (Unit {0}) × BotState
act_on now owner admin_msg_id route s (Result.throw, db) = (Result.throw, record s { db = db })
act_on now owner admin_msg_id route s (Result.ok none, db) = (
  Result.ok tt,
  send_to owner (named_ticket route.ticket_id (utf8 "] не найден (возможно, удалён по сроку).")) 0
      (record s { db = db }),
)
act_on now owner admin_msg_id route s (Result.ok (some t), db) = elim t.status [
  | TicketStatus.closed ↦ (
    Result.ok tt,
    send_to owner (named_ticket route.ticket_id (utf8 "] уже закрыт.")) 0 (record s { db = db }),
  )
  | _ ↦ act_on_open now owner admin_msg_id route (record s { db = db })
]

-- The route of a message, with the reverse lookup in the messages.
abbrev pub route_of : Incoming → Database → AdminRoute
route_of m db =
    route_admin_message m.text m.quoted_msg_id m.quoted_text
      (some (λ id. find_ticket_by_dc_msg_id id db))

unfoldable pub route_admin_msg : ℤ → ℕ → Incoming → Exec BotState (Unit {0})
unfolding send_to
route_admin_msg now owner m s =
    let route = route_of m s.db in
    elim route.kind [
      | Kind.no_ticket_id ↦ (Result.ok tt, send_to owner no_ticket_text 0 s)
      | _ ↦ act_on now owner m.msg_id route s (get route.ticket_id s.db)
    ]

abbrev pub seen : ℕ → Result (Unit {0}) × BotState → Result (Unit {0}) × BotState
seen msg_id (Result.throw, s) = (Result.throw, s)
seen msg_id (Result.ok _, s) = (Result.ok tt, emit (markseen_msg msg_id) s)

-- The case `DC_EVENT_INCOMING_MSG`, for a message that the library has.
unfoldable pub on_incoming_msg : ℤ → Incoming → Exec BotState (Unit {0})
unfolding send_to
on_incoming_msg now m s =
    if s.contact_id == 0
    then (
      Result.ok tt,
      emit (markseen_msg m.msg_id) (
          send_to m.from welcome_text 0 (record s {
            contact_id = m.from;
            db = State.set (codes "owner_contact_id") (to_string m.from) s.db;
          })),
    )
    else if m.from == s.contact_id
    then seen m.msg_id (route_admin_msg now s.contact_id m s)
    else (Result.ok tt, emit (delete_chat m.chat_id) (emit (block_contact m.from) s))
