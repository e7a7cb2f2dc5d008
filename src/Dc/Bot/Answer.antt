-- ===== src/Dc/Bot/Answer.antt =====
-- What the owner's words do to the ticket that a message is about.
use deltafeedback.Prelude.{
  ◌+◌, ◌≡◌, ◌≢◌, refl, sym, ap, subst, ◌∙◌, inl, inr, Bool, [], ◌∷◌, ◌++◌, none, some, Bytes, codes,
  is_empty, if◌then◌else◌, ℤ, Result, Bool-cases, arith,
}
use deltafeedback.Db.Schema.{Database, MessageRow}
use deltafeedback.Db.Tickets.{Ticket, awaiting_visitor, closed, get, set_status, close}
use deltafeedback.Db.Messages.{admin, sender_to_string, find_ticket_by_dc_msg_id}
use deltafeedback.Dc.Parse.{Kind}
use deltafeedback.Dc.Route.{AdminRoute}
use deltafeedback.Dc.Route.Sources.{About, Orders, About-Orders}
use deltafeedback.Dc.Bot.{BotState, Incoming, on_incoming_msg}
use deltafeedback.Dc.Bot.Admin.{NamesOpen, Acted, Replied, Closed, route, on_incoming_msg-Acted}

-- The message is about the ticket `id`, and these are its words.
abbrev pub Says : Incoming → Database → Bytes → Bytes → Type 0
Says m db id words =
    About m.text m.quoted_msg_id m.quoted_text (some (λ i. find_ticket_by_dc_msg_id i db))
      (some (id, words))

-- What the owner said, as the last message.
abbrev pub answer_row : ℤ → Database → Bytes → Bytes → MessageRow
answer_row now db id words = record {
  id = db.last_message_id + 1;
  ticket_id = id;
  sender = sender_to_string admin;
  body = words;
  created_at = now;
  visitor_ip = none;
  dc_msg_id = none;
}

pub data Done (now : ℤ) (db : Database) (id : Bytes) (t : Ticket) (words : Bytes) (after : Database)
    : Type 0 where
  closes :
      words ≡ codes "/close"
      → (get id after).0 ≡ Result.ok (some (record t { status = closed; closed_at = some now }))
      → after.tickets ≡ (close id now db).tickets
      → after.messages ≡ db.messages
      → Done now db id t words after
  answers :
      words ≢ codes "/close"
      → words ≢ []
      → (get id after).0 ≡ Result.ok (some (record t { status = awaiting_visitor }))
      → after.tickets ≡ (set_status id awaiting_visitor db).tickets
      → after.messages ≡ db.messages ++ answer_row now db id words ∷ []
      → Done now db id t words after
  silent :
      words ≡ []
      → after.tickets ≡ db.tickets
      → after.messages ≡ db.messages
      → Done now db id t words after

module _ (now : ℤ) (m : Incoming) (s : BotState) (t : Ticket) (id words : Bytes) where
  abbrev after : Database
  after = (on_incoming_msg now m s).1.db

  replied_Done :
      words ≢ codes "/close"
      → route now m s ≡ record { kind = Kind.reply; ticket_id = id; body = words }
      → Acted now m s Kind.reply t after
      → Done now s.db id t words after
  replied_Done other e acted = elim (Bool-cases (is_empty words)) [
    | inl blank ↦
        let kept = subst outcome (ap (λ r. is_empty r.body) e ∙ blank) acted in
        Done.silent (ground arith) kept.0 kept.1
    | inr full ↦
        let reply : Replied now m s t after =
          subst outcome (ap (λ r. is_empty r.body) e ∙ full) acted in
        Done.answers other (λ z. ground arith)
          (ap (λ j. (get j after).0) (sym is) ∙ reply.read_back)
          (reply.moved ∙ ap (λ j. (set_status j awaiting_visitor s.db).tickets) is)
          (reply.messages
            ∙ ap (λ x. s.db.messages ++ answer_row now s.db x.ticket_id x.body ∷ []) e)
  ]
    where
      is : (route now m s).ticket_id ≡ id
      is = ap (λ r. r.ticket_id) e

      outcome : Bool → Type 0
      outcome b =
          if b
          then ((after.tickets ≡ s.db.tickets) × (after.messages ≡ s.db.messages))
          else Replied now m s t after

  Orders-id : (x : AdminRoute) → Orders (some (id, words)) x → x.ticket_id ≡ id
  Orders-id _ (Orders.closes _ _ close_it) = refl
  Orders-id _ (Orders.replies _ _ other) = refl

  Says-Orders : Says m s.db id words → Orders (some (id, words)) (route now m s)
  Says-Orders says =
      About-Orders m.text m.quoted_msg_id m.quoted_text
        (some (λ i. find_ticket_by_dc_msg_id i s.db)) (some (id, words)) says

  routed_Done :
      (x : AdminRoute)
      → Orders (some (id, words)) x
      → route now m s ≡ x
      → NamesOpen now m s t
      → Done now s.db id t words after
  routed_Done _ (Orders.closes _ _ close_it) e names =
      let acted : Closed now m s t after =
        subst (λ k. Acted now m s k t after) (ap (λ r. r.kind) e)
          (on_incoming_msg-Acted now m s t names) in
      let is = ap (λ r. r.ticket_id) e in
      Done.closes close_it (ap (λ j. (get j after).0) (sym is) ∙ acted.read_back)
        (acted.moved ∙ ap (λ j. (close j now s.db).tickets) is) acted.messages
  routed_Done _ (Orders.replies _ _ other) e names = replied_Done other e (
      subst (λ k. Acted now m s k t after) (ap (λ r. r.kind) e)
        (on_incoming_msg-Acted now m s t names))

  -- The owner's message is about a ticket that is not closed: the word "/close" closes it, at the time
  -- of the message, and stores no text; other words become its last message, and the ticket waits for
  -- the visitor; and no words change nothing. `Says` has the words, and what the message is about.
  pub on_incoming_msg-Done :
      s.contact_id ≢ 0
      → m.from ≡ s.contact_id
      → Says m s.db id words
      → (get id s.db).0 ≡ Result.ok (some t)
      → t.status ≢ closed
      → Done now s.db id t words (on_incoming_msg now m s).1.db
  on_incoming_msg-Done some_owner same says found running =
      let orders = Says-Orders says in
      routed_Done (route now m s) orders refl (record {
        is_owner = (some_owner, same);
        names = ap (λ j. (get j s.db).0) (Orders-id (route now m s) orders) ∙ found;
        open_now = running;
      })
