-- ===== src/System/Protocol/Changes.antt =====
-- What the program does to the tickets and messages at once, and how each ticket's conversation moves.
use deltafeedback.Prelude.{
  ℕ, ◌≡◌, ◌≢◌, refl, sym, ap, subst, ◌∙◌, inl, inr, List, [], ◌∷◌, ◌++◌, Option, none, some, Bytes,
  bytes_eq, bytes_eq_iff, ℤ, Result, ok, Bool-cases, arith,
}
use deltafeedback.Db.Schema.{Database, MessageRow, TicketRow}
use deltafeedback.Db.Tickets.{
  TicketStatus, awaiting_admin, closed, Ticket, find_ticket, get, to_string, new_row, set_status,
  close, update_status, update_closed,
}
use deltafeedback.Db.Messages.{
  Sender, visitor, admin, list, message_row, select_messages, parse_sender,
}
use deltafeedback.Db.Tickets.Status.{
  get-same, get-set_status, get-close, get_found, get-row, fresh, find_ticket-new_row,
  find_ticket-new_row_ne,
}
use deltafeedback.System.Protocol.{Conversation, MaySpeak, turn_after, spoken, ended, Moves, Shows}
use deltafeedback.System.Protocol.Threads.{
  message_of, parse_sender-to_string, select_messages-own, select_messages-other,
}

-- A change of the tickets and messages of one request or message.
pub data Change (db after : Database) : Type 0 where
  unchanged : after.tickets ≡ db.tickets → after.messages ≡ db.messages → Change db after
  opening :
      (t : Ticket) (row_id : ℕ) (body ip : Bytes) (at : ℤ) (dc : Option ℕ)
      → find_ticket t.id db.tickets ≡ none
      → after.tickets ≡ db.tickets ++ new_row t ∷ []
      → after.messages ≡ db.messages ++ message_row row_id t.id visitor body at ip dc ∷ []
      → Change db after
  speaking :
      (id : Bytes) (t : Ticket) (who : Sender) (row_id : ℕ) (body ip : Bytes) (at : ℤ)
      (dc : Option ℕ)
      → (get id db).0 ≡ ok (some t)
      → MaySpeak who t.status
      → after.tickets ≡ (set_status id (turn_after who) db).tickets
      → after.messages ≡ db.messages ++ message_row row_id id who body at ip dc ∷ []
      → Change db after
  closing :
      (id : Bytes) (t : Ticket) (at : ℤ)
      → (get id db).0 ≡ ok (some t)
      → t.status ≢ closed
      → after.tickets ≡ (close id at db).tickets
      → after.messages ≡ db.messages
      → Change db after

-- What is shown afterwards is a step away.
pub record Follows (id : Bytes) (after : Database) (o : Option Conversation) : Type 0 where
  pub next : Option Conversation
  pub shown : Shows id after next
  pub moves : Moves o next

pub Shows-same :
    (id : Bytes) (db after : Database) (o : Option Conversation)
    → find_ticket id after.tickets ≡ find_ticket id db.tickets
    → select_messages id after.messages ≡ select_messages id db.messages
    → Shows id db o
    → Shows id after o
unfolding list
Shows-same id db after none t m (g, l) = (get-same id after db t ∙ g, m ∙ l)
Shows-same id db after (some c) t m (g, l) = (get-same id after db t ∙ g, m ∙ l)

pub stay :
    (id : Bytes) (db after : Database) (o : Option Conversation)
    → find_ticket id after.tickets ≡ find_ticket id db.tickets
    → select_messages id after.messages ≡ select_messages id db.messages
    → Shows id db o
    → Follows id after o
stay id db after o t m h = record {
  next = o;
  shown = Shows-same id db after o t m h;
  moves = Moves.stays;
}

-- A change of one ticket's status or end leaves the rows of the others.
restatus_other :
    (id j status : Bytes) (rs : List TicketRow)
    → j ≢ id
    → find_ticket j (update_status id status rs) ≡ find_ticket j rs
unfolding find_ticket update_status
restatus_other id j status [] other = refl
restatus_other id j status (r ∷ rs) other =
    ground (arith, restatus_other id j status rs other, bytes_eq_iff r.id id, bytes_eq_iff r.id j)

reclose_other :
    (id j : Bytes) (at : ℤ) (rs : List TicketRow)
    → j ≢ id
    → find_ticket j (update_closed id at rs) ≡ find_ticket j rs
unfolding find_ticket update_closed
reclose_other id j at [] other = refl
reclose_other id j at (r ∷ rs) other =
    ground (arith, reclose_other id j at rs other, bytes_eq_iff r.id id, bytes_eq_iff r.id j)

abbrev read_result : Result (Option Ticket) × Database → Result (Option Ticket)
read_result x = x.0

MaySpeak-open : (who : Sender) (status : TicketStatus) → MaySpeak who status → status ≢ closed
MaySpeak-open visitor status h = λ e. ground arith
MaySpeak-open admin status h = h

module _ (id : Bytes) (db after : Database) where
  opened :
      (t : Ticket) (m : MessageRow)
      → m.ticket_id ≡ t.id
      → parse_sender m.sender ≡ ok visitor
      → find_ticket t.id db.tickets ≡ none
      → after.tickets ≡ db.tickets ++ new_row t ∷ []
      → after.messages ≡ db.messages ++ m ∷ []
      → t.id ≡ id
      → (o : Option Conversation) → Shows id db o
      → Follows id after o
  unfolding list
  opened t m own who free ts ms same none (g, l) =
      let found : find_ticket id after.tickets ≡ some (new_row t) =
        ap (find_ticket id) ts
        ∙ subst (λ j. find_ticket j (db.tickets ++ new_row t ∷ []) ≡ some (new_row t)) same
            (find_ticket-new_row t db.tickets free) in
      record {
        next = some (record { ticket = fresh t; thread = message_of m visitor ∷ [] });
        shown = (
          ap read_result
              (get_found id after (new_row t) awaiting_admin found (unfold to_string in refl)),
          ap (select_messages id) ms
              ∙ select_messages-own id db.messages [] m visitor l (own ∙ same) who,
        );
        moves = Moves.opens (fresh t) (message_of m visitor) refl refl refl;
      }
  opened t m own who free ts ms same (some c) (g, l) =
      let (r, found, is, read) = get-row id db c.ticket g in
      absurd (ground (arith, ap (λ j. find_ticket j db.tickets) same))

  spoke :
      (t : Ticket) (who : Sender) (m : MessageRow)
      → m.ticket_id ≡ id
      → parse_sender m.sender ≡ ok who
      → (get id db).0 ≡ ok (some t)
      → MaySpeak who t.status
      → after.tickets ≡ (set_status id (turn_after who) db).tickets
      → after.messages ≡ db.messages ++ m ∷ []
      → (o : Option Conversation) → Shows id db o
      → Follows id after o
  unfolding list
  spoke t who m own is found may ts ms none (g, l) = absurd (ground arith)
  spoke t who m own is found may ts ms (some c) (g, l) =
      let same : t ≡ c.ticket = ground arith in
      record {
        next = some (spoken c (message_of m who));
        shown = (
          get-same id after (set_status id (turn_after who) db) (ap (find_ticket id) ts)
              ∙ get-set_status id (turn_after who) db c.ticket g
                  (subst (λ x. x.status ≢ closed) same (MaySpeak-open who t.status may)),
          ap (select_messages id) ms ∙ select_messages-own id db.messages c.thread m who l own is,
        );
        moves = Moves.speaks c (message_of m who) (subst (λ x. MaySpeak who x.status) same may);
      }

  closed_now :
      (t : Ticket) (at : ℤ)
      → (get id db).0 ≡ ok (some t)
      → t.status ≢ closed
      → after.tickets ≡ (close id at db).tickets
      → after.messages ≡ db.messages
      → (o : Option Conversation) → Shows id db o
      → Follows id after o
  unfolding list
  closed_now t at found running ts ms none (g, l) = absurd (ground arith)
  closed_now t at found running ts ms (some c) (g, l) =
      let open_now : c.ticket.status ≢ closed = λ e. running (ground arith) in
      record {
        next = some (ended c at);
        shown = (
          get-same id after (close id at db) (ap (find_ticket id) ts)
              ∙ get-close id at db c.ticket g open_now,
          ap (select_messages id) ms ∙ l,
        );
        moves = Moves.ends c at open_now;
      }

-- Each change moves every ticket's conversation by one step at most.
pub Change-Follows :
    (id : Bytes) (db after : Database) (o : Option Conversation)
    → Change db after
    → Shows id db o
    → Follows id after o
unfolding set_status close
Change-Follows id db after o (Change.unchanged ts ms) h =
    stay id db after o (ap (find_ticket id) ts) (ap (select_messages id) ms) h
Change-Follows id db after o (Change.opening t row_id body ip at dc free ts ms) h =
    elim (Bool-cases (bytes_eq t.id id)) [
      | inl same ↦
          opened id db after t (message_row row_id t.id visitor body at ip dc) refl
            (parse_sender-to_string visitor) free ts ms ((bytes_eq_iff t.id id).0 same) o h
      | inr other ↦
          let ne : t.id ≢ id = λ e. ground (arith, bytes_eq_iff t.id id) in
          stay id db after o
            (ap (find_ticket id) ts ∙ find_ticket-new_row_ne t id db.tickets (λ e. ne (sym e)))
            (ap (select_messages id) ms ∙ select_messages-other id db.messages _ ne) h
    ]
Change-Follows id db after o (Change.speaking j t who row_id body ip at dc found may ts ms) h =
    elim (Bool-cases (bytes_eq j id)) [
      | inl same ↦
          let e : j ≡ id = (bytes_eq_iff j id).0 same in
          spoke id db after t who (message_row row_id j who body at ip dc) e
            (parse_sender-to_string who) (subst (λ k. (get k db).0 ≡ ok (some t)) e found) may
            (ts ∙ ap (λ k. (set_status k (turn_after who) db).tickets) e) ms o h
      | inr other ↦
          let ne : j ≢ id = λ e. ground (arith, bytes_eq_iff j id) in
          stay id db after o
            (ap (find_ticket id) ts ∙ restatus_other j id _ db.tickets (λ e. ne (sym e)))
            (ap (select_messages id) ms ∙ select_messages-other id db.messages _ ne) h
    ]
Change-Follows id db after o (Change.closing j t at found running ts ms) h =
    elim (Bool-cases (bytes_eq j id)) [
      | inl same ↦
          let e : j ≡ id = (bytes_eq_iff j id).0 same in
          closed_now id db after t at (subst (λ k. (get k db).0 ≡ ok (some t)) e found) running
            (ts ∙ ap (λ k. (close k at db).tickets) e) ms o h
      | inr other ↦
          let ne : j ≢ id = λ e. ground (arith, bytes_eq_iff j id) in
          stay id db after o
            (ap (find_ticket id) ts ∙ reclose_other j id at db.tickets (λ e. ne (sym e)))
            (ap (select_messages id) ms) h
    ]
