-- ===== src/Tests/Db.antt =====
-- src/db.
use deltafeedback.Prelude.{
  ◌+◌, ◌≡◌, refl, false, [], ◌∷◌, some, none, Bytes, codes, length, arith, pos, bytes_eq, ok, inl,
  inr,
}
use deltafeedback.Db.Schema.{TicketRow}
use deltafeedback.Db.Replay.{has_challenge, try_consume}
use deltafeedback.Db.Replay.Once.{consume, purge, use_all, try_consume_once}
use deltafeedback.Db.Tickets.{
  Ticket, awaiting_admin, awaiting_visitor, closed, find_ticket, get, set_status, close,
  purge_inactive_older_than, parse_status, keep_active, last_event, last_message_at,
}
use deltafeedback.Db.Tickets.Rows.{DistinctIds}
use deltafeedback.Db.Tickets.Status.{ticket_of, closed_is_final}
use deltafeedback.Db.Tickets.Purge.{IsActive, messages_of, purge_lem}
use deltafeedback.Db.Invariant.{IsConsistent, Statement, exec, exec-IsConsistent}
use deltafeedback.Tests.Sample.{open_row, closed_row, two_tickets}

abbrev a_id : Bytes
a_id = codes "A3F2K9"

abbrev pub b_id : Bytes
b_id = codes "B7C0D1"

abbrev c_id : Bytes
c_id = codes "C00000"

try_consume_once_example :
    (try_consume (codes "x") (pos 9) (
      use_all
        (consume (codes "y") (pos 2) ∷ purge (pos 5) ∷ [])
        (try_consume (codes "x") (pos 5) two_tickets).1)).0
    ≡ false
try_consume_once_example =
    try_consume_once (codes "x") (pos 5) (pos 9) (consume (codes "y") (pos 2) ∷ purge (pos 5) ∷ [])
      two_tickets (unfold try_consume has_challenge in refl) (tt, (omega arith, tt))

abbrev pub read_open : Ticket
read_open = ticket_of open_row awaiting_visitor

abbrev pub read_closed : Ticket
read_closed = ticket_of closed_row closed

pub get_open : (get a_id two_tickets).0 ≡ ok (some read_open)
unfolding get find_ticket bytes_eq parse_status
get_open = refl

pub get_closed : (get b_id two_tickets).0 ≡ ok (some read_closed)
unfolding get find_ticket bytes_eq parse_status
get_closed = refl

closed_is_final_example :
    ((get b_id (set_status b_id awaiting_admin two_tickets)).0 ≡ ok (some read_closed))
    × ((get b_id (close b_id (pos 2000) two_tickets)).0 ≡ ok (some read_closed))
closed_is_final_example =
    closed_is_final b_id b_id awaiting_admin (pos 2000) two_tickets read_closed get_closed refl

abbrev new_ticket : Ticket
new_ticket = record read_open { id = c_id }

distinct : DistinctIds two_tickets.tickets
unfolding find_ticket bytes_eq
distinct = (refl, (refl, tt))

purge_lem_example :
    ((r : TicketRow)
      → find_ticket a_id two_tickets.tickets ≡ some r
      → (IsActive two_tickets.messages (pos 950) r
          → (find_ticket a_id (purge_inactive_older_than (pos 950) two_tickets).1.tickets ≡ some r)
            × (messages_of a_id (purge_inactive_older_than (pos 950) two_tickets).1.messages
                ≡ messages_of a_id two_tickets.messages))
        × (¬ IsActive two_tickets.messages (pos 950) r
            → (find_ticket a_id (purge_inactive_older_than (pos 950) two_tickets).1.tickets ≡ none)
              × (messages_of a_id (purge_inactive_older_than (pos 950) two_tickets).1.messages
                  ≡ [])))
    × (find_ticket a_id two_tickets.tickets ≡ none
        → find_ticket a_id (purge_inactive_older_than (pos 950) two_tickets).1.tickets ≡ none)
    × ((purge_inactive_older_than (pos 950) two_tickets).0
          + length (purge_inactive_older_than (pos 950) two_tickets).1.tickets
        ≡ length two_tickets.tickets)
purge_lem_example = purge_lem (pos 950) a_id two_tickets distinct

purge_takes_the_closed : (purge_inactive_older_than (pos 950) two_tickets).1.tickets ≡ open_row ∷ []
unfolding purge_inactive_older_than keep_active last_event last_message_at bytes_eq
purge_takes_the_closed = refl

two_tickets-IsConsistent : IsConsistent two_tickets
unfolding find_ticket bytes_eq
two_tickets-IsConsistent = record {
  tickets_distinct = distinct;
  statuses = (inr (inr refl, refl), (inl (refl, λ e. ground arith), tt));
  owned = (refl, tt);
  senders = (inl refl, tt);
  ascending = (omega arith, omega arith);
  challenges_distinct = tt;
}

exec-IsConsistent_example : IsConsistent (exec (Statement.ticket_close a_id (pos 2000)) two_tickets)
exec-IsConsistent_example =
    exec-IsConsistent (Statement.ticket_close a_id (pos 2000)) two_tickets tt
      two_tickets-IsConsistent
