-- ===== src/Db/Tickets.antt =====
-- `TicketsRepo` of src/db/tickets.h and tickets.cpp.
pub mod Rows
pub mod Status
pub mod Purge
use deltafeedback.Prelude.{
  ℕ, ◌+◌, Bool, true, false, not, ◌&&◌, List, [], ◌∷◌, ◌++◌, Option, none, some, Bytes, codes,
  bytes_eq, if◌then◌else◌, ℤ, pos, ltb_ℤ, max_ℤ, Result, ok, throw, Exec,
}
use deltafeedback.Db.Schema.{TicketRow, MessageRow, Database}

pub data TicketStatus : Type 0 where
  awaiting_admin awaiting_visitor closed : TicketStatus

pub record Ticket : Type 0 where
  pub id : Bytes
  pub read_token_hash : Bytes
  pub name : Bytes
  pub locale : Bytes
  pub status : TicketStatus
  pub created_at : ℤ
  pub closed_at : Option ℤ

pub record TicketSummary : Type 0 where
  pub id : Bytes
  pub status : TicketStatus
  pub created_at : ℤ

unfoldable pub to_string : TicketStatus → Bytes
to_string awaiting_admin = codes "awaiting_admin"
to_string awaiting_visitor = codes "awaiting_visitor"
to_string closed = codes "closed"

unfoldable pub parse_status : Bytes → Result TicketStatus
parse_status s =
    if bytes_eq s (codes "awaiting_admin")
    then ok awaiting_admin
    else if bytes_eq s (codes "awaiting_visitor")
    then ok awaiting_visitor
    else if bytes_eq s (codes "closed")
    then ok closed
    else throw

-- `kTicketGetById`, on the rows.
unfoldable pub find_ticket : Bytes → List TicketRow → Option TicketRow
find_ticket id [] = none
find_ticket id (r ∷ rs) = if bytes_eq r.id id then some r else find_ticket id rs

abbrev pub has_ticket : Bytes → List TicketRow → Bool
has_ticket id rs = elim (find_ticket id rs) [ none ↦ false | some _ ↦ true ]

-- The row of `kTicketInsert`.
abbrev pub new_row : Ticket → TicketRow
new_row t = record {
  id = t.id;
  read_token_hash = t.read_token_hash;
  name = t.name;
  locale = t.locale;
  status = codes "awaiting_admin";
  created_at = t.created_at;
  closed_at = none;
}

-- A second row with the same primary key is refused.
unfoldable pub insert_new : Ticket → Exec Database (Unit {0})
insert_new t db =
    if has_ticket t.id db.tickets
    then (throw, db)
    else (ok tt, record db { tickets = db.tickets ++ new_row t ∷ [] })

abbrev with_status : TicketRow → Result TicketStatus → Result (Option Ticket)
with_status r throw = throw
with_status r (ok status) = ok (
    some (record {
      id = r.id;
      read_token_hash = r.read_token_hash;
      name = r.name;
      locale = r.locale;
      status = status;
      created_at = r.created_at;
      closed_at = r.closed_at;
    }))

abbrev read_row : Option TicketRow → Result (Option Ticket)
read_row none = ok none
read_row (some r) = with_status r (parse_status r.status)

unfoldable pub get : Bytes → Exec Database (Option Ticket)
get id db = (read_row (find_ticket id db.tickets), db)

abbrev is_open : TicketRow → Bool
is_open r = not (bytes_eq r.status (codes "closed"))

-- `kTicketSetStatus`.
unfoldable pub update_status : Bytes → Bytes → List TicketRow → List TicketRow
update_status id status [] = []
update_status id status (r ∷ rs) =
    (if bytes_eq r.id id && is_open r then record r { status = status } else r)
    ∷ update_status id status rs

unfoldable pub set_status : Bytes → TicketStatus → Database → Database
set_status id status db = record db { tickets = update_status id (to_string status) db.tickets }

-- `kTicketClose`.
unfoldable pub update_closed : Bytes → ℤ → List TicketRow → List TicketRow
update_closed id closed_at [] = []
update_closed id closed_at (r ∷ rs) =
    (if bytes_eq r.id id && is_open r
      then record r { status = codes "closed"; closed_at = some closed_at }
      else r)
    ∷ update_closed id closed_at rs

unfoldable pub close : Bytes → ℤ → Database → Database
close id closed_at db = record db { tickets = update_closed id closed_at db.tickets }

-- The rows of `kTicketListOpen`, the newest first; SQL leaves the order of equal times open.
unfoldable pub insert_by_time : TicketRow → List TicketRow → List TicketRow
insert_by_time r [] = r ∷ []
insert_by_time r (x ∷ xs) =
    if ltb_ℤ r.created_at x.created_at then x ∷ insert_by_time r xs else r ∷ x ∷ xs

unfoldable pub open_by_time : List TicketRow → List TicketRow
open_by_time [] = []
open_by_time (r ∷ rs) = if is_open r then insert_by_time r (open_by_time rs) else open_by_time rs

abbrev cons_summary :
    TicketRow → Result TicketStatus → Result (List TicketSummary) → Result (List TicketSummary)
cons_summary r (ok status) (ok xs) =
    ok (record { id = r.id; status = status; created_at = r.created_at } ∷ xs)
cons_summary r _ _ = throw

abbrev summaries : List TicketRow → Result (List TicketSummary)
summaries [] = ok []
summaries (r ∷ rs) = cons_summary r (parse_status r.status) (summaries rs)

unfoldable pub list_open : Exec Database (List TicketSummary)
unfolding open_by_time insert_by_time
list_open db = (summaries (open_by_time db.tickets), db)

abbrev pub latest : ℤ → Option ℤ → ℤ
latest t none = t
latest t (some u) = max_ℤ t u

-- `SELECT MAX(created_at) FROM messages WHERE ticket_id = tickets.id`.
unfoldable pub last_message_at : Bytes → List MessageRow → Option ℤ
last_message_at id [] = none
last_message_at id (m ∷ ms) =
    if bytes_eq m.ticket_id id
    then some (latest m.created_at (last_message_at id ms))
    else last_message_at id ms

abbrev if_null : Option ℤ → ℤ → ℤ
if_null none d = d
if_null (some t) d = t

-- The time that `kTicketPurgeInactive` compares with the cutoff.
unfoldable pub last_event : List MessageRow → TicketRow → ℤ
last_event ms r =
    max_ℤ (if_null (last_message_at r.id ms) r.created_at) (if_null r.closed_at (pos 0))

unfoldable pub keep_active : List MessageRow → ℤ → List TicketRow → List TicketRow
keep_active ms cutoff [] = []
keep_active ms cutoff (r ∷ rs) =
    if ltb_ℤ (last_event ms r) cutoff
    then keep_active ms cutoff rs
    else r ∷ keep_active ms cutoff rs

unfoldable pub count_inactive : List MessageRow → ℤ → List TicketRow → ℕ
count_inactive ms cutoff [] = 0
count_inactive ms cutoff (r ∷ rs) =
    (if ltb_ℤ (last_event ms r) cutoff then 1 else 0) + count_inactive ms cutoff rs

-- ON DELETE CASCADE: the messages whose ticket is left.
unfoldable pub keep_owned : List TicketRow → List MessageRow → List MessageRow
keep_owned ts [] = []
keep_owned ts (m ∷ ms) =
    if has_ticket m.ticket_id ts then m ∷ keep_owned ts ms else keep_owned ts ms

unfoldable pub purge_inactive_older_than : ℤ → Database → ℕ × Database
purge_inactive_older_than cutoff db =
    let left = keep_active db.messages cutoff db.tickets in
    (
      count_inactive db.messages cutoff db.tickets,
      record db { tickets = left; messages = keep_owned left db.messages },
    )
