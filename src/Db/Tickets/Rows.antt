-- ===== src/Db/Tickets/Rows.antt =====
-- Looking a ticket up after each change of the table.
use deltafeedback.Prelude.{
  ◌≡◌, refl, ◌&&◌, List, [], ◌∷◌, ◌++◌, Option, none, some, Bytes, codes, bytes_eq, bytes_eq_iff,
  if◌then◌else◌, arith, ℤ, ltb_ℤ,
}
use deltafeedback.Db.Schema.{TicketRow, MessageRow}
use deltafeedback.Db.Tickets.{
  find_ticket, is_open, update_status, update_closed, last_event, keep_active,
}

abbrev pub or_else : Option TicketRow → Option TicketRow → Option TicketRow
or_else none o = o
or_else (some r) o = some r

abbrev pub map_row : (TicketRow → TicketRow) → Option TicketRow → Option TicketRow
map_row f none = none
map_row f (some r) = some (f r)

pub find_ticket-append :
    (id : Bytes) (rs ss : List TicketRow)
    → find_ticket id (rs ++ ss) ≡ or_else (find_ticket id rs) (find_ticket id ss)
unfolding find_ticket
find_ticket-append id [] ss = refl
find_ticket-append id (r ∷ rs) ss = ground (arith, find_ticket-append id rs ss)

-- The row that is found has the id that was asked for.
pub find_ticket_id :
    (id : Bytes) (rs : List TicketRow) (r : TicketRow) → find_ticket id rs ≡ some r → r.id ≡ id
unfolding find_ticket
find_ticket_id id [] r e = absurd (ground arith)
find_ticket_id id (x ∷ rs) r e = ground (arith, bytes_eq_iff x.id id, find_ticket_id id rs r)

abbrev pub restatus : Bytes → Bytes → TicketRow → TicketRow
restatus id status r = if bytes_eq r.id id && is_open r then record r { status = status } else r

abbrev pub reclose : Bytes → ℤ → TicketRow → TicketRow
reclose id at r =
    if bytes_eq r.id id && is_open r
    then record r { status = codes "closed"; closed_at = some at }
    else r

pub find_ticket-update_status :
    (id j status : Bytes) (rs : List TicketRow)
    → find_ticket j (update_status id status rs) ≡ map_row (restatus id status) (find_ticket j rs)
unfolding find_ticket update_status
find_ticket-update_status id j status [] = refl
find_ticket-update_status id j status (r ∷ rs) =
    ground (arith, find_ticket-update_status id j status rs)

pub find_ticket-update_closed :
    (id j : Bytes) (at : ℤ) (rs : List TicketRow)
    → find_ticket j (update_closed id at rs) ≡ map_row (reclose id at) (find_ticket j rs)
unfolding find_ticket update_closed
find_ticket-update_closed id j at [] = refl
find_ticket-update_closed id j at (r ∷ rs) = ground (arith, find_ticket-update_closed id j at rs)

-- The primary key: no two rows share an id.
abbrev pub DistinctIds : List TicketRow → Type 0
DistinctIds [] = Unit
DistinctIds (r ∷ rs) = (find_ticket r.id rs ≡ none) × DistinctIds rs

abbrev pub unless_before : List MessageRow → ℤ → Option TicketRow → Option TicketRow
unless_before ms cutoff none = none
unless_before ms cutoff (some r) = if ltb_ℤ (last_event ms r) cutoff then none else some r

pub find_ticket-keep_active :
    (ms : List MessageRow) (cutoff : ℤ) (j : Bytes) (rs : List TicketRow)
    → DistinctIds rs
    → find_ticket j (keep_active ms cutoff rs) ≡ unless_before ms cutoff (find_ticket j rs)
unfolding find_ticket keep_active
find_ticket-keep_active ms cutoff j [] h = refl
find_ticket-keep_active ms cutoff j (r ∷ rs) (fresh, h) =
    ground (arith, find_ticket-keep_active ms cutoff j rs h, bytes_eq_iff r.id j)
