-- ===== src/Db/Tickets/Status.antt =====
-- The life of a ticket in the table: created awaiting the admin, moved between the two open states,
-- and closed for good.
use deltafeedback.Prelude.{
  ◌≡◌, ◌≢◌, refl, sym, ◌∙◌, ap, Bool, true, false, ◌&&◌, List, [], ◌∷◌, ◌++◌, Option, none, some,
  Bytes, codes, bytes_eq, bytes_eq_iff, bytes_eq_refl, if◌then◌else◌, arith, ℤ, pos, Result, ok,
  throw,
}
use deltafeedback.Db.Schema.{TicketRow, Database}
use deltafeedback.Db.Tickets.{
  TicketStatus, Ticket, new_row, awaiting_admin, awaiting_visitor, closed, to_string, parse_status,
  find_ticket, insert_new, get, is_open, set_status, close, read_row, has_ticket,
}
use deltafeedback.Db.Tickets.Rows.{
  find_ticket-append, find_ticket-update_status, find_ticket-update_closed, find_ticket_id,
}

-- The status text of each state is read back as that state.
pub parse_status-to_string : (s : TicketStatus) → parse_status (to_string s) ≡ ok s
unfolding parse_status to_string bytes_eq
parse_status-to_string awaiting_admin = refl
parse_status-to_string _ = refl

-- Only the text of a state is read as that state.
parse_status_text :
    (s : Bytes) (status : TicketStatus) → parse_status s ≡ ok status → s ≡ to_string status
unfolding parse_status to_string
parse_status_text s awaiting_admin e = ground (
  arith,
  bytes_eq_iff s (codes "awaiting_admin"),
  bytes_eq_iff s (codes "awaiting_visitor"),
  bytes_eq_iff s (codes "closed"),
)
parse_status_text s _ e = ground (
  arith,
  bytes_eq_iff s (codes "awaiting_admin"),
  bytes_eq_iff s (codes "awaiting_visitor"),
  bytes_eq_iff s (codes "closed"),
)

-- What `get` makes of a row in a given state.
abbrev pub ticket_of : TicketRow → TicketStatus → Ticket
ticket_of r status = record {
  id = r.id;
  read_token_hash = r.read_token_hash;
  name = r.name;
  locale = r.locale;
  status = status;
  created_at = r.created_at;
  closed_at = r.closed_at;
}

pub get_found :
    (id : Bytes) (db : Database) (r : TicketRow) (status : TicketStatus)
    → find_ticket id db.tickets ≡ some r
    → r.status ≡ to_string status
    → get id db ≡ (ok (some (ticket_of r status)), db)
unfolding get
get_found id db r status found is = rw (found, is, parse_status-to_string status)

abbrev pub fresh : Ticket → Ticket
fresh t = record t { status = awaiting_admin; closed_at = none }

-- The rows after a new one, whose id is free.
pub insert_new_free :
    (t : Ticket) (db : Database)
    → find_ticket t.id db.tickets ≡ none
    → insert_new t db ≡ (ok tt, record db { tickets = db.tickets ++ new_row t ∷ [] })
unfolding insert_new
insert_new_free t db absent = ground arith

pub find_ticket-new_row :
    (t : Ticket) (rs : List TicketRow)
    → find_ticket t.id rs ≡ none
    → find_ticket t.id (rs ++ new_row t ∷ []) ≡ some (new_row t)
find_ticket-new_row t rs absent =
    rw (find_ticket-append, absent) (unfold find_ticket in rw bytes_eq_refl)

pub has_ticket-new_row :
    (t : Ticket) (rs : List TicketRow)
    → find_ticket t.id rs ≡ none
    → has_ticket t.id (rs ++ new_row t ∷ []) ≡ true
has_ticket-new_row t rs absent = ground (arith, find_ticket-new_row t rs absent)

pub insert_new_taken :
    (t : Ticket) (db : Database) (row : TicketRow)
    → find_ticket t.id db.tickets ≡ some row
    → insert_new t db ≡ (throw, db)
unfolding insert_new
insert_new_taken t db row taken = ground arith

pub find_ticket-new_row_ne :
    (t : Ticket) (j : Bytes) (rs : List TicketRow)
    → j ≢ t.id
    → find_ticket j (rs ++ new_row t ∷ []) ≡ find_ticket j rs
find_ticket-new_row_ne t j rs ne =
    rw find_ticket-append (unfold find_ticket in ground (arith, bytes_eq_iff t.id j))

-- A ticket that was inserted is read back awaiting the admin and not closed, whatever the status of
-- the argument; tickets with other ids are read as before. A taken id is refused, and changes nothing.
pub get-insert_new :
    (t : Ticket) (j : Bytes) (db : Database)
    → let (r, db') = insert_new t db in
      (find_ticket t.id db.tickets ≡ none
        → (r ≡ ok tt)
          × (get t.id db' ≡ (ok (some (fresh t)), db'))
          × (j ≢ t.id → (get j db').0 ≡ (get j db).0))
      × (find_ticket t.id db.tickets ≢ none → (r ≡ throw) × (db' ≡ db))
get-insert_new t j db = (
  (λ absent. rw (insert_new_free t db absent) (
    refl,
    get_found t.id _ (new_row t) awaiting_admin (find_ticket-new_row t db.tickets absent)
        (unfold to_string in refl),
    λ ne. unfold get in rw (find_ticket-new_row_ne t j db.tickets ne),
  )),
  (λ taken. unfold insert_new in ground arith),
)

-- A change of the status of `id` to `status`, or its closing at `at`, in the table.
pub find_after_change :
    (id j : Bytes) (status : TicketStatus) (at : ℤ) (db : Database) (r : TicketRow)
    → find_ticket j db.tickets ≡ some r
    → let open_here : Bool = bytes_eq j id && is_open r in
      (find_ticket j (set_status id status db).tickets
        ≡ some (if open_here then record r { status = to_string status } else r))
      × (find_ticket j (close id at db).tickets
          ≡ some
              (if open_here then record r { status = codes "closed"; closed_at = some at } else r))
unfolding set_status close
find_after_change id j status at db r found =
    let same = find_ticket_id j db.tickets r found in
    (rw (find_ticket-update_status, found, ← same), rw (find_ticket-update_closed, found, ← same))

-- The row behind a ticket that `get` returned.
pub get-row :
    (j : Bytes) (db : Database) (t : Ticket)
    → (get j db).0 ≡ ok (some t)
    → (r : TicketRow) × (find_ticket j db.tickets ≡ some r)
      × (r.status ≡ to_string t.status)
      × (t ≡ ticket_of r t.status)
unfolding get
get-row j db t e = row (find_ticket j db.tickets) refl e
  where
    row :
        (o : Option TicketRow)
        → find_ticket j db.tickets ≡ o
        → read_row o ≡ ok (some t)
        → (r : TicketRow) × (find_ticket j db.tickets ≡ some r)
          × (r.status ≡ to_string t.status)
          × (t ≡ ticket_of r t.status)
    row none f e = absurd (ground arith)
    row (some r) f e = (r, f, parse_status_text r.status t.status (ground arith), ground arith)

pub get-same :
    (j : Bytes) (db db' : Database)
    → find_ticket j db.tickets ≡ find_ticket j db'.tickets
    → (get j db).0 ≡ (get j db').0
unfolding get
get-same j db db' e = ap read_row e

open_row :
    (r : TicketRow) (status : TicketStatus)
    → r.status ≡ to_string status
    → status ≢ closed
    → is_open r ≡ true
unfolding to_string
open_row r awaiting_admin is ne = rw is (unfold bytes_eq in refl)
open_row r awaiting_visitor is ne = rw is (unfold bytes_eq in refl)
open_row r closed is ne = absurd (ne refl)

-- A closed ticket is read the same after any change of a status and after any closing, of its own id
-- or another's: no operation opens it again or moves its time of closing.
pub closed_is_final :
    (id j : Bytes) (status : TicketStatus) (at : ℤ) (db : Database) (t : Ticket)
    → (get j db).0 ≡ ok (some t)
    → t.status ≡ closed
    → ((get j (set_status id status db)).0 ≡ ok (some t))
      × ((get j (close id at db)).0 ≡ ok (some t))
closed_is_final id j status at db t e c =
    let (r, found, is, same) = get-row j db t e in
    let text : r.status ≡ codes "closed" = unfold to_string in ground arith in
    let shut : is_open r ≡ false = ground (arith, bytes_eq_iff r.status (codes "closed")) in
    let (s, k) = find_after_change id j status at db r found in
    (get-same j _ db (ground (arith, s)) ∙ e, get-same j _ db (ground (arith, k)) ∙ e)

abbrev at_status : TicketStatus → Ticket → Result (Option Ticket)
at_status status t = ok (some (record t { status = status }))

abbrev read_result : Result (Option Ticket) × Database → Result (Option Ticket)
read_result x = x.0

-- A ticket that is not closed is read with the new status after `set_status`, and otherwise the same.
pub get-set_status :
    (id : Bytes) (status : TicketStatus) (db : Database) (t : Ticket)
    → (get id db).0 ≡ ok (some t)
    → t.status ≢ closed
    → (get id (set_status id status db)).0 ≡ ok (some (record t { status = status }))
get-set_status id status db t e open_now =
    let (r, found, is, same) = get-row id db t e in
    let opened : is_open r ≡ true = open_row r t.status is open_now in
    let moved = (find_after_change id id status (pos 0) db r found).0 in
    let moved_to : find_ticket id (set_status id status db).tickets
        ≡ some (record r { status = to_string status }) =
      moved ∙ rw bytes_eq_refl (rw opened refl) in
    ap read_result (
      get_found id (set_status id status db) (record r { status = to_string status }) status
        moved_to refl)
    ∙ ap (at_status status) (sym same)

abbrev closed_at_time : ℤ → Ticket → Result (Option Ticket)
closed_at_time at t = ok (some (record t { status = closed; closed_at = some at }))

-- A ticket that is not closed is read as closed at that time after `close`.
pub get-close :
    (id : Bytes) (at : ℤ) (db : Database) (t : Ticket)
    → (get id db).0 ≡ ok (some t)
    → t.status ≢ closed
    → (get id (close id at db)).0 ≡ ok (some (record t { status = closed; closed_at = some at }))
get-close id at db t e open_now =
    let (r, found, is, same) = get-row id db t e in
    let opened : is_open r ≡ true = open_row r t.status is open_now in
    let shut : TicketRow = record r { status = codes "closed"; closed_at = some at } in
    let moved_to : find_ticket id (close id at db).tickets ≡ some shut =
      (find_after_change id id closed at db r found).1 ∙ rw bytes_eq_refl (rw opened refl) in
    ap read_result (get_found id (close id at db) shut closed moved_to (unfold to_string in refl))
    ∙ ap (closed_at_time at) (sym same)

-- A ticket that is read has a row.
pub get-has_ticket :
    (id : Bytes) (db : Database) (t : Ticket)
    → (get id db).0 ≡ ok (some t)
    → has_ticket id db.tickets ≡ true
get-has_ticket id db t e = let (r, found, is, same) = get-row id db t e in ground arith
