-- ===== src/Db/Invariant/TicketKeys.antt =====
-- Each change of the tickets keeps their keys, their states and the references to them.
use deltafeedback.Prelude.{
  ◌≡◌, ◌⊎◌, refl, inl, inr, true, List, [], ◌∷◌, ◌++◌, none, Bytes, codes, bytes_eq_iff, arith, All,
  ℤ, ltb_ℤ, Bool-cases,
}
use deltafeedback.Db.Schema.{TicketRow, MessageRow}
use deltafeedback.Db.Tickets.{
  find_ticket, has_ticket, update_status, update_closed, keep_active, last_event,
}
use deltafeedback.Db.Tickets.Rows.{
  DistinctIds, find_ticket-append, find_ticket-update_status, find_ticket-update_closed,
}
use deltafeedback.Db.Invariant.Keys.{GoodStatus, Owned}

pub DistinctIds-append :
    (rs : List TicketRow) (r : TicketRow)
    → DistinctIds rs
    → find_ticket r.id rs ≡ none
    → DistinctIds (rs ++ r ∷ [])
unfolding find_ticket
DistinctIds-append [] r d f = (refl, tt)
DistinctIds-append (x ∷ rs) r (fx, d) f = (
  ground
      (arith, find_ticket-append x.id rs (r ∷ []), bytes_eq_iff r.id x.id, bytes_eq_iff x.id r.id),
  DistinctIds-append rs r d (ground arith),
)

has_ticket-append :
    (id : Bytes) (rs ss : List TicketRow)
    → has_ticket id rs ≡ true
    → has_ticket id (rs ++ ss) ≡ true
has_ticket-append id rs ss h = ground (arith, find_ticket-append id rs ss)

pub Owned-append :
    (rs ss : List TicketRow) (ms : List MessageRow) → Owned rs ms → Owned (rs ++ ss) ms
Owned-append rs ss [] h = tt
Owned-append rs ss (m ∷ ms) (hm, h) =
    (has_ticket-append m.ticket_id rs ss hm, Owned-append rs ss ms h)

pub DistinctIds-update_status :
    (id s : Bytes) (rs : List TicketRow) → DistinctIds rs → DistinctIds (update_status id s rs)
unfolding update_status
DistinctIds-update_status id s [] d = tt
DistinctIds-update_status id s (r ∷ rs) (f, d) =
    (ground (arith, find_ticket-update_status id r.id s rs), DistinctIds-update_status id s rs d)

pub Owned-update_status :
    (id s : Bytes) (rs : List TicketRow) (ms : List MessageRow)
    → Owned rs ms
    → Owned (update_status id s rs) ms
Owned-update_status id s rs [] h = tt
Owned-update_status id s rs (m ∷ ms) (hm, h) = (
  ground (arith, find_ticket-update_status id m.ticket_id s rs),
  Owned-update_status id s rs ms h,
)

pub statuses-update_status :
    (id s : Bytes) (rs : List TicketRow)
    → (s ≡ codes "awaiting_admin") ⊎ (s ≡ codes "awaiting_visitor")
    → All GoodStatus rs
    → All GoodStatus (update_status id s rs)
unfolding update_status
statuses-update_status id s [] o h = tt
statuses-update_status id s (r ∷ rs) o (hr, h) =
    (ground (arith, bytes_eq_iff r.status (codes "closed")), statuses-update_status id s rs o h)

pub DistinctIds-update_closed :
    (id : Bytes) (at : ℤ) (rs : List TicketRow)
    → DistinctIds rs
    → DistinctIds (update_closed id at rs)
unfolding update_closed
DistinctIds-update_closed id at [] d = tt
DistinctIds-update_closed id at (r ∷ rs) (f, d) =
    (ground (arith, find_ticket-update_closed id r.id at rs), DistinctIds-update_closed id at rs d)

pub Owned-update_closed :
    (id : Bytes) (at : ℤ) (rs : List TicketRow) (ms : List MessageRow)
    → Owned rs ms
    → Owned (update_closed id at rs) ms
Owned-update_closed id at rs [] h = tt
Owned-update_closed id at rs (m ∷ ms) (hm, h) = (
  ground (arith, find_ticket-update_closed id m.ticket_id at rs),
  Owned-update_closed id at rs ms h,
)

pub statuses-update_closed :
    (id : Bytes) (at : ℤ) (rs : List TicketRow)
    → All GoodStatus rs
    → All GoodStatus (update_closed id at rs)
unfolding update_closed
statuses-update_closed id at [] h = tt
statuses-update_closed id at (r ∷ rs) (hr, h) = (ground arith, statuses-update_closed id at rs h)

find_ticket-kept_none :
    (ms : List MessageRow) (cutoff : ℤ) (id : Bytes) (rs : List TicketRow)
    → find_ticket id rs ≡ none
    → find_ticket id (keep_active ms cutoff rs) ≡ none
unfolding find_ticket keep_active
find_ticket-kept_none ms cutoff id [] h = refl
find_ticket-kept_none ms cutoff id (r ∷ rs) h =
    ground (arith, find_ticket-kept_none ms cutoff id rs)

pub DistinctIds-keep_active :
    (ms : List MessageRow) (cutoff : ℤ) (rs : List TicketRow)
    → DistinctIds rs
    → DistinctIds (keep_active ms cutoff rs)
unfolding keep_active
DistinctIds-keep_active ms cutoff [] d = tt
DistinctIds-keep_active ms cutoff (r ∷ rs) (f, d) =
    elim (Bool-cases (ltb_ℤ (last_event ms r) cutoff)) [
      | inl gone ↦ rw gone (DistinctIds-keep_active ms cutoff rs d)
      | inr stays ↦
          rw stays
            (find_ticket-kept_none ms cutoff r.id rs f, DistinctIds-keep_active ms cutoff rs d)
    ]

pub statuses-keep_active :
    (ms : List MessageRow) (cutoff : ℤ) (rs : List TicketRow)
    → All GoodStatus rs
    → All GoodStatus (keep_active ms cutoff rs)
unfolding keep_active
statuses-keep_active ms cutoff [] d = tt
statuses-keep_active ms cutoff (r ∷ rs) (g, d) =
    elim (Bool-cases (ltb_ℤ (last_event ms r) cutoff)) [
      | inl gone ↦ rw gone (statuses-keep_active ms cutoff rs d)
      | inr stays ↦ rw stays (g, statuses-keep_active ms cutoff rs d)
    ]
