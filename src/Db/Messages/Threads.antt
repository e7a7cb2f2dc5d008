-- ===== src/Db/Messages/Threads.antt =====
-- How a reply finds its ticket: the notification ids that the messages carry.
use deltafeedback.Prelude.{
  ℕ, ◌+◌, ◌^◌, ◌≤◌, ◌<◌, ◌≡◌, ◌≢◌, refl, sym, ap, true, List, [], ◌∷◌, ◌++◌, Option, none, some,
  Bytes, bytes_eq_iff, arith, All, ℤ, ok,
}
use native.Mathlib.Nat.{mod-eq_of_lt}
use deltafeedback.Db.Schema.{MessageRow, Database}
use deltafeedback.Db.Tickets.{has_ticket}
use deltafeedback.Db.Messages.{
  Sender, append, message_row, set_dc_msg_id, update_dc_msg_id, select_ticket_of,
  find_ticket_by_dc_msg_id, select_latest, latest_dc_msg_id_for_ticket, to_u32,
}

-- The ids of the rows, and no notification carries the id `i`.
abbrev pub IdsBelow : ℕ → List MessageRow → Type 0
IdsBelow n = All (λ m. m.id ≤ n)

abbrev pub NotSent : ℕ → List MessageRow → Type 0
NotSent i = All (λ m. m.dc_msg_id ≢ some i)

pub update-last :
    (n k i : ℕ) (ms : List MessageRow) (m : MessageRow)
    → IdsBelow n ms
    → n < k
    → m.id ≡ k
    → update_dc_msg_id k i (ms ++ m ∷ []) ≡ ms ++ record m { dc_msg_id = some i } ∷ []
unfolding update_dc_msg_id
update-last n k i [] m h lt e = ground arith
update-last n k i (x ∷ ms) m (hx, h) lt e = ground (arith, update-last n k i ms m h lt e)

pub select_ticket_of-last :
    (i : ℕ) (ms : List MessageRow) (m : MessageRow)
    → NotSent i ms
    → m.dc_msg_id ≡ some i
    → select_ticket_of i (ms ++ m ∷ []) ≡ some m.ticket_id
unfolding select_ticket_of
select_ticket_of-last i [] m h e = ground arith
select_ticket_of-last i (x ∷ ms) m (hx, h) e = ground (arith, select_ticket_of-last i ms m h e)

select_latest-last :
    (id : Bytes) (i : ℕ) (ms : List MessageRow) (m : MessageRow)
    → m.ticket_id ≡ id
    → m.dc_msg_id ≡ some i
    → select_latest id (ms ++ m ∷ []) ≡ some i
unfolding select_latest
select_latest-last id i [] m t e = ground (arith, bytes_eq_iff m.ticket_id id)
select_latest-last id i (x ∷ ms) m t e = ground (arith, select_latest-last id i ms m t e)

select_latest-other :
    (id : Bytes) (ms : List MessageRow) (m : MessageRow)
    → m.ticket_id ≢ id
    → select_latest id (ms ++ m ∷ []) ≡ select_latest id ms
unfolding select_latest
select_latest-other id [] m t = ground (arith, bytes_eq_iff m.ticket_id id)
select_latest-other id (x ∷ ms) m t = ground (arith, select_latest-other id ms m t)

-- A message is stored where its ticket is.
pub append_owned :
    (id body ip : Bytes) (sender : Sender) (at : ℤ) (dc : Option ℕ) (db : Database)
    → has_ticket id db.tickets ≡ true
    → append id sender body at ip dc db ≡ (
      ok (db.last_message_id + 1),
      record db {
        messages = db.messages ++ message_row (db.last_message_id + 1) id sender body at ip dc ∷ [];
        last_message_id = db.last_message_id + 1;
      },
    )
unfolding append
append_owned id body ip sender at dc db here = rw here

-- A message is appended and then marked with the id `i` of its notification, which no message carried
-- before: a reply that quotes `i` is routed to the ticket, the next notification of the ticket quotes
-- `i`, and what other tickets quote stays.
pub notified :
    (id j body ip : Bytes) (sender : Sender) (at : ℤ) (i : ℕ) (db : Database)
    → has_ticket id db.tickets ≡ true
    → IdsBelow db.last_message_id db.messages
    → NotSent i db.messages
    → i < 2 ^ 32
    → let (r, stored) = append id sender body at ip none db in
      let marked = set_dc_msg_id stored.last_message_id i stored in
      (r ≡ ok stored.last_message_id)
      × (find_ticket_by_dc_msg_id i marked ≡ some id)
      × (latest_dc_msg_id_for_ticket id marked ≡ some i)
      × (j ≢ id → latest_dc_msg_id_for_ticket j marked ≡ latest_dc_msg_id_for_ticket j db)
unfolding set_dc_msg_id find_ticket_by_dc_msg_id latest_dc_msg_id_for_ticket
notified id j body ip sender at i db here below new small =
    let n = db.last_message_id + 1 in
    let m = message_row n id sender body at ip none in
    rw (append_owned id body ip sender at none db here) (
      rw (update-last db.last_message_id n i db.messages m below (omega arith) refl) (
        refl,
        select_ticket_of-last i db.messages _ new refl,
        rw (select_latest-last id i db.messages (record m { dc_msg_id = some i }) refl refl)
            (ap some (mod-eq_of_lt small)),
        λ ne. ap to_u32 (select_latest-other j db.messages _ (λ e. ne (sym e))),
      ))
