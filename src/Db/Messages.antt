-- ===== src/Db/Messages.antt =====
-- `MessagesRepo` of src/db/messages.h and messages.cpp.
pub mod Threads
use deltafeedback.Prelude.{
  ℕ, suc, ◌+◌, ◌%◌, ◌^◌, Bool, true, false, not, ◌&&◌, List, [], ◌∷◌, ◌++◌, Option, none, some,
  Bytes, codes, bytes_eq, is_empty, ◌==◌, if◌then◌else◌, ℤ, Result, ok, throw, Exec,
}
use deltafeedback.Db.Schema.{MessageRow, Database}
use deltafeedback.Db.Tickets.{has_ticket}

pub data Sender : Type 0 where
  visitor admin : Sender

pub record Message : Type 0 where
  pub id : ℕ
  pub ticket_id : Bytes
  pub sender : Sender
  pub body : Bytes
  pub created_at : ℤ

unfoldable pub sender_to_string : Sender → Bytes
sender_to_string visitor = codes "visitor"
sender_to_string admin = codes "admin"

unfoldable pub parse_sender : Bytes → Result Sender
parse_sender s =
    if bytes_eq s (codes "visitor")
    then ok visitor
    else if bytes_eq s (codes "admin")
    then ok admin
    else throw

abbrev pub stored_ip : Sender → Bytes → Option Bytes
stored_ip visitor ip = if is_empty ip then none else some ip
stored_ip admin ip = none

-- The row of `kMessageInsert`.
abbrev pub message_row : ℕ → Bytes → Sender → Bytes → ℤ → Bytes → Option ℕ → MessageRow
message_row row_id ticket_id sender body created_at visitor_ip dc_msg_id = record {
  id = row_id;
  ticket_id = ticket_id;
  sender = sender_to_string sender;
  body = body;
  created_at = created_at;
  visitor_ip = stored_ip sender visitor_ip;
  dc_msg_id = dc_msg_id;
}

-- The foreign key refuses a ticket that is not there.
unfoldable pub append : Bytes → Sender → Bytes → ℤ → Bytes → Option ℕ → Exec Database ℕ
append ticket_id sender body created_at visitor_ip dc_msg_id db =
    if not (has_ticket ticket_id db.tickets)
    then (throw, db)
    else let row_id = db.last_message_id + 1 in
      (
        ok row_id,
        record db {
          messages =
              db.messages
              ++ message_row row_id ticket_id sender body created_at visitor_ip dc_msg_id ∷ [];
          last_message_id = row_id;
        },
      )

-- `kMessageSetDcMsgId`.
unfoldable pub update_dc_msg_id : ℕ → ℕ → List MessageRow → List MessageRow
update_dc_msg_id row_id dc_msg_id [] = []
update_dc_msg_id row_id dc_msg_id (m ∷ ms) =
    (if m.id == row_id then record m { dc_msg_id = some dc_msg_id } else m)
    ∷ update_dc_msg_id row_id dc_msg_id ms

unfoldable pub set_dc_msg_id : ℕ → ℕ → Database → Database
set_dc_msg_id row_id dc_msg_id db = record db {
  messages = update_dc_msg_id row_id dc_msg_id db.messages;
}

abbrev cons_message : MessageRow → Result Sender → Result (List Message) → Result (List Message)
cons_message m (ok sender) (ok xs) = ok (
    record {
      id = m.id;
      ticket_id = m.ticket_id;
      sender = sender;
      body = m.body;
      created_at = m.created_at;
    }
    ∷ xs)
cons_message m _ _ = throw

-- `kMessagesByTicket`; the rows stand in the order of their ids.
unfoldable pub select_messages : Bytes → List MessageRow → Result (List Message)
select_messages ticket_id [] = ok []
select_messages ticket_id (m ∷ ms) =
    let rest = select_messages ticket_id ms in
    if bytes_eq m.ticket_id ticket_id then cons_message m (parse_sender m.sender) rest else rest

unfoldable pub list : Bytes → Exec Database (List Message)
unfolding select_messages
list ticket_id db = (select_messages ticket_id db.messages, db)

abbrev has_dc_msg_id : Option ℕ → ℕ → Bool
has_dc_msg_id none i = false
has_dc_msg_id (some j) i = j == i

-- `kFindTicketByDcMsgId`. The SQL names no order for its LIMIT 1; the index that answers it holds the
-- rows of one `dc_msg_id` in rowid order.
unfoldable pub select_ticket_of : ℕ → List MessageRow → Option Bytes
select_ticket_of i [] = none
select_ticket_of i (m ∷ ms) =
    if has_dc_msg_id m.dc_msg_id i then some m.ticket_id else select_ticket_of i ms

unfoldable pub find_ticket_by_dc_msg_id : ℕ → Database → Option Bytes
find_ticket_by_dc_msg_id i db = select_ticket_of i db.messages

-- The rows of `kLatestDcMsgIdForTicket` from the last: a later one hides an earlier one.
abbrev later_or : Option ℕ → Bool → Option ℕ → Option ℕ
later_or (some i) mine own = some i
later_or none mine own = if mine then own else none

unfoldable pub select_latest : Bytes → List MessageRow → Option ℕ
select_latest ticket_id [] = none
select_latest ticket_id (m ∷ ms) =
    later_or (select_latest ticket_id ms) (bytes_eq m.ticket_id ticket_id) m.dc_msg_id

abbrev to_u32 : Option ℕ → Option ℕ
to_u32 none = none
to_u32 (some i) = some (i % 2 ^ 32)

unfoldable pub latest_dc_msg_id_for_ticket : Bytes → Database → Option ℕ
latest_dc_msg_id_for_ticket ticket_id db = to_u32 (select_latest ticket_id db.messages)
