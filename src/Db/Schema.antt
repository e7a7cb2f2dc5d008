-- ===== src/Db/Schema.antt =====
-- `kSchema` of src/db/queries.h: the tables, and the types of src/db/tickets.h and messages.h.
use deltafeedback.Prelude.{ℕ, List, [], Option, Bytes, ℤ}

pub record StateRow : Type 0 where
  pub key : Bytes
  pub value : Bytes

pub record TicketRow : Type 0 where
  pub id : Bytes
  pub read_token_hash : Bytes
  pub name : Bytes
  pub locale : Bytes
  pub status : Bytes
  pub created_at : ℤ
  pub closed_at : Option ℤ

pub record MessageRow : Type 0 where
  pub id : ℕ
  pub ticket_id : Bytes
  pub sender : Bytes
  pub body : Bytes
  pub created_at : ℤ
  pub visitor_ip : Option Bytes
  pub dc_msg_id : Option ℕ

pub record ReplayRow : Type 0 where
  pub challenge_id : Bytes
  pub expires_at : ℤ

-- `last_message_id` is the counter of AUTOINCREMENT, which outlives the rows.
pub record Database : Type 0 where
  pub state : List StateRow
  pub tickets : List TicketRow
  pub messages : List MessageRow
  pub pow_replay : List ReplayRow
  pub last_message_id : ℕ

-- What `apply_schema` leaves in a new file.
abbrev pub empty_database : Database
empty_database = record {
  state = [];
  tickets = [];
  messages = [];
  pow_replay = [];
  last_message_id = 0;
}
