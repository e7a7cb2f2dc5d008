-- ===== src/Db/Invariant/Statements.antt =====
-- The statements that src/db and `reset_owner_in_db` of src/dc/bot.cpp send to change the tables.
use deltafeedback.Prelude.{ℕ, ◌≢◌, List, [], ◌∷◌, Option, Bytes, ℤ}
use deltafeedback.Db.Schema.{Database}
use deltafeedback.Db.State
use deltafeedback.Db.Replay.{try_consume, purge_expired}
use deltafeedback.Db.Tickets.{
  TicketStatus, Ticket, closed, insert_new, set_status, close, purge_inactive_older_than,
}
use deltafeedback.Db.Messages.{Sender, append, set_dc_msg_id}
use deltafeedback.Db.Reset.{reset_owner_in_db}

-- The statements of the program that change the tables, with what is bound to each.
pub data Statement : Type 0 where
  state_set : Bytes → Bytes → Statement
  state_erase : Bytes → Statement
  ticket_insert : Ticket → Statement
  ticket_set_status : Bytes → TicketStatus → Statement
  ticket_close : Bytes → ℤ → Statement
  ticket_purge : ℤ → Statement
  message_append : Bytes → Sender → Bytes → ℤ → Bytes → Option ℕ → Statement
  message_set_dc_msg_id : ℕ → ℕ → Statement
  replay_consume : Bytes → ℤ → Statement
  replay_purge : ℤ → Statement
  reset : Statement

abbrev pub exec : Statement → Database → Database
exec (state_set k v) db = State.set k v db
exec (state_erase k) db = State.erase k db
exec (ticket_insert t) db = (insert_new t db).1
exec (ticket_set_status id s) db = set_status id s db
exec (ticket_close id at) db = close id at db
exec (ticket_purge cutoff) db = (purge_inactive_older_than cutoff db).1
exec (message_append id s body at ip dc) db = (append id s body at ip dc db).1
exec (message_set_dc_msg_id row i) db = set_dc_msg_id row i db
exec (replay_consume id e) db = (try_consume id e db).1
exec (replay_purge now) db = (purge_expired now db).1
exec reset db = reset_owner_in_db db

abbrev pub exec_all : List Statement → Database → Database
exec_all [] db = db
exec_all (s ∷ ss) db = exec_all ss (exec s db)

-- A ticket is closed by `close` alone, never by `set_status`.
abbrev pub Allowed : Statement → Type 0
Allowed (ticket_set_status id s) = s ≢ closed
Allowed _ = Unit

-- The statements that requests and messages send; the others are maintenance.
abbrev pub Serving : Statement → Type 0
Serving (ticket_set_status id s) = s ≢ closed
Serving (state_erase k) = ⊥
Serving (ticket_purge cutoff) = ⊥
Serving (replay_purge now) = ⊥
Serving reset = ⊥
Serving _ = Unit
