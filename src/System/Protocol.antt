-- ===== src/System/Protocol.antt =====
-- The conversation that src/db keeps for each ticket, with nothing of how it is stored: what one
-- ticket's life allows. It is the specification of src/feedback/service.cpp and src/dc/bot.cpp together.
pub mod Turns
pub mod Threads
pub mod Changes
pub mod Handled
pub mod Refines
use deltafeedback.Prelude.{◌≡◌, ◌≢◌, List, [], ◌∷◌, ◌++◌, Option, none, some, Bytes, ℤ, Result}
use deltafeedback.Db.Schema.{Database}
use deltafeedback.Db.Tickets.{TicketStatus, awaiting_admin, awaiting_visitor, closed, Ticket, get}
use deltafeedback.Db.Messages.{Sender, visitor, admin, Message, list}

pub record Conversation : Type 0 where
  pub ticket : Ticket
  pub thread : List Message

-- Who speaks gives the turn to the other side.
abbrev pub turn_after : Sender → TicketStatus
turn_after visitor = awaiting_admin
turn_after admin = awaiting_visitor

-- The visitor speaks only when it is the visitor's turn; nobody speaks in a closed conversation.
abbrev pub MaySpeak : Sender → TicketStatus → Type 0
MaySpeak visitor status = status ≡ awaiting_visitor
MaySpeak admin status = status ≢ closed

abbrev pub spoken : Conversation → Message → Conversation
spoken c m = record {
  ticket = record c.ticket { status = turn_after m.sender };
  thread = c.thread ++ m ∷ [];
}

abbrev pub ended : Conversation → ℤ → Conversation
ended c at = record c { ticket = record c.ticket { status = closed; closed_at = some at } }

-- One step of a conversation; `none` where there is none.
pub data Moves : Option Conversation → Option Conversation → Type 0 where
  stays : {o : Option Conversation} → Moves o o
  opens :
      (t : Ticket) (m : Message)
      → t.status ≡ awaiting_admin
      → t.closed_at ≡ none
      → m.sender ≡ visitor
      → Moves none (some (record { ticket = t; thread = m ∷ [] }))
  speaks :
      (c : Conversation) (m : Message)
      → MaySpeak m.sender c.ticket.status
      → Moves (some c) (some (spoken c m))
  ends : (c : Conversation) (at : ℤ) → c.ticket.status ≢ closed → Moves (some c) (some (ended c at))
  is_forgotten : (c : Conversation) → Moves (some c) none

-- What the tables hold of a ticket, as the repositories read it.
abbrev pub Shows : Bytes → Database → Option Conversation → Type 0
Shows id db none = ((get id db).0 ≡ Result.ok none) × ((list id db).0 ≡ Result.ok [])
Shows id db (some c) =
    ((get id db).0 ≡ Result.ok (some c.ticket)) × ((list id db).0 ≡ Result.ok c.thread)

-- The conversations that steps lead to from none.
pub data Possible : Option Conversation → Type 0 where
  start : Possible none
  move : {o p : Option Conversation} → Possible o → Moves o p → Possible p
