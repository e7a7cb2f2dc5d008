-- ===== src/Db/Invariant/Keys.antt =====
-- The keys, references and encodings of the tables, and the lemmas about each.
use deltafeedback.Prelude.{ℕ, ◌≤◌, ◌<◌, ◌≡◌, ◌≢◌, ◌⊎◌, true, false, List, [], ◌∷◌, none, codes, All}
use deltafeedback.Db.Schema.{TicketRow, MessageRow, ReplayRow, Database}
use deltafeedback.Db.Replay.{has_challenge}
use deltafeedback.Db.Tickets.{has_ticket}
use deltafeedback.Db.Tickets.Rows.{DistinctIds}

-- The status is one of the three texts, and a ticket has a time of closing exactly when it is closed.
abbrev pub GoodStatus : TicketRow → Type 0
GoodStatus r =
    ((r.status ≡ codes "closed") × (r.closed_at ≢ none))
    ⊎ (((r.status ≡ codes "awaiting_admin") ⊎ (r.status ≡ codes "awaiting_visitor"))
        × (r.closed_at ≡ none))

abbrev pub KnownSender : MessageRow → Type 0
KnownSender m = (m.sender ≡ codes "visitor") ⊎ (m.sender ≡ codes "admin")

-- The ids grow from `lo` on, and none is above `hi`.
abbrev pub Ascending : ℕ → List MessageRow → ℕ → Type 0
Ascending lo [] hi = lo ≤ hi
Ascending lo (m ∷ ms) hi = (lo < m.id) × Ascending m.id ms hi

abbrev pub DistinctChallenges : List ReplayRow → Type 0
DistinctChallenges [] = Unit
DistinctChallenges (r ∷ rs) = (has_challenge r.challenge_id rs ≡ false) × DistinctChallenges rs

abbrev pub Owned : List TicketRow → List MessageRow → Type 0
Owned ts = All (λ m. has_ticket m.ticket_id ts ≡ true)

pub record IsConsistent (db : Database) : Type 0 where
  pub tickets_distinct : DistinctIds db.tickets
  pub statuses : All GoodStatus db.tickets
  pub owned : Owned db.tickets db.messages
  pub senders : All KnownSender db.messages
  pub ascending : Ascending 0 db.messages db.last_message_id
  pub challenges_distinct : DistinctChallenges db.pow_replay
