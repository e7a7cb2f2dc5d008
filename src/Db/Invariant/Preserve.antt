-- ===== src/Db/Invariant/Preserve.antt =====
-- Every statement keeps the tables consistent.
use deltafeedback.Prelude.{
  ℕ, ◌+◌, ◌≡◌, ◌≢◌, ◌⊎◌, refl, inl, inr, List, [], ◌∷◌, Option, Bytes, codes, arith, All,
  All-append, ℤ, Bool-cases,
}
use deltafeedback.Db.Schema.{StateRow, Database}
use deltafeedback.Db.State
use deltafeedback.Db.Replay.{has_challenge, try_consume, purge_expired}
use deltafeedback.Db.Tickets.{
  TicketStatus, Ticket, closed, awaiting_admin, awaiting_visitor, new_row, to_string, has_ticket,
  insert_new, set_status, close, purge_inactive_older_than,
}
use deltafeedback.Db.Messages.{
  Sender, visitor, admin, append, set_dc_msg_id, message_row, sender_to_string,
}
use deltafeedback.Db.Reset.{reset_owner_in_db}
use deltafeedback.Db.Invariant.Statements.{
  Statement, state_set, state_erase, ticket_insert, ticket_set_status, ticket_close, ticket_purge,
  message_append, message_set_dc_msg_id, replay_consume, replay_purge, reset, exec, exec_all,
  Allowed,
}
use deltafeedback.Db.Invariant.Keys.{GoodStatus, KnownSender, IsConsistent}
use deltafeedback.Db.Invariant.TicketKeys.{
  DistinctIds-append, Owned-append, DistinctIds-update_status, Owned-update_status,
  statuses-update_status, DistinctIds-update_closed, Owned-update_closed, statuses-update_closed,
  DistinctIds-keep_active, statuses-keep_active,
}
use deltafeedback.Db.Invariant.MessageKeys.{
  Owned-keep_owned, senders-keep_owned, Ascending-keep_owned, Ascending-append, Owned-last,
  Owned-update, senders-update, Ascending-update, DistinctChallenges-append,
  DistinctChallenges-keep,
}

insert_new-IsConsistent :
    (t : Ticket) (db : Database) → IsConsistent db → IsConsistent (insert_new t db).1
unfolding insert_new
insert_new-IsConsistent t db v = elim (Bool-cases (has_ticket t.id db.tickets)) [
  | inl taken ↦ rw (taken, insert_new) v
  | inr free ↦
      rw (free, insert_new)
        (record {
          tickets_distinct =
              DistinctIds-append db.tickets (new_row t) v.tickets_distinct (ground arith);
          statuses = All-append GoodStatus db.tickets _ v.statuses (inr (inl refl, refl), tt);
          owned = Owned-append db.tickets _ db.messages v.owned;
          senders = v.senders;
          ascending = v.ascending;
          challenges_distinct = v.challenges_distinct;
        })
]

set_status-IsConsistent :
    (id : Bytes) (s : TicketStatus) (db : Database)
    → s ≢ closed
    → IsConsistent db
    → IsConsistent (set_status id s db)
unfolding set_status
set_status-IsConsistent id s db ne v = record {
  tickets_distinct = DistinctIds-update_status id (to_string s) db.tickets v.tickets_distinct;
  statuses = statuses-update_status id (to_string s) db.tickets (text s ne) v.statuses;
  owned = Owned-update_status id (to_string s) db.tickets db.messages v.owned;
  senders = v.senders;
  ascending = v.ascending;
  challenges_distinct = v.challenges_distinct;
}
  where
    text :
        (s : TicketStatus)
        → s ≢ closed
        → (to_string s ≡ codes "awaiting_admin") ⊎ (to_string s ≡ codes "awaiting_visitor")
    text awaiting_admin ne = inl (unfold to_string in refl)
    text awaiting_visitor ne = inr (unfold to_string in refl)
    text closed ne = absurd (ne refl)

close-IsConsistent :
    (id : Bytes) (at : ℤ) (db : Database) → IsConsistent db → IsConsistent (close id at db)
unfolding close
close-IsConsistent id at db v = record {
  tickets_distinct = DistinctIds-update_closed id at db.tickets v.tickets_distinct;
  statuses = statuses-update_closed id at db.tickets v.statuses;
  owned = Owned-update_closed id at db.tickets db.messages v.owned;
  senders = v.senders;
  ascending = v.ascending;
  challenges_distinct = v.challenges_distinct;
}

purge-IsConsistent :
    (cutoff : ℤ) (db : Database)
    → IsConsistent db
    → IsConsistent (purge_inactive_older_than cutoff db).1
unfolding purge_inactive_older_than
purge-IsConsistent cutoff db v = record {
  tickets_distinct = DistinctIds-keep_active db.messages cutoff db.tickets v.tickets_distinct;
  statuses = statuses-keep_active db.messages cutoff db.tickets v.statuses;
  owned = Owned-keep_owned _ db.messages;
  senders = senders-keep_owned _ db.messages v.senders;
  ascending = Ascending-keep_owned _ 0 db.last_message_id db.messages v.ascending;
  challenges_distinct = v.challenges_distinct;
}

append-IsConsistent :
    (id : Bytes) (s : Sender) (body : Bytes) (at : ℤ) (ip : Bytes) (dc : Option ℕ) (db : Database)
    → IsConsistent db
    → IsConsistent (append id s body at ip dc db).1
unfolding append
append-IsConsistent id s body at ip dc db v = elim (Bool-cases (has_ticket id db.tickets)) [
  | inl here ↦
      rw (here, append)
        (record {
          tickets_distinct = v.tickets_distinct;
          statuses = v.statuses;
          owned = Owned-last db.tickets db.messages _ v.owned here;
          senders = All-append KnownSender db.messages _ v.senders (known s, tt);
          ascending =
              Ascending-append 0 db.last_message_id db.messages
                (message_row (db.last_message_id + 1) id s body at ip dc) v.ascending (omega arith);
          challenges_distinct = v.challenges_distinct;
        })
  | inr missing ↦ rw (missing, append) v
]
  where
    known :
        (s : Sender) → (sender_to_string s ≡ codes "visitor") ⊎ (sender_to_string s ≡ codes "admin")
    known visitor = inl (unfold sender_to_string in refl)
    known admin = inr (unfold sender_to_string in refl)

set_dc_msg_id-IsConsistent :
    (row i : ℕ) (db : Database) → IsConsistent db → IsConsistent (set_dc_msg_id row i db)
unfolding set_dc_msg_id
set_dc_msg_id-IsConsistent row i db v = record {
  tickets_distinct = v.tickets_distinct;
  statuses = v.statuses;
  owned = Owned-update db.tickets row i db.messages v.owned;
  senders = senders-update row i db.messages v.senders;
  ascending = Ascending-update row i 0 db.last_message_id db.messages v.ascending;
  challenges_distinct = v.challenges_distinct;
}

try_consume-IsConsistent :
    (id : Bytes) (e : ℤ) (db : Database) → IsConsistent db → IsConsistent (try_consume id e db).1
unfolding try_consume
try_consume-IsConsistent id e db v = elim (Bool-cases (has_challenge id db.pow_replay)) [
  | inl old ↦ rw (old, try_consume) v
  | inr new ↦
      rw (new, try_consume)
        (record {
          tickets_distinct = v.tickets_distinct;
          statuses = v.statuses;
          owned = v.owned;
          senders = v.senders;
          ascending = v.ascending;
          challenges_distinct = DistinctChallenges-append db.pow_replay _ v.challenges_distinct new;
        })
]

purge_expired-IsConsistent :
    (now : ℤ) (db : Database) → IsConsistent db → IsConsistent (purge_expired now db).1
unfolding purge_expired
purge_expired-IsConsistent now db v = record {
  tickets_distinct = v.tickets_distinct;
  statuses = v.statuses;
  owned = v.owned;
  senders = v.senders;
  ascending = v.ascending;
  challenges_distinct = DistinctChallenges-keep now db.pow_replay v.challenges_distinct;
}

-- The keys and values of `state` are free.
with_state :
    (rs : List StateRow) (db : Database) → IsConsistent db → IsConsistent (record db { state = rs })
with_state rs db v = record {
  tickets_distinct = v.tickets_distinct;
  statuses = v.statuses;
  owned = v.owned;
  senders = v.senders;
  ascending = v.ascending;
  challenges_distinct = v.challenges_distinct;
}

reset-IsConsistent : (db : Database) → IsConsistent (reset_owner_in_db db)
unfolding reset_owner_in_db
reset-IsConsistent db = record {
  tickets_distinct = tt;
  statuses = tt;
  owned = tt;
  senders = tt;
  ascending = omega arith;
  challenges_distinct = tt;
}

-- Every statement that the program sends keeps the tables consistent: ids and challenges are
-- distinct, a ticket has a time of closing exactly when it is closed, every message belongs to a
-- ticket, its sender is known, and message ids grow.
pub exec-IsConsistent :
    (s : Statement) (db : Database) → Allowed s → IsConsistent db → IsConsistent (exec s db)
exec-IsConsistent (state_set k v) db a i = unfold State.set in with_state _ db i
exec-IsConsistent (state_erase k) db a i = unfold State.erase in with_state _ db i
exec-IsConsistent (ticket_insert t) db a i = insert_new-IsConsistent t db i
exec-IsConsistent (ticket_set_status id s) db a i = set_status-IsConsistent id s db a i
exec-IsConsistent (ticket_close id at) db a i = close-IsConsistent id at db i
exec-IsConsistent (ticket_purge cutoff) db a i = purge-IsConsistent cutoff db i
exec-IsConsistent (message_append id s body at ip dc) db a i =
    append-IsConsistent id s body at ip dc db i
exec-IsConsistent (message_set_dc_msg_id row k) db a i = set_dc_msg_id-IsConsistent row k db i
exec-IsConsistent (replay_consume id e) db a i = try_consume-IsConsistent id e db i
exec-IsConsistent (replay_purge now) db a i = purge_expired-IsConsistent now db i
exec-IsConsistent reset db a i = reset-IsConsistent db

-- A consistent database is consistent after any sequence of the program's statements.
pub exec_all-IsConsistent :
    (ss : List Statement) (db : Database)
    → All Allowed ss
    → IsConsistent db
    → IsConsistent (exec_all ss db)
exec_all-IsConsistent [] db a i = i
exec_all-IsConsistent (s ∷ ss) db (h, a) i =
    exec_all-IsConsistent ss (exec s db) a (exec-IsConsistent s db h i)
