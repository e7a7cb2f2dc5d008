-- ===== src/System/Protocol/Refines.antt =====
-- The program of src/main.cpp runs, for each ticket id, the conversations of the specification.
use deltafeedback.Prelude.{
  ◌≡◌, refl, sym, subst, ◌∙◌, inl, inr, true, false, List, [], ◌∷◌, Option, none, some, Bytes,
  bytes_eq_iff, is_empty, codes, ℤ, Result, ok, if◌then◌else◌, Bool-cases, Option-cases, arith,
}
use deltafeedback.Db.Schema.{Database, TicketRow, MessageRow}
use deltafeedback.Db.Replay.{purge_expired}
use deltafeedback.Db.Reset.{reset_owner_in_db}
use deltafeedback.Db.Tickets.{
  Ticket, find_ticket, has_ticket, get, keep_active, keep_owned, purge_inactive_older_than,
}
use deltafeedback.Db.Tickets.Rows.{find_ticket-keep_active, DistinctIds, unless_before}
use deltafeedback.Db.Messages.{Message, list, select_messages}
use deltafeedback.Db.Messages.Threads.{IdsBelow}
use deltafeedback.Feedback.Forms.{World}
use deltafeedback.Server.Headers.{bearer}
use deltafeedback.Server.Handlers.{
  Json, fill_time, submit_parsed, reply_input, reply_parsed, submit_input, submit_response,
  reply_response, post_feedback, post_reply,
}
use deltafeedback.Server.Handlers.Read.{get_ticket-Answered}
use deltafeedback.System.{
  Config, SystemState, Serves, Step, Reachable, purge_hourly, setup_of, world_of, bot_of,
}
use deltafeedback.System.Kept.{
  Answered-keeps, respond_keeps, Reachable-IsConsistent, Reachable-IdsBelow,
}
use deltafeedback.System.Protocol.{Conversation, Moves, Shows, Possible}
use deltafeedback.System.Protocol.Turns.{IsOrderly, Possible-IsOrderly}
use deltafeedback.System.Protocol.Changes.{Change, Change-Follows, Follows, Shows-same, stay}
use deltafeedback.System.Protocol.Handled.{
  submit_new-Change, submit_reply-Change, on_incoming_msg-Change,
}

unchanged : (db : Database) → Change db db
unchanged db = Change.unchanged refl refl

pub Serves-Change :
    {D : Type 0} (c : Config D) (s t : SystemState D)
    → Serves c s t
    → IdsBelow s.db.last_message_id s.db.messages
    → Change s.db t.db
unfolding post_feedback post_reply
Serves-Change c s _ (Serves.feedback r false body ip) below = unchanged s.db
Serves-Change c s _ (Serves.feedback r true none ip) below = unchanged s.db
Serves-Change c s _ (Serves.feedback r true (some body) ip) below =
    timed (fill_time (body.int (codes "fill_time_ms")))
  where
    timed :
        (ms : Result ℤ) → Change s.db (submit_parsed (setup_of c) r body ip ms (world_of c s)).1.db
    timed Result.throw = unchanged s.db
    timed (Result.ok ms) =
        subst {A = World _} (λ w. Change s.db w.db) (sym (respond_keeps submit_response _))
          (submit_new-Change (setup_of c) r (world_of c s) (submit_input body ms ip) below)
Serves-Change c s _ (Serves.reply r false authorization body id ip) below = unchanged s.db
Serves-Change c s _ (Serves.reply r true authorization body id ip) below =
    elim (Bool-cases (is_empty (bearer authorization))) [
      | inl blank ↦ rw (blank, post_reply) (unchanged s.db)
      | inr full ↦ rw (full, post_reply) (parsed body)
    ]
  where
    parsed :
        (body : Option Json)
        → Change s.db
            (reply_parsed (setup_of c) r (bearer authorization) id ip body (world_of c s)).1.db
    parsed none = unchanged s.db
    parsed (some body) =
        subst {A = World _} (λ w. Change s.db w.db) (sym (respond_keeps reply_response _))
          (submit_reply-Change (setup_of c) r (world_of c s)
            (reply_input body id (bearer authorization) ip) below)
Serves-Change c s _ (Serves.poll allowed authorization id have_count have_status) below =
    subst (Change s.db)
      (sym (
        Answered-keeps c authorization id have_count have_status s.db _
          (get_ticket-Answered c.crypto allowed authorization id have_count have_status s.db)))
      (unchanged s.db)
Serves-Change c s _ (Serves.message now m) below = on_incoming_msg-Change now m (bot_of c s)
Serves-Change c s _ (Serves.library d) below = unchanged s.db

select_messages-keep_owned :
    (id : Bytes) (ts : List TicketRow) (ms : List MessageRow)
    → select_messages id (keep_owned ts ms)
      ≡ (if has_ticket id ts then select_messages id ms else ok [])
unfolding keep_owned select_messages
select_messages-keep_owned id ts [] = ground arith
select_messages-keep_owned id ts (m ∷ ms) =
    ground (arith, select_messages-keep_owned id ts ms, bytes_eq_iff m.ticket_id id)

-- Nothing is left of the ticket.
forget :
    (id : Bytes) (after : Database) (o : Option Conversation)
    → find_ticket id after.tickets ≡ none
    → select_messages id after.messages ≡ ok []
    → Follows id after o
unfolding get list
forget id after none t m = record { next = none; shown = (ground arith, m); moves = Moves.stays }
forget id after (some c) t m = record {
  next = none;
  shown = (ground arith, m);
  moves = Moves.is_forgotten c;
}

unless_before-some :
    (ms : List MessageRow) (cutoff : ℤ) (o : Option TicketRow) (r : TicketRow)
    → unless_before ms cutoff o ≡ some r
    → o ≡ some r
unless_before-some ms cutoff none r e = absurd (ground arith)
unless_before-some ms cutoff (some x) r e = ground arith

purge-Follows :
    (id : Bytes) (cutoff : ℤ) (db : Database) (o : Option Conversation)
    → DistinctIds db.tickets
    → Shows id db o
    → Follows id (purge_inactive_older_than cutoff db).1 o
unfolding purge_inactive_older_than
purge-Follows id cutoff db o distinct h =
    let left = keep_active db.messages cutoff db.tickets in
    let kept = find_ticket-keep_active db.messages cutoff id db.tickets distinct in
    let owned = select_messages-keep_owned id left db.messages in
    elim (Option-cases (find_ticket id left)) [
      | inl gone ↦ forget id _ o gone (owned ∙ ground (arith, gone))
      | inr (r, here) ↦
          let still : find_ticket id left ≡ find_ticket id db.tickets =
            here
            ∙ sym (
                unless_before-some db.messages cutoff (find_ticket id db.tickets) r
                  (sym kept ∙ here)) in
          stay id db _ o still (owned ∙ ground (arith, here)) h
    ]

Step-Follows :
    {D : Type 0} (c : Config D) (s t : SystemState D) (id : Bytes) (o : Option Conversation)
    → Reachable c s
    → Step c s t
    → Shows id s.db o
    → Follows id t.db o
unfolding purge_hourly purge_expired
Step-Follows c s t id o there (Step.serve served) h =
    Change-Follows id s.db t.db o (Serves-Change c s t served (Reachable-IdsBelow c s there)) h
Step-Follows c s _ id o there (Step.purge_step retention_days now) h =
    let p = purge-Follows id _ s.db o (Reachable-IsConsistent c s there).tickets_distinct h in
    record {
      next = p.next;
      shown = Shows-same id (purge_inactive_older_than _ s.db).1 _ p.next refl refl p.shown;
      moves = p.moves;
    }
Step-Follows c s _ id o there Step.restart h = stay id s.db s.db o refl refl h
Step-Follows c s _ id o there Step.reset_admin h =
    forget id _ o (unfold reset_owner_in_db find_ticket in refl)
      (unfold reset_owner_in_db select_messages in refl)

-- Forward simulation, from the empty database on.
Reachable-Possible :
    {D : Type 0} (c : Config D) (s : SystemState D)
    → Reachable c s
    → (id : Bytes) → (o : Option Conversation) × Shows id s.db o × Possible o
Reachable-Possible c _ (Reachable.start d) id =
    (none, (unfold get find_ticket in refl, unfold list select_messages in refl), Possible.start)
Reachable-Possible c t (Reachable.step {s} there made) id =
    let (o, shown, possible) = Reachable-Possible c s there id in
    let f = Step-Follows c s t id o there made shown in
    (f.next, f.shown, Possible.move possible f.moves)

-- Refinement, where each handler runs to its end before another begins (the server has several threads, and
-- two handlers that overlap are not covered). In every state that the program reaches so, the two tables hold for each id a conversation or
-- none, which the repositories read without a fault; and whatever the program does next, it moves the
-- conversation of each id by one step of the specification, or leaves it: a new one is opened by the
-- visitor and awaits the admin, the visitor speaks only in turn, the admin speaks in any that is not
-- closed and gives the turn to the visitor, one that is not closed is closed at a time, and one is
-- forgotten whole.
pub Step-Moves :
    {D : Type 0} (c : Config D) (s t : SystemState D) (id : Bytes)
    → Reachable c s
    → Step c s t
    → (o : Option Conversation) × (p : Option Conversation) × Shows id s.db o
      × Shows id t.db p
      × Moves o p
Step-Moves c s t id there made =
    let (o, shown, _) = Reachable-Possible c s there id in
    let f = Step-Follows c s t id o there made shown in (o, f.next, shown, f.shown, f.moves)

-- Where each handler runs to its end before another begins (the server has several threads, and two replies
-- that overlap can both be stored), in every state that the program reaches, the messages of a ticket that is there begin with the
-- visitor's, two messages of the visitor never follow one another, the status names the side that did
-- not speak last unless the ticket is closed, and there is a time of closing exactly when it is closed.
pub Reachable-IsOrderly :
    {D : Type 0} (c : Config D) (s : SystemState D) (id : Bytes) (t : Ticket)
    → Reachable c s
    → (get id s.db).0 ≡ Result.ok (some t)
    → (ms : List Message) × ((list id s.db).0 ≡ Result.ok ms)
      × IsOrderly (record { ticket = t; thread = ms })
Reachable-IsOrderly c s id t there e =
    let (o, shown, possible) = Reachable-Possible c s there id in orderly o shown possible
  where
    orderly :
        (o : Option Conversation)
        → Shows id s.db o
        → Possible o
        → (ms : List Message) × ((list id s.db).0 ≡ Result.ok ms)
          × IsOrderly (record { ticket = t; thread = ms })
    orderly none (g, l) possible = absurd (ground arith)
    orderly (some k) (g, l) possible =
        let same : k.ticket ≡ t = ground arith in
        (
          k.thread,
          l,
          subst (λ x. IsOrderly (record { ticket = x; thread = k.thread })) same
              (Possible-IsOrderly (some k) possible),
        )
