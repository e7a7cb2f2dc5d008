-- ===== src/System/Kept.antt =====
-- What holds in every state that the program reaches.
use deltafeedback.Prelude.{
  ℕ, ◌≤◌, ◌≡◌, ◌≢◌, refl, sym, ap, subst, ◌∙◌, inl, inr, true, false, [], ◌∷◌, List, Option, none,
  some, Bytes, codes, ℤ, is_empty, Result, Bool-cases, Option-cases, arith,
}
use deltafeedback.Db.Schema.{Database, MessageRow, empty_database}
use deltafeedback.Db.Replay.{try_consume}
use deltafeedback.Db.Tickets.{Ticket, closed, find_ticket, get}
use deltafeedback.Db.Tickets.Status.{closed_is_final, get-insert_new, get-same, get-row}
use deltafeedback.Db.Messages.{append, set_dc_msg_id}
use deltafeedback.Db.Messages.Threads.{IdsBelow}
use deltafeedback.Db.State
use deltafeedback.Db.Invariant.{
  IsConsistent, Ascending, Statement, exec, Allowed, Serving, exec-IsConsistent,
}
use deltafeedback.Dc.Bot.Keeps.{on_incoming_msg_keeps}
use deltafeedback.Feedback.Forms.{World}
use deltafeedback.Feedback.Service.Keeps.{submit_new_keeps, submit_reply_keeps}
use deltafeedback.Server.Headers.{bearer}
use deltafeedback.Server.Responses.{Response}
use deltafeedback.Server.Handlers.{
  Json, fill_time, submit_parsed, reply_input, reply_parsed, respond, submit_input, submit_response,
  reply_response, post_feedback, post_reply,
}
use deltafeedback.Server.Handlers.Read.{Answered, get_ticket-Answered}
use deltafeedback.System.{
  Config, SystemState, Serves, Step, Reachable, purge_hourly, setup_of, world_of, bot_of,
}

pub respond_keeps : {A S : Type 0} (f : A → Response) (x : Result A × S) → (respond f x).1 ≡ x.1
respond_keeps f (Result.throw, s) = refl
respond_keeps f (Result.ok a, s) = refl

pub Answered-keeps :
    {D : Type 0} (c : Config D) (authorization id have_count have_status : Bytes) (db : Database)
    (x : Result Response × Database)
    → Answered c.crypto authorization id have_count have_status db x
    → x.1 ≡ db
Answered-keeps c authorization id have_count have_status db (Result.throw, after) h = h
Answered-keeps c authorization id have_count have_status db (Result.ok a, after) h = h.1

-- What the serving statements keep, a request or a message keeps.
Serves_keeps :
    {D : Type 0} (c : Config D) (P : Database → Type 0)
    → ((st : Statement) (db : Database) → Serving st → P db → P (exec st db))
    → (s t : SystemState D) → Serves c s t
    → P s.db
    → P t.db
unfolding post_feedback post_reply
Serves_keeps c P keeps s _ (Serves.feedback r false body ip) h = h
Serves_keeps c P keeps s _ (Serves.feedback r true none ip) h = h
Serves_keeps c P keeps s _ (Serves.feedback r true (some body) ip) h =
    timed (fill_time (body.int (codes "fill_time_ms")))
  where
    timed : (ms : Result ℤ) → P (submit_parsed (setup_of c) r body ip ms (world_of c s)).1.db
    timed Result.throw = h
    timed (Result.ok ms) =
        subst {A = World _} (λ w. P w.db) (sym (respond_keeps submit_response _))
          (submit_new_keeps P keeps (setup_of c) r (submit_input body ms ip) (world_of c s) h)
Serves_keeps c P keeps s _ (Serves.reply r false authorization body id ip) h = h
Serves_keeps c P keeps s _ (Serves.reply r true authorization body id ip) h =
    elim (Bool-cases (is_empty (bearer authorization))) [
      | inl blank ↦ rw (blank, post_reply) h
      | inr full ↦ rw (full, post_reply) (parsed body)
    ]
  where
    parsed :
        (body : Option Json)
        → P (reply_parsed (setup_of c) r (bearer authorization) id ip body (world_of c s)).1.db
    parsed none = h
    parsed (some body) =
        subst {A = World _} (λ w. P w.db) (sym (respond_keeps reply_response _))
          (submit_reply_keeps P keeps (setup_of c) r (reply_input body id (bearer authorization) ip)
            (world_of c s) h)
Serves_keeps c P keeps s _ (Serves.poll allowed authorization id have_count have_status) h =
    subst P
      (sym (
        Answered-keeps c authorization id have_count have_status s.db _
          (get_ticket-Answered c.crypto allowed authorization id have_count have_status s.db)))
      h
Serves_keeps c P keeps s _ (Serves.message now m) h =
    on_incoming_msg_keeps P keeps now m (bot_of c s) h
Serves_keeps c P keeps s _ (Serves.library d) h = h

Serving-Allowed : (st : Statement) → Serving st → Allowed st
Serving-Allowed (Statement.ticket_set_status id s) h = h
Serving-Allowed (Statement.state_erase k) h = tt
Serving-Allowed (Statement.ticket_purge cutoff) h = tt
Serving-Allowed (Statement.replay_purge now) h = tt
Serving-Allowed Statement.reset h = tt
Serving-Allowed _ h = tt

pub Serves-IsConsistent :
    {D : Type 0} (c : Config D) (s t : SystemState D)
    → Serves c s t
    → IsConsistent s.db
    → IsConsistent t.db
Serves-IsConsistent c s t served h =
    Serves_keeps c IsConsistent
      (λ st db ok_here. exec-IsConsistent st db (Serving-Allowed st ok_here)) s t served h

Step-IsConsistent :
    {D : Type 0} (c : Config D) (s t : SystemState D)
    → Step c s t
    → IsConsistent s.db
    → IsConsistent t.db
unfolding purge_hourly
Step-IsConsistent c s _ (Step.serve served) h = Serves-IsConsistent c s _ served h
Step-IsConsistent c s _ (Step.purge_step retention_days now) h =
    exec-IsConsistent (Statement.replay_purge now) _ tt
      (exec-IsConsistent (Statement.ticket_purge _) s.db tt h)
Step-IsConsistent c s _ Step.restart h = h
Step-IsConsistent c s _ Step.reset_admin h = exec-IsConsistent Statement.reset s.db tt h

empty-IsConsistent : IsConsistent empty_database
empty-IsConsistent = record {
  tickets_distinct = tt;
  statuses = tt;
  owned = tt;
  senders = tt;
  ascending = omega arith;
  challenges_distinct = tt;
}

-- In every state that the program reaches from an empty database, through any requests, messages,
-- purges, restarts and resets, the tables are consistent.
pub Reachable-IsConsistent :
    {D : Type 0} (c : Config D) (s : SystemState D) → Reachable c s → IsConsistent s.db
Reachable-IsConsistent c _ (Reachable.start d) = empty-IsConsistent
Reachable-IsConsistent c t (Reachable.step {s} before made) =
    Step-IsConsistent c s t made (Reachable-IsConsistent c s before)

Ascending-IdsBelow :
    (lo hi : ℕ) (ms : List MessageRow) → Ascending lo ms hi → IdsBelow hi ms × (lo ≤ hi)
Ascending-IdsBelow lo hi [] h = (tt, h)
Ascending-IdsBelow lo hi (m ∷ ms) (hm, h) =
    let (below, le) = Ascending-IdsBelow m.id hi ms h in ((le, below), omega arith)

pub IsConsistent-IdsBelow :
    (db : Database) → IsConsistent db → IdsBelow db.last_message_id db.messages
IsConsistent-IdsBelow db h = (Ascending-IdsBelow 0 db.last_message_id db.messages h.ascending).0

-- The ids of the messages are at most the counter, which the theorems on the service ask for.
pub Reachable-IdsBelow :
    {D : Type 0} (c : Config D) (s : SystemState D)
    → Reachable c s
    → IdsBelow s.db.last_message_id s.db.messages
Reachable-IdsBelow c s h = IsConsistent-IdsBelow s.db (Reachable-IsConsistent c s h)

-- No serving statement changes what a closed ticket reads as.
exec-closed :
    (id : Bytes) (t : Ticket)
    → t.status ≡ closed
    → (st : Statement) (db : Database) → Serving st
    → (get id db).0 ≡ Result.ok (some t)
    → (get id (exec st db)).0 ≡ Result.ok (some t)
exec-closed id t shut (Statement.ticket_insert new) db ok_here e =
    elim (Option-cases (find_ticket new.id db.tickets)) [
      | inl absent ↦ ((get-insert_new new id db).0 absent).2 (differs absent) ∙ e
      | inr (row, taken) ↦
          ap (λ d. (get id d).0) ((get-insert_new new id db).1 (λ none_there. ground arith)).1 ∙ e
    ]
  where
    differs : find_ticket new.id db.tickets ≡ none → id ≢ new.id
    differs absent same =
        let (row, found, is, read) = get-row id db t e in
        ground (arith, ap (λ j. find_ticket j db.tickets) same)
exec-closed id t shut (Statement.ticket_set_status j s) db ok_here e =
    (closed_is_final j id s t.created_at db t e shut).0
exec-closed id t shut (Statement.ticket_close j at) db ok_here e =
    (closed_is_final j id closed at db t e shut).1
exec-closed id t shut (Statement.state_set k v) db ok_here e =
    get-same id (exec (Statement.state_set k v) db) db (unfold State.set in refl) ∙ e
exec-closed id t shut (Statement.message_append j s body at ip dc) db ok_here e =
    get-same id (exec (Statement.message_append j s body at ip dc) db) db
      (unfold append in ground arith)
    ∙ e
exec-closed id t shut (Statement.message_set_dc_msg_id row i) db ok_here e =
    get-same id (exec (Statement.message_set_dc_msg_id row i) db) db (unfold set_dc_msg_id in refl)
    ∙ e
exec-closed id t shut (Statement.replay_consume j at) db ok_here e =
    get-same id (exec (Statement.replay_consume j at) db) db (unfold try_consume in ground arith)
    ∙ e
exec-closed id t shut _ db ok_here e = elim ok_here [ ]

-- No request and no message changes a closed ticket: it is read the same, with the same time of
-- closing, after any of them.
pub Serves_closed :
    {D : Type 0} (c : Config D) (s after : SystemState D) (id : Bytes) (t : Ticket)
    → Serves c s after
    → (get id s.db).0 ≡ Result.ok (some t)
    → t.status ≡ closed
    → (get id after.db).0 ≡ Result.ok (some t)
Serves_closed c s after id t served e shut =
    Serves_keeps c (λ db. (get id db).0 ≡ Result.ok (some t)) (exec-closed id t shut) s after served
      e
