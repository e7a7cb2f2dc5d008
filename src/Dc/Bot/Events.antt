-- ===== src/Dc/Bot/Events.antt =====
-- `run_event_loop` of src/dc/bot.cpp. The events to come are a list, whose end is a null event; an
-- exception of a handler leaves the loop.
use deltafeedback.Prelude.{
  ℕ, ◌^◌, ◌<◌, ◌≡◌, ◌≢◌, refl, sym, ap, subst, ◌∙◌, inl, inr, false, List, [], ◌∷◌, ◌++◌, Option,
  none, some, Bytes, is_empty, All, ◌==◌, if◌then◌else◌, ℤ, Result, Exec, bind_at, ◌>>◌, pure,
  Bool-cases, arith,
}
use deltafeedback.Db.Schema.{Database}
use deltafeedback.Db.State
use deltafeedback.Db.Tickets.{TicketStatus, awaiting_visitor, Ticket, get, set_status, close}
use deltafeedback.Db.Messages.{admin, append}
use deltafeedback.Dc.Parse.{Kind}
use deltafeedback.Dc.Route.{AdminRoute}
use deltafeedback.Dc.Bot.{
  BotState, Incoming, send_to, after_append, act_on_open, act_on, route_of, route_admin_msg, seen,
  on_incoming_msg, empty_text,
}
use deltafeedback.Dc.Bot.Owner.{restore_owner, first_contact}

-- `logged` is a line to print. A message may be gone when it is asked for; the time is that of the
-- handler.
pub data BotEvent : Type 0 where
  logged : BotEvent
  incoming_msg : ℤ → Option Incoming → BotEvent
  ignored : BotEvent

unfoldable pub handle : BotEvent → Exec BotState (Unit {0})
handle logged s = (Result.ok tt, s)
handle (incoming_msg now none) s = (Result.ok tt, s)
handle (incoming_msg now (some m)) s = on_incoming_msg now m s
handle ignored s = (Result.ok tt, s)

unfoldable pub handle_all : List BotEvent → Exec BotState ℕ
unfolding handle
handle_all [] = pure 0
handle_all (e ∷ es) = do handle e; handle_all es

-- `none` where there is no emitter.
unfoldable pub run_event_loop : Option (List BotEvent) → Exec BotState ℕ
unfolding handle_all
run_event_loop none s = (Result.ok 1, s)
run_event_loop (some es) s = handle_all es s

-- The owner, in memory and in the table, is the same.
pub record SameOwner (s t : BotState) : Type 0 where
  pub contact : t.contact_id ≡ s.contact_id
  pub state : t.db.state ≡ s.db.state

same : (s : BotState) → SameOwner s s
same s = record { contact = refl; state = refl }

module _ (now : ℤ) (s : BotState) where
  sent_owner :
      (contact : ℕ) (text : Bytes) (quote : ℕ) (t : BotState)
      → SameOwner s t
      → SameOwner s (send_to contact text quote t)
  unfolding send_to
  sent_owner contact text quote t h = ground arith

  appended :
      (id : Bytes) (row : Bytes)
      → SameOwner s (after_append id s (append id admin row now [] none s.db)).1
  unfolding append set_status
  appended id row = ground arith

  closes : (id : Bytes) → SameOwner s (record s { db = close id now s.db })
  unfolding close
  closes id = record { contact = refl; state = refl }

  answers :
      (route : AdminRoute)
      → SameOwner s
          (if is_empty route.body
            then (Result.ok tt, send_to s.contact_id empty_text 0 s)
            else after_append route.ticket_id s
                (append route.ticket_id admin route.body now [] none s.db)).1
  answers route = elim (Bool-cases (is_empty route.body)) [
    | inl blank ↦ rw blank (sent_owner s.contact_id empty_text 0 s (same s))
    | inr full ↦ rw full (appended route.ticket_id route.body)
  ]

  act_on_open_owner :
      (msg_id : ℕ) (route : AdminRoute) (k : Kind)
      → route.kind ≡ k
      → SameOwner s (act_on_open now s.contact_id msg_id route s).1
  unfolding act_on_open
  act_on_open_owner msg_id route Kind.close e =
      rw e (sent_owner s.contact_id _ msg_id _ (closes route.ticket_id))
  act_on_open_owner msg_id route Kind.reply e = rw e (answers route)
  act_on_open_owner msg_id route Kind.no_ticket_id e = rw e (answers route)

  act_on_owner :
      (msg_id : ℕ) (route : AdminRoute) (o : Result (Option Ticket))
      → SameOwner s (act_on now s.contact_id msg_id route s (o, s.db)).1
  act_on_owner msg_id route Result.throw = same s
  act_on_owner msg_id route (Result.ok none) = sent_owner s.contact_id _ 0 s (same s)
  act_on_owner msg_id route (Result.ok (some t)) = status t.status refl
    where
      status :
          (st : TicketStatus)
          → t.status ≡ st
          → SameOwner s (act_on now s.contact_id msg_id route s (Result.ok (some t), s.db)).1
      status TicketStatus.closed e = rw e (sent_owner s.contact_id _ 0 s (same s))
      status TicketStatus.awaiting_admin e = rw e (act_on_open_owner msg_id route route.kind refl)
      status awaiting_visitor e = rw e (act_on_open_owner msg_id route route.kind refl)

  route_admin_msg_owner :
      (m : Incoming) (k : Kind)
      → (route_of m s.db).kind ≡ k
      → SameOwner s (route_admin_msg now s.contact_id m s).1
  unfolding route_admin_msg get
  route_admin_msg_owner m Kind.no_ticket_id e =
      simp (e, route_admin_msg) (sent_owner s.contact_id _ 0 s (same s))
  route_admin_msg_owner m Kind.close e =
      simp (e, route_admin_msg) (act_on_owner m.msg_id (route_of m s.db) _)
  route_admin_msg_owner m Kind.reply e =
      simp (e, route_admin_msg) (act_on_owner m.msg_id (route_of m s.db) _)

  seen_owner :
      (i : ℕ) (x : Result (Unit {0}) × BotState) → SameOwner s x.1 → SameOwner s (seen i x).1
  seen_owner i (Result.throw, t) h = h
  seen_owner i (Result.ok _, t) h = record { contact = h.contact; state = h.state }

  message_owner : (m : Incoming) → s.contact_id ≢ 0 → SameOwner s (on_incoming_msg now m s).1
  unfolding on_incoming_msg
  message_owner m there =
      let nonzero : (s.contact_id == 0) ≡ false = ground arith in
      elim (Bool-cases (m.from == s.contact_id)) [
        | inl equal ↦
            rw (nonzero, equal)
              (seen_owner m.msg_id (route_admin_msg now s.contact_id m s)
                (route_admin_msg_owner m (route_of m s.db).kind refl))
        | inr other ↦ rw (nonzero, other) (record { contact = refl; state = refl })
      ]

handle_owner : (s : BotState) (e : BotEvent) → s.contact_id ≢ 0 → SameOwner s (handle e s).1
unfolding handle
handle_owner s logged there = same s
handle_owner s (incoming_msg now none) there = same s
handle_owner s (incoming_msg now (some m)) there = message_owner now s m there
handle_owner s ignored there = same s

SameOwner_trans : (s t u : BotState) → SameOwner s t → SameOwner t u → SameOwner s u
SameOwner_trans s t u h k = record { contact = k.contact ∙ h.contact; state = k.state ∙ h.state }

-- What the rest of the loop keeps, it keeps after an event that kept it.
after_event :
    (s : BotState) (rest : Exec BotState ℕ) (x : Result (Unit {0}) × BotState)
    → ((t : BotState) → t.contact_id ≢ 0 → SameOwner t (rest t).1)
    → s.contact_id ≢ 0
    → SameOwner s x.1
    → SameOwner s (bind_at (λ _. rest) x).1
after_event s rest (Result.throw, t) keeps there h = h
after_event s rest (Result.ok _, t) keeps there h =
    SameOwner_trans s t (rest t).1 h (keeps t (λ e. there (sym h.contact ∙ e)))

handle_all_owner :
    (es : List BotEvent) (s : BotState) → s.contact_id ≢ 0 → SameOwner s (handle_all es s).1
unfolding handle_all
handle_all_owner [] s there = same s
handle_all_owner (e ∷ es) s there =
    after_event s (handle_all es) (handle e s) (handle_all_owner es) there (handle_owner s e there)

-- The messages that come before any owner is known.
abbrev pub NoMessage : BotEvent → Type 0
NoMessage (incoming_msg now (some m)) = ⊥
NoMessage _ = Unit

handle_all_before :
    (s : BotState) (before es : List BotEvent)
    → All NoMessage before
    → handle_all (before ++ es) s ≡ handle_all es s
unfolding handle_all handle
handle_all_before s [] es h = refl
handle_all_before s (logged ∷ before) es (_, h) = handle_all_before s before es h
handle_all_before s (incoming_msg now none ∷ before) es (_, h) = handle_all_before s before es h
handle_all_before s (incoming_msg now (some m) ∷ before) es (m_here, h) = absurd m_here
handle_all_before s (ignored ∷ before) es (_, h) = handle_all_before s before es h

restore_owner-state :
    (db after : Database) → after.state ≡ db.state → restore_owner after ≡ restore_owner db
unfolding restore_owner State.get
restore_owner-state db after e = ap (λ st. restore_owner (record db { state = st })) e

after_first :
    (es : List BotEvent) (from : ℕ) (x : Result (Unit {0}) × BotState)
    → from ≢ 0
    → x.1.contact_id ≡ from
    → restore_owner x.1.db ≡ from
    → let t = (bind_at (λ _. handle_all es) x).1 in
      (t.contact_id ≡ from) × (restore_owner t.db ≡ from)
after_first es from (Result.throw, t) someone c r = (c, r)
after_first es from (Result.ok _, t) someone c r =
    let h = handle_all_owner es t (λ e. someone (sym c ∙ e)) in
    (h.contact ∙ c, restore_owner-state t.db (handle_all es t).1.db h.state ∙ r)

-- The first contact wins. In a loop that starts without an owner, the sender of the first message
-- becomes the owner, and stays it through all further events, whoever they come from, also for a
-- later start of the program on the same database; an exception of a handler does not change that.
pub run_event_loop-first :
    (s : BotState) (before after : List BotEvent) (now : ℤ) (m : Incoming)
    → s.contact_id ≡ 0
    → All NoMessage before
    → m.from ≢ 0
    → m.from < 2 ^ 32
    → let t = (run_event_loop (some (before ++ incoming_msg now (some m) ∷ after)) s).1 in
      (t.contact_id ≡ m.from) × (restore_owner t.db ≡ m.from)
unfolding run_event_loop
run_event_loop-first s before after now m none_yet quiet someone small =
    let (_, c, r, _, _) = first_contact now m s none_yet small in
    let skipped = handle_all_before s before (incoming_msg now (some m) ∷ after) quiet in
    subst (λ x. (x.1.contact_id ≡ m.from) × (restore_owner x.1.db ≡ m.from)) (sym skipped)
      (unfold handle_all in
        unfold handle in after_first after m.from (on_incoming_msg now m s) someone c r)
