-- ===== src/System/Protocol/Turns.antt =====
-- What every possible conversation looks like.
use deltafeedback.Prelude.{◌≡◌, ◌≢◌, refl, subst, List, [], ◌∷◌, ◌++◌, Option, none, some, arith}
use deltafeedback.Db.Tickets.{TicketStatus, awaiting_admin, awaiting_visitor, closed}
use deltafeedback.Db.Messages.{Sender, visitor, admin, Message}
use deltafeedback.System.Protocol.{
  Conversation, MaySpeak, Moves, stays, opens, speaks, ends, is_forgotten, Possible, spoken,
  turn_after,
}

abbrev pub FirstIs : Sender → List Message → Type 0
FirstIs who [] = ⊥
FirstIs who (m ∷ ms) = m.sender ≡ who

abbrev pub LastIs : Sender → List Message → Type 0
LastIs who [] = ⊥
LastIs who (m ∷ []) = m.sender ≡ who
LastIs who (m ∷ n ∷ ms) = LastIs who (n ∷ ms)

-- What follows a visitor's message is the admin's.
abbrev pub TakesTurns : List Message → Type 0
TakesTurns [] = Unit
TakesTurns (m ∷ []) = Unit
TakesTurns (m ∷ n ∷ ms) = (m.sender ≡ visitor → n.sender ≡ admin) × TakesTurns (n ∷ ms)

-- The turn is that of the side that did not speak last.
abbrev pub TurnIs : TicketStatus → List Message → Type 0
TurnIs awaiting_admin ms = LastIs visitor ms
TurnIs awaiting_visitor ms = LastIs admin ms
TurnIs closed ms = Unit

pub record IsOrderly (c : Conversation) : Type 0 where
  pub begins : FirstIs visitor c.thread
  pub alternates : TakesTurns c.thread
  pub turn : TurnIs c.ticket.status c.thread
  pub time : (c.ticket.closed_at ≢ none) → c.ticket.status ≡ closed
  pub timed : c.ticket.status ≡ closed → c.ticket.closed_at ≢ none

abbrev pub IsOrderlyIf : Option Conversation → Type 0
IsOrderlyIf none = Unit
IsOrderlyIf (some c) = IsOrderly c

FirstIs-append : (who : Sender) (ms ns : List Message) → FirstIs who ms → FirstIs who (ms ++ ns)
FirstIs-append who [] ns h = absurd h
FirstIs-append who (m ∷ ms) ns h = h

LastIs-last : (ms : List Message) (m : Message) → LastIs m.sender (ms ++ m ∷ [])
LastIs-last [] m = refl
LastIs-last (x ∷ []) m = refl
LastIs-last (x ∷ y ∷ ms) m = LastIs-last (y ∷ ms) m

TakesTurns-answer :
    (ms : List Message) (m : Message) → m.sender ≡ admin → TakesTurns ms → TakesTurns (ms ++ m ∷ [])
TakesTurns-answer [] m e h = tt
TakesTurns-answer (x ∷ []) m e h = ((λ _. e), tt)
TakesTurns-answer (x ∷ y ∷ ms) m e (hx, h) = (hx, TakesTurns-answer (y ∷ ms) m e h)

TakesTurns-question :
    (ms : List Message) (m : Message) → LastIs admin ms → TakesTurns ms → TakesTurns (ms ++ m ∷ [])
TakesTurns-question [] m l h = tt
TakesTurns-question (x ∷ []) m l h = ((λ v. ground arith), tt)
TakesTurns-question (x ∷ y ∷ ms) m l (hx, h) = (hx, TakesTurns-question (y ∷ ms) m l h)

TurnIs-after : (who : Sender) (ms : List Message) → LastIs who ms → TurnIs (turn_after who) ms
TurnIs-after visitor ms h = h
TurnIs-after admin ms h = h

spoken-IsOrderly :
    (c : Conversation) (m : Message) (who : Sender)
    → m.sender ≡ who
    → MaySpeak who c.ticket.status
    → IsOrderly c
    → IsOrderly (spoken c m)
spoken-IsOrderly c m visitor e may h =
    let last : LastIs admin c.thread = subst (λ st. TurnIs st c.thread) may h.turn in
    record {
      begins = FirstIs-append visitor c.thread _ h.begins;
      alternates = TakesTurns-question c.thread m last h.alternates;
      turn = TurnIs-after m.sender (c.thread ++ m ∷ []) (LastIs-last c.thread m);
      time = λ n. absurd (ground (arith, h.time n));
      timed = λ n. absurd (ground arith);
    }
spoken-IsOrderly c m admin e may h = record {
  begins = FirstIs-append visitor c.thread _ h.begins;
  alternates = TakesTurns-answer c.thread m e h.alternates;
  turn = TurnIs-after m.sender (c.thread ++ m ∷ []) (LastIs-last c.thread m);
  time = λ n. absurd (may (h.time n));
  timed = λ n. absurd (ground arith);
}

Moves-IsOrderly : (o p : Option Conversation) → Moves o p → IsOrderlyIf o → IsOrderlyIf p
Moves-IsOrderly o _ stays h = h
Moves-IsOrderly _ _ (opens t m st at who) h = record {
  begins = who;
  alternates = tt;
  turn = rw st who;
  time = λ n. absurd (n at);
  timed = λ n. absurd (ground arith);
}
Moves-IsOrderly _ _ (speaks c m may) h = spoken-IsOrderly c m m.sender refl may h
Moves-IsOrderly _ _ (ends c at running) h = record {
  begins = h.begins;
  alternates = h.alternates;
  turn = tt;
  time = λ _. refl;
  timed = λ _ e. ground arith;
}
Moves-IsOrderly _ _ (is_forgotten c) h = tt

-- Every possible conversation is orderly: the visitor begins it, a visitor's message is followed by an
-- answer before the next one, the status says whose turn it is, and only a closed one has an end.
pub Possible-IsOrderly : (o : Option Conversation) → Possible o → IsOrderlyIf o
Possible-IsOrderly _ Possible.start = tt
Possible-IsOrderly p (Possible.move {o} before step) =
    Moves-IsOrderly o p step (Possible-IsOrderly o before)
