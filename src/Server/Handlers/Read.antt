-- ===== src/Server/Handlers/Read.antt =====
-- Who reads a ticket, and when the answer is that nothing is new.
use deltafeedback.Prelude.{
  ℕ, ◌<◌, ◌^◌, ◌≡◌, ◌≢◌, ◌↔◌, refl, ap, inl, inr, Bool, true, false, [], ◌∷◌, List, Option, none,
  some, Bytes, bytes_eq_iff, bytes_eq_refl, is_empty, length, ◌==◌, ==_iff, bit_or, bit_xor,
  bit_or-eq-zero, Result, Bool-cases, arith,
}
use deltafeedback.Pow.Crypto.{Crypto}
use deltafeedback.Pow.Compare.{difference, difference-eq-zero}
use deltafeedback.Pow.Decimal.{to_string}
use deltafeedback.Db.Schema.{Database}
use deltafeedback.Db.Tickets.{Ticket, TicketStatus, awaiting_admin, get}
use deltafeedback.Db.Tickets
use deltafeedback.Db.Messages.{Message, list}
use deltafeedback.Dc.Bot.Owner.{stoul, stoul-to_string, is_empty-to_string}
use deltafeedback.Server.Headers.{bearer}
use deltafeedback.Server.Responses.{Payload, Response}
use deltafeedback.Server.Handlers.{hash_differs, is_current, listed, found, get_ticket}

difference_keeps : (a b : Bytes) (d : ℕ) → difference a b d ≡ 0 → d ≡ 0
unfolding difference
difference_keeps [] b d h = h
difference_keeps (x ∷ a) [] d h = h
difference_keeps (x ∷ a) (y ∷ b) d h =
    ground (arith, difference_keeps a b (bit_or d (bit_xor x y)) h, bit_or-eq-zero d (bit_xor x y))

-- The handler's comparison finds exactly the equal hashes.
pub hash_differs_iff : (h stored : Bytes) → (hash_differs h stored ≡ false) ↔ (h ≡ stored)
unfolding hash_differs
hash_differs_iff h stored = elim (Bool-cases (length h == length stored)) [
  | inl e ↦
      rw e (ground (arith, difference-eq-zero h stored 0 ((==_iff (length h) (length stored)).0 e)))
  | inr e ↦ rw e (
    λ x. absurd (ground (arith, difference_keeps h stored 1)),
    λ x. absurd (ground (arith, ap length x)),
  )
]

module _ (c : Crypto) (authorization id : Bytes) (db : Database) where
  -- The request carries the token that was given out for the ticket.
  pub record MayRead (t : Ticket) : Type 0 where
    pub token : bearer authorization ≢ []
    pub ticket : (get id db).0 ≡ Result.ok (some t)
    pub hash_is : c.sha256 (bearer authorization) ≡ t.read_token_hash

module _ (c : Crypto) (authorization id have_count have_status : Bytes) (db : Database) where
  -- What stands behind an answer, by its body.
  abbrev pub Honest : ℕ → Payload → Type 0
  Honest status (Payload.thread current msgs) =
      (t : Ticket) × MayRead c authorization id db t
      × (status ≡ 200)
      × (current ≡ Tickets.to_string t.status)
      × ((list id db).0 ≡ Result.ok msgs)
  Honest status Payload.no_body =
      (t : Ticket) × (msgs : List Message) × MayRead c authorization id db t
      × (status ≡ 304)
      × ((list id db).0 ≡ Result.ok msgs)
      × (stoul have_count ≡ some (length msgs))
      × (have_status ≡ Tickets.to_string t.status)
  Honest status (Payload.error_code code) = (status ≢ 200) × (status ≢ 304)
  Honest status _ = ⊥

  abbrev pub Answered : Result Response × Database → Type 0
  Answered (Result.throw, after) = after ≡ db
  Answered (Result.ok a, after) = Honest a.status a.payload × (after ≡ db)

  is_current_lem :
      (current : Bytes) (msgs : List Message)
      → is_current have_count have_status current msgs ≡ true
      → (stoul have_count ≡ some (length msgs)) × (have_status ≡ current)
  unfolding is_current
  is_current_lem current msgs h = ground (arith, bytes_eq_iff have_status current)

  listed-Answered :
      (t : Ticket)
      → MayRead c authorization id db t
      → (o : Result (List Message)) → (list id db).0 ≡ o
      → Answered (listed have_count have_status (Tickets.to_string t.status) (o, db))
  listed-Answered t may Result.throw e = refl
  listed-Answered t may (Result.ok msgs) e =
      elim (Bool-cases (is_current have_count have_status (Tickets.to_string t.status) msgs)) [
        | inl same ↦
            let (counted, status) = is_current_lem (Tickets.to_string t.status) msgs same in
            rw same ((t, msgs, may, refl, e, counted, status), refl)
        | inr news ↦ rw news ((t, may, refl, refl, e), refl)
      ]

  found-Answered :
      bearer authorization ≢ []
      → (o : Result (Option Ticket)) → (get id db).0 ≡ o
      → Answered (found c (bearer authorization) id have_count have_status (o, db))
  unfolding list
  found-Answered token Result.throw e = refl
  found-Answered token (Result.ok none) e = (((λ x. omega arith), (λ x. omega arith)), refl)
  found-Answered token (Result.ok (some t)) e =
      elim (Bool-cases (hash_differs (c.sha256 (bearer authorization)) t.read_token_hash)) [
        | inl other ↦ rw other (((λ x. omega arith), (λ x. omega arith)), refl)
        | inr same ↦ rw same (
            listed-Answered t
              (record {
                token = token;
                ticket = e;
                hash_is =
                    (hash_differs_iff (c.sha256 (bearer authorization)) t.read_token_hash).0 same;
              })
              (list id db).0 refl)
      ]

-- The handler of GET changes nothing. It answers with a thread only to a request with the ticket's read
-- token, and the thread is the ticket's status and messages; it answers 304 only to such a request that
-- names the ticket's status and its number of messages; every other answer has another status.
pub get_ticket-Answered :
    (c : Crypto) (allowed : Bool) (authorization id have_count have_status : Bytes) (db : Database)
    → Answered c authorization id have_count have_status db
        (get_ticket c allowed authorization id have_count have_status db)
unfolding get_ticket get
get_ticket-Answered c false authorization id have_count have_status db =
    (((λ x. omega arith), (λ x. omega arith)), refl)
get_ticket-Answered c true authorization id have_count have_status db =
    elim (Bool-cases (is_empty (bearer authorization))) [
      | inl blank ↦ rw blank (((λ x. omega arith), (λ x. omega arith)), refl)
      | inr full ↦ rw full (
          found-Answered c authorization id have_count have_status db (λ e. ground (arith, e))
            (get id db).0 refl)
    ]

to_string_full : (s : TicketStatus) → is_empty (Tickets.to_string s) ≡ false
unfolding Tickets.to_string
to_string_full awaiting_admin = refl
to_string_full _ = refl

current_count :
    (n : ℕ) (status : TicketStatus) (msgs : List Message)
    → n ≡ length msgs
    → n < 2 ^ 64
    → is_current (to_string n) (Tickets.to_string status) (Tickets.to_string status) msgs ≡ true
unfolding is_current
current_count n status msgs e small = ground (
  arith,
  to_string_full status,
  is_empty-to_string n,
  stoul-to_string n small,
  bytes_eq_refl (Tickets.to_string status),
)

-- A client that may read the ticket and sends back the status and the number of messages that it has
-- seen is answered 304.
pub get_ticket_current :
    (c : Crypto) (authorization id : Bytes) (db : Database) (t : Ticket) (msgs : List Message)
    → MayRead c authorization id db t
    → (list id db).0 ≡ Result.ok msgs
    → length msgs < 2 ^ 64
    → (get_ticket c true authorization id
        (to_string (length msgs))
        (Tickets.to_string t.status)
        db).0
      ≡ Result.ok (record { status = 304; payload = Payload.no_body })
unfolding get_ticket get list
get_ticket_current c authorization id db t msgs may listing small =
    let full : is_empty (bearer authorization) ≡ false = ground (arith, may.token) in
    let same =
      (hash_differs_iff (c.sha256 (bearer authorization)) t.read_token_hash).1 may.hash_is in
    let current = current_count (length msgs) t.status msgs refl small in
    rw full (rw may.ticket (rw same (rw listing (rw current refl))))
