-- ===== src/Dc/Bot/Owner.antt =====
-- The owner across restarts: the constructor of `Bot`.
use deltafeedback.Prelude.{
  ℕ, zero, suc, ◌+◌, ◌-◌, ◌*◌, ◌/◌, ◌%◌, ◌^◌, ◌<◌, ◌≡◌, ◌∙◌, refl, sym, ap, inl, inr, Bool, true,
  false, not, ◌&&◌, [], ◌∷◌, Option, none, some, Bytes, codes, is_empty, leb, ◌==◌, if◌then◌else◌,
  Bool-cases, bytes_eq_refl, arith, ℤ, Result,
}
use native.Mathlib.Nat.{mod-eq_of_lt}
use deltafeedback.Pow.Decimal.{digits, to_string}
use deltafeedback.Db.Schema.{Database}
use deltafeedback.Db.State
use deltafeedback.Dc.Parse.{drop_space, is_space}
use deltafeedback.Dc.Bot.{BotState, Incoming, on_incoming_msg, send_to, welcome_text}

abbrev is_digit : ℕ → Bool
is_digit c = leb b'0' c && leb c b'9'

-- `std::stoul`: spaces, a sign, and the digits that follow; `none` is an exception, for no digit or
-- for a number above 64 bits.
unfoldable pub digit_prefix : Bytes → ℕ → ℕ
digit_prefix [] v = v
digit_prefix (c ∷ s) v = if is_digit c then digit_prefix s (v * 10 + (c - b'0')) else v

abbrev unsigned : Bool → Bytes → Option ℕ
unsigned negative [] = none
unsigned negative (c ∷ s) =
    if not (is_digit c)
    then none
    else (let v = digit_prefix (c ∷ s) 0 in
        if leb (2 ^ 64) v then none else some (if negative then (2 ^ 64 - v) % 2 ^ 64 else v))

abbrev signed : Bytes → Option ℕ
signed [] = none
signed (c ∷ s) =
    if c == b'-'
    then unsigned true s
    else if c == b'+'
    then unsigned false s
    else unsigned false (c ∷ s)

unfoldable pub stoul : Bytes → Option ℕ
unfolding digit_prefix drop_space
stoul s = signed (drop_space s)

abbrev stored_owner : Option ℕ → ℕ
stored_owner none = 0
stored_owner (some v) = v % 2 ^ 32

abbrev restored : Option Bytes → ℕ
restored none = 0
restored (some s) = if is_empty s then 0 else stored_owner (stoul s)

-- What `owner.contact_id` holds after the constructor, which finds it 0.
unfoldable pub restore_owner : Database → ℕ
restore_owner db = restored (State.get (codes "owner_contact_id") db)

digit_prefix-digits :
    (fuel n : ℕ) (out : Bytes) → n < fuel → digit_prefix (digits fuel n out) 0 ≡ digit_prefix out n
unfolding digits
digit_prefix-digits zero n out h = absurd (omega arith)
digit_prefix-digits (suc fuel) n out h = elim (Bool-cases (n / 10 == 0)) [
  | inl e ↦ rw e (prefix_digit (n % 10) 0 out (omega arith) ∙ ap (digit_prefix out) (ground arith))
  | inr e ↦ rw e (
      digit_prefix-digits fuel (n / 10) _ (ground arith)
      ∙ prefix_digit (n % 10) (n / 10) out (omega arith)
      ∙ ap (digit_prefix out) (omega arith))
]
  where
    prefix_digit :
        (d v : ℕ) (out : Bytes)
        → d < 10
        → digit_prefix ((b'0' + d) ∷ out) v ≡ digit_prefix out (v * 10 + d)
    prefix_digit d v out h = unfold digit_prefix in ground arith

-- The first character of a printed number is a digit.
digits-head :
    (fuel n : ℕ) (out : Bytes)
    → (d : ℕ) × (s : Bytes) × (d < 10) × (digits (suc fuel) n out ≡ (b'0' + d) ∷ s)
unfolding digits
digits-head zero n out = (n % 10, out, omega arith, ground arith)
digits-head (suc fuel) n out = elim (Bool-cases (n / 10 == 0)) [
  | inl e ↦ (n % 10, out, omega arith, rw e)
  | inr e ↦
      let (d, s, h, q) = digits-head fuel (n / 10) ((b'0' + n % 10) ∷ out) in (d, s, h, rw e q)
]

signed_digits :
    (d : ℕ) (s : Bytes)
    → d < 10
    → digit_prefix ((b'0' + d) ∷ s) 0 < 2 ^ 64
    → signed ((b'0' + d) ∷ s) ≡ some (digit_prefix ((b'0' + d) ∷ s) 0)
signed_digits d s h lt =
    let no_dash : ((b'0' + d) == b'-') ≡ false = ground arith in
    let no_plus : ((b'0' + d) == b'+') ≡ false = ground arith in
    let digit : is_digit (b'0' + d) ≡ true = ground arith in
    let small : leb (2 ^ 64) (digit_prefix ((b'0' + d) ∷ s) 0) ≡ false = ground arith in
    rw no_dash (rw no_plus (rw digit (rw small refl)))

stoul_digits :
    (d : ℕ) (s : Bytes)
    → d < 10
    → digit_prefix ((b'0' + d) ∷ s) 0 < 2 ^ 64
    → stoul ((b'0' + d) ∷ s) ≡ some (digit_prefix ((b'0' + d) ∷ s) 0)
unfolding stoul
stoul_digits d s h lt =
    let bare : drop_space ((b'0' + d) ∷ s) ≡ (b'0' + d) ∷ s =
      unfold drop_space is_space in ground arith in
    ap signed bare ∙ signed_digits d s h lt

pub stoul-to_string : (n : ℕ) → n < 2 ^ 64 → stoul (to_string n) ≡ some n
unfolding to_string
stoul-to_string n h =
    let (d, s, lt, e) = digits-head n n [] in
    let value : digit_prefix ((b'0' + d) ∷ s) 0 ≡ n =
      ap (λ t. digit_prefix t 0) (sym e)
      ∙ digit_prefix-digits (suc n) n [] (omega arith)
      ∙ (unfold digit_prefix in refl) in
    ap stoul e ∙ stoul_digits d s lt (omega (arith, value)) ∙ ap some value

pub is_empty-to_string : (n : ℕ) → is_empty (to_string n) ≡ false
is_empty-to_string n = let (d, s, lt, e) = digits-head n n [] in unfold to_string in rw e refl

restored-to_string : (n : ℕ) → n < 2 ^ 32 → restored (some (to_string n)) ≡ n
restored-to_string n small =
    let full = is_empty-to_string n in
    rw full (rw (stoul-to_string n (omega arith)) (mod-eq_of_lt small))

restore_owner-set :
    (n : ℕ) (db : Database)
    → n < 2 ^ 32
    → restore_owner (State.set (codes "owner_contact_id") (to_string n) db) ≡ n
unfolding restore_owner
restore_owner-set n db small =
    let key = codes "owner_contact_id" in
    let found : State.get key (State.set key (to_string n) db) ≡ some (to_string n) =
      (State.get_after key key (to_string n) db).0 ∙ rw bytes_eq_refl refl in
    ap restored found ∙ restored-to_string n small

pub send_to_keeps :
    (contact : ℕ) (text : Bytes) (quote : ℕ) (s : BotState)
    → ((send_to contact text quote s).db ≡ s.db)
      × ((send_to contact text quote s).contact_id ≡ s.contact_id)
unfolding send_to
send_to_keeps contact text quote s = ground arith

-- The first contact becomes the owner, in memory and in the database, and a restart on that database
-- finds the same owner; the tables of the tickets are as before.
pub first_contact :
    (now : ℤ) (m : Incoming) (s : BotState)
    → s.contact_id ≡ 0
    → m.from < 2 ^ 32
    → let (r, t) = on_incoming_msg now m s in
      (r ≡ Result.ok tt)
      × (t.contact_id ≡ m.from)
      × (restore_owner t.db ≡ m.from)
      × (t.db.tickets ≡ s.db.tickets)
      × (t.db.messages ≡ s.db.messages)
unfolding on_incoming_msg
first_contact now m s none_yet small =
    let zero_owner : (s.contact_id == 0) ≡ true = ground arith in
    let key = codes "owner_contact_id" in
    let named : BotState = record s {
      contact_id = m.from;
      db = State.set key (to_string m.from) s.db;
    } in
    let (same, owner) = send_to_keeps m.from welcome_text 0 named in
    rw zero_owner (
      refl,
      owner,
      ap restore_owner same ∙ restore_owner-set m.from s.db small,
      ap (λ d. d.tickets) same ∙ (unfold State.set in refl),
      ap (λ d. d.messages) same ∙ (unfold State.set in refl),
    )
