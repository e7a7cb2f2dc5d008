-- ===== src/Db/Invariant/MessageKeys.antt =====
-- Each change of the messages and of the replay rows keeps their keys and references.
use deltafeedback.Prelude.{
  ℕ, ◌≤◌, ◌<◌, ◌≡◌, refl, inl, inr, true, false, ◌||◌, List, [], ◌∷◌, ◌++◌, Bytes, bytes_eq_iff,
  ◌==◌, arith, All, All-append, ℤ, ltb_ℤ, Bool-cases,
}
use deltafeedback.Db.Schema.{TicketRow, MessageRow, ReplayRow}
use deltafeedback.Db.Replay.{has_challenge, keep_replay}
use deltafeedback.Db.Tickets.{has_ticket, keep_owned}
use deltafeedback.Db.Messages.{update_dc_msg_id}
use deltafeedback.Db.Invariant.Keys.{KnownSender, Ascending, DistinctChallenges, Owned}

pub Owned-keep_owned : (ts : List TicketRow) (ms : List MessageRow) → Owned ts (keep_owned ts ms)
unfolding keep_owned
Owned-keep_owned ts [] = tt
Owned-keep_owned ts (m ∷ ms) = elim (Bool-cases (has_ticket m.ticket_id ts)) [
  | inl stays ↦ rw (stays, keep_owned) (stays, Owned-keep_owned ts ms)
  | inr gone ↦ rw (gone, keep_owned) (Owned-keep_owned ts ms)
]

pub senders-keep_owned :
    (ts : List TicketRow) (ms : List MessageRow)
    → All KnownSender ms
    → All KnownSender (keep_owned ts ms)
unfolding keep_owned
senders-keep_owned ts [] h = tt
senders-keep_owned ts (m ∷ ms) (s, h) = elim (Bool-cases (has_ticket m.ticket_id ts)) [
  | inl stays ↦ rw (stays, keep_owned) (s, senders-keep_owned ts ms h)
  | inr gone ↦ rw (gone, keep_owned) (senders-keep_owned ts ms h)
]

Ascending-lower :
    (lo lo' hi : ℕ) (ms : List MessageRow) → lo' ≤ lo → Ascending lo ms hi → Ascending lo' ms hi
Ascending-lower lo lo' hi [] le h = omega arith
Ascending-lower lo lo' hi (m ∷ ms) le (hm, h) = (omega arith, h)

pub Ascending-keep_owned :
    (ts : List TicketRow) (lo hi : ℕ) (ms : List MessageRow)
    → Ascending lo ms hi
    → Ascending lo (keep_owned ts ms) hi
unfolding keep_owned
Ascending-keep_owned ts lo hi [] h = h
Ascending-keep_owned ts lo hi (m ∷ ms) (hm, h) = elim (Bool-cases (has_ticket m.ticket_id ts)) [
  | inl stays ↦ rw (stays, keep_owned) (hm, Ascending-keep_owned ts m.id hi ms h)
  | inr gone ↦
      rw (gone, keep_owned)
        (Ascending-keep_owned ts lo hi ms (Ascending-lower m.id lo hi ms (omega arith) h))
]

pub Ascending-append :
    (lo hi : ℕ) (ms : List MessageRow) (m : MessageRow)
    → Ascending lo ms hi
    → hi < m.id
    → Ascending lo (ms ++ m ∷ []) m.id
Ascending-append lo hi [] m h lt = omega arith
Ascending-append lo hi (x ∷ ms) m (hx, h) lt = (hx, Ascending-append x.id hi ms m h lt)

pub Owned-last :
    (ts : List TicketRow) (ms : List MessageRow) (m : MessageRow)
    → Owned ts ms
    → has_ticket m.ticket_id ts ≡ true
    → Owned ts (ms ++ m ∷ [])
Owned-last ts ms m h o = All-append _ ms (m ∷ []) h (o, tt)

pub Owned-update :
    (ts : List TicketRow) (k i : ℕ) (ms : List MessageRow)
    → Owned ts ms
    → Owned ts (update_dc_msg_id k i ms)
unfolding update_dc_msg_id
Owned-update ts k i [] h = tt
Owned-update ts k i (m ∷ ms) (hm, h) = (ground arith, Owned-update ts k i ms h)

pub senders-update :
    (k i : ℕ) (ms : List MessageRow)
    → All KnownSender ms
    → All KnownSender (update_dc_msg_id k i ms)
unfolding update_dc_msg_id
senders-update k i [] h = tt
senders-update k i (m ∷ ms) (hm, h) = (ground arith, senders-update k i ms h)

pub Ascending-update :
    (k i lo hi : ℕ) (ms : List MessageRow)
    → Ascending lo ms hi
    → Ascending lo (update_dc_msg_id k i ms) hi
unfolding update_dc_msg_id
Ascending-update k i lo hi [] h = h
Ascending-update k i lo hi (m ∷ ms) (hm, h) = elim (Bool-cases (m.id == k)) [
  | inl here ↦ rw here (hm, Ascending-update k i m.id hi ms h)
  | inr other ↦ rw other (hm, Ascending-update k i m.id hi ms h)
]

-- Replay rows.

has_challenge-append :
    (id : Bytes) (rs ss : List ReplayRow)
    → has_challenge id (rs ++ ss) ≡ (has_challenge id rs || has_challenge id ss)
unfolding has_challenge
has_challenge-append id [] ss = refl
has_challenge-append id (r ∷ rs) ss = ground (arith, has_challenge-append id rs ss)

has_challenge-kept :
    (now : ℤ) (id : Bytes) (rs : List ReplayRow)
    → has_challenge id rs ≡ false
    → has_challenge id (keep_replay now rs) ≡ false
unfolding has_challenge keep_replay
has_challenge-kept now id [] h = refl
has_challenge-kept now id (r ∷ rs) h = ground (arith, has_challenge-kept now id rs)

pub DistinctChallenges-append :
    (rs : List ReplayRow) (r : ReplayRow)
    → DistinctChallenges rs
    → has_challenge r.challenge_id rs ≡ false
    → DistinctChallenges (rs ++ r ∷ [])
unfolding has_challenge
DistinctChallenges-append [] r d f = (refl, tt)
DistinctChallenges-append (x ∷ rs) r (fx, d) f = (
  ground (
    arith,
    has_challenge-append x.challenge_id rs (r ∷ []),
    bytes_eq_iff r.challenge_id x.challenge_id,
    bytes_eq_iff x.challenge_id r.challenge_id,
  ),
  DistinctChallenges-append rs r d (ground arith),
)

pub DistinctChallenges-keep :
    (now : ℤ) (rs : List ReplayRow)
    → DistinctChallenges rs
    → DistinctChallenges (keep_replay now rs)
unfolding keep_replay
DistinctChallenges-keep now [] d = tt
DistinctChallenges-keep now (r ∷ rs) (f, d) = elim (Bool-cases (ltb_ℤ r.expires_at now)) [
  | inl gone ↦ rw gone (DistinctChallenges-keep now rs d)
  | inr stays ↦
      rw stays (has_challenge-kept now r.challenge_id rs f, DistinctChallenges-keep now rs d)
]
