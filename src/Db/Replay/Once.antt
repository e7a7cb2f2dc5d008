-- ===== src/Db/Replay/Once.antt =====
-- A challenge is consumed at most once while its row is kept.
use deltafeedback.Prelude.{
  ◌+◌, ◌≡◌, refl, sym, subst, ◌⊎◌, inl, inr, true, false, List, [], ◌∷◌, ◌++◌, Bytes, bytes_eq_iff,
  length, arith, ℤ, ltb_ℤ, ◌≤ℤ◌, Bool-cases, All,
}
use deltafeedback.Db.Schema.{ReplayRow, Database}
use deltafeedback.Db.Replay.{has_challenge, try_consume, keep_replay, count_expired, purge_expired}

-- A row for the challenge that no purge up to the time `e` takes away.
abbrev pub Held : Bytes → ℤ → List ReplayRow → Type 0
Held id e [] = ⊥
Held id e (r ∷ rs) = ((r.challenge_id ≡ id) × (e ≤ℤ r.expires_at)) ⊎ Held id e rs

pub Held-has :
    (id : Bytes) (e : ℤ) (rs : List ReplayRow) → Held id e rs → has_challenge id rs ≡ true
unfolding has_challenge
Held-has id e [] h = elim h [ ]
Held-has id e (r ∷ rs) (inl h) = ground (arith, bytes_eq_iff r.challenge_id id)
Held-has id e (r ∷ rs) (inr h) = ground (arith, Held-has id e rs h)

pub Held-last :
    (id : Bytes) (e : ℤ) (rs : List ReplayRow)
    → Held id e (rs ++ record { challenge_id = id; expires_at = e } ∷ [])
Held-last id e [] = inl (refl, omega arith)
Held-last id e (r ∷ rs) = inr (Held-last id e rs)

Held-append : (id : Bytes) (e : ℤ) (rs ss : List ReplayRow) → Held id e rs → Held id e (rs ++ ss)
Held-append id e [] ss h = elim h [ ]
Held-append id e (r ∷ rs) ss (inl h) = inl h
Held-append id e (r ∷ rs) ss (inr h) = inr (Held-append id e rs ss h)

Held-keep :
    (id : Bytes) (e now : ℤ) (rs : List ReplayRow)
    → now ≤ℤ e
    → Held id e rs
    → Held id e (keep_replay now rs)
unfolding keep_replay
Held-keep id e now [] le h = elim h [ ]
Held-keep id e now (r ∷ rs) le (inl (same, late)) =
    let stays : ltb_ℤ r.expires_at now ≡ false = ground arith in rw stays (inl (same, late))
Held-keep id e now (r ∷ rs) le (inr h) = elim (Bool-cases (ltb_ℤ r.expires_at now)) [
  | inl gone ↦ rw gone (Held-keep id e now rs le h)
  | inr stays ↦ rw stays (inr (Held-keep id e now rs le h))
]

-- What happens to the store between two requests: other challenges are consumed, and it is purged.
pub data Use : Type 0 where
  consume : Bytes → ℤ → Use
  purge : ℤ → Use

abbrev pub use_store : Use → Database → Database
use_store (consume id e) db = (try_consume id e db).1
use_store (purge now) db = (purge_expired now db).1

abbrev pub use_all : List Use → Database → Database
use_all [] db = db
use_all (u ∷ us) db = use_all us (use_store u db)

-- Purges happen no later than the time `e`.
abbrev pub PurgedBy : ℤ → Use → Type 0
PurgedBy e (consume _ _) = Unit
PurgedBy e (purge now) = now ≤ℤ e

-- The rows after a call of `try_consume`: the same, where the challenge was there, or one more.
try_consume-rows :
    (id : Bytes) (e : ℤ) (db : Database)
    → ((try_consume id e db).1.pow_replay ≡ db.pow_replay)
      ⊎ ((try_consume id e db).1.pow_replay
          ≡ db.pow_replay ++ record { challenge_id = id; expires_at = e } ∷ [])
unfolding try_consume
try_consume-rows id e db = ground arith

use_store-Held :
    (id : Bytes) (e : ℤ) (u : Use) (db : Database)
    → PurgedBy e u
    → Held id e db.pow_replay
    → Held id e (use_store u db).pow_replay
use_store-Held id e (consume j x) db p h = elim (try_consume-rows j x db) [
  | inl same ↦ subst (Held id e) (sym same) h
  | inr more ↦ subst (Held id e) (sym more) (Held-append id e db.pow_replay _ h)
]
use_store-Held id e (purge now) db p h =
    unfold purge_expired in Held-keep id e now db.pow_replay p h

pub use_all-Held :
    (id : Bytes) (e : ℤ) (us : List Use) (db : Database)
    → All (PurgedBy e) us
    → Held id e db.pow_replay
    → Held id e (use_all us db).pow_replay
use_all-Held id e [] db p h = h
use_all-Held id e (u ∷ us) db (pu, p) h =
    use_all-Held id e us (use_store u db) p (use_store-Held id e u db pu h)

try_consume-Held :
    (id : Bytes) (e : ℤ) (db : Database)
    → (try_consume id e db).0 ≡ true
    → Held id e (try_consume id e db).1.pow_replay
unfolding try_consume
try_consume-Held id e db h = elim (Bool-cases (has_challenge id db.pow_replay)) [
  | inl old ↦ absurd (ground arith)
  | inr new ↦ rw new (Held-last id e db.pow_replay)
]

-- A challenge that was consumed until the time `e` is refused ever after, through any further uses of
-- the store whose purges happen no later than `e`.
pub try_consume_once :
    (id : Bytes) (e later : ℤ) (us : List Use) (db : Database)
    → (try_consume id e db).0 ≡ true
    → All (PurgedBy e) us
    → (try_consume id later (use_all us (try_consume id e db).1)).0 ≡ false
unfolding try_consume
try_consume_once id e later us db h p =
    let held = use_all-Held id e us (try_consume id e db).1 p (try_consume-Held id e db h) in
    ground (arith, Held-has id e (use_all us (try_consume id e db).1).pow_replay held)

count_expired-keep :
    (now : ℤ) (rs : List ReplayRow) → count_expired now rs + length (keep_replay now rs) ≡ length rs
unfolding count_expired keep_replay
count_expired-keep now [] = refl
count_expired-keep now (r ∷ rs) = ground (arith, count_expired-keep now rs)

-- A purge reports how many rows it took away.
pub purge_expired-length :
    (now : ℤ) (db : Database)
    → (purge_expired now db).0 + length (purge_expired now db).1.pow_replay ≡ length db.pow_replay
unfolding purge_expired
purge_expired-length now db = count_expired-keep now db.pow_replay
