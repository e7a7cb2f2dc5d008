-- ===== src/Db/Replay.antt =====
-- `ReplayStore` of src/db/replay.h and replay.cpp.
pub mod Once
use deltafeedback.Prelude.{
  ℕ, suc, ◌+◌, Bool, true, false, List, [], ◌∷◌, ◌++◌, Bytes, bytes_eq, if◌then◌else◌, ℤ, ltb_ℤ,
}
use deltafeedback.Db.Schema.{ReplayRow, Database}

-- Whether the primary key is taken.
unfoldable pub has_challenge : Bytes → List ReplayRow → Bool
has_challenge id [] = false
has_challenge id (r ∷ rs) = if bytes_eq r.challenge_id id then true else has_challenge id rs

-- `kReplayInsert`, with the test of `sqlite3_changes`.
unfoldable pub try_consume : Bytes → ℤ → Database → Bool × Database
try_consume id expires_at db = if has_challenge id db.pow_replay then (false, db) else (
  true,
  record db {
    pow_replay = db.pow_replay ++ record { challenge_id = id; expires_at = expires_at } ∷ [];
  },
)

-- `kReplayPurge`: the rows that stay, and how many go.
unfoldable pub keep_replay : ℤ → List ReplayRow → List ReplayRow
keep_replay now [] = []
keep_replay now (r ∷ rs) =
    if ltb_ℤ r.expires_at now then keep_replay now rs else r ∷ keep_replay now rs

unfoldable pub count_expired : ℤ → List ReplayRow → ℕ
count_expired now [] = 0
count_expired now (r ∷ rs) = (if ltb_ℤ r.expires_at now then 1 else 0) + count_expired now rs

unfoldable pub purge_expired : ℤ → Database → ℕ × Database
purge_expired now db =
    (count_expired now db.pow_replay, record db { pow_replay = keep_replay now db.pow_replay })
