-- ===== src/Tests/RateLimit.antt =====
-- Runs of the rate limiter and of the handlers behind it.
use deltafeedback.Prelude.{
  ℕ, ◌+◌, ◌-◌, ◌*◌, ◌≤◌, ◌≡◌, refl, true, false, List, [], ◌∷◌, none, some, Bytes, codes, pos,
  length, bytes_eq, arith,
}
use deltafeedback.Db.Schema.{Database}
use deltafeedback.Db.Invariant.{IsConsistent}
use deltafeedback.Server.RateLimit.{Buckets, exact, unit, allow, draw, find_bucket, store_bucket}
use deltafeedback.Server.RateLimit.Keys.{Asked, only, answers, answers-only}
use deltafeedback.Server.RateLimit.Bound.{count_true, Rising, times, answers-bounded}
use deltafeedback.System.{Serves, Step, Reachable}
use deltafeedback.System.Kept.{Reachable-IsConsistent}
use deltafeedback.System.Flood.{Post, posts, posts-bounded}
use deltafeedback.Tests.Feedback.{readings}
use deltafeedback.Tests.Protocol.{form_json}
use deltafeedback.Tests.System.{config, owned_system}
use deltafeedback.Tests.Dc.{quoting}

-- Two addresses; a token is 10 units, a bucket holds 2 tokens and gains a unit in a nanosecond.
abbrev near : Bytes
near = codes "1.1.1.1"

abbrev far : Bytes
far = codes "2.2.2.2"

abbrev requests : List Asked
requests = (near, 5) ∷ (far, 6) ∷ (near, 7) ∷ (near, 8) ∷ (near, 9) ∷ (near, 19) ∷ []

answered : answers (exact 10) 1 20 near requests [] ≡ true ∷ true ∷ false ∷ false ∷ true ∷ []
unfolding answers allow draw find_bucket store_bucket bytes_eq
answered = refl

answers-only_example :
    answers (exact 10) 1 20 near requests [] ≡ answers (exact 10) 1 20 near (only near requests) []
answers-only_example = answers-only (exact 10) 1 20 near requests []

requests_rise : Rising 5 (times near requests) 19
unfolding bytes_eq
requests_rise =
    (omega arith, (omega arith, (omega arith, (omega arith, (omega arith, omega arith)))))

answers-bounded_example :
    count_true (answers (exact 10) 1 20 near requests []) * 10 ≤ 20 + (19 - 5) * 1
answers-bounded_example = answers-bounded 10 1 20 near requests [] 5 19 (omega arith) requests_rise

abbrev two_posts : List Post
two_posts =
    Post.feedback 100 readings (some form_json)
    ∷ Post.reply 200 readings (codes "Bearer x") none (codes "abc")
    ∷ []

abbrev flooded : Buckets ℕ → Database
flooded bs = (posts config near two_posts (bs, owned_system)).1.db

owned-IsConsistent : IsConsistent owned_system.db
owned-IsConsistent =
    Reachable-IsConsistent config owned_system
      (Reachable.step (Reachable.start 0) (Step.serve (Serves.message (pos 5) quoting)))

posts-bounded_example :
    (length (flooded []).tickets * unit ≤ (length owned_system.db.tickets + 6) * unit + (200 - 100))
    × (length (flooded []).messages * unit
        ≤ (length owned_system.db.messages + 6) * unit + (200 - 100))
posts-bounded_example =
    posts-bounded config near two_posts [] owned_system 100 200 (omega arith)
      (omega arith, (omega arith, omega arith)) owned-IsConsistent
