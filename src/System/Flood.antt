-- ===== src/System/Flood.antt =====
-- The handler of POST /api/feedback in src/server/server.cpp behind its rate limiter, for one visitor.
use deltafeedback.Prelude.{
  ℕ, ◌+◌, ◌-◌, ◌*◌, ◌≤◌, ◌≡◌, ◌≢◌, refl, sym, ap, subst, Bool, true, false, List, [], ◌∷◌, Option,
  Bytes, ℤ, bytes_eq_refl, length, length-append, map, if◌then◌else◌, arith,
}
use deltafeedback.Db.Schema.{Database, TicketRow}
use deltafeedback.Db.Tickets.{update_status, update_closed, set_status, close}
use deltafeedback.Db.Invariant.{IsConsistent}
use deltafeedback.Feedback.Forms.{Readings}
use deltafeedback.Server.Handlers.{Json, post_feedback, post_reply}
use deltafeedback.Server.RateLimit.{Buckets, exact, allow, unit, rl_submit}
use deltafeedback.Server.RateLimit.Keys.{Asked, answers, answers_own}
use deltafeedback.Server.RateLimit.Bound.{count_true, Rising, times, answers-bounded}
use deltafeedback.System.{Config, SystemState, Serves, setup_of, world_of, with_world}
use deltafeedback.System.Kept.{Serves-IsConsistent, IsConsistent-IdsBelow}
use deltafeedback.System.Protocol.Changes.{Change}
use deltafeedback.System.Protocol.Refines.{Serves-Change}

-- A request of the visitor: the reading of the steady clock, those of the service, and what is sent.
pub data Post : Type 0 where
  feedback : ℕ → Readings → Option Json → Post
  reply : ℕ → Readings → Bytes → Option Json → Bytes → Post

abbrev pub post_time : Post → ℕ
post_time (Post.feedback now r body) = now
post_time (Post.reply now r authorization body id) = now

-- The handler's answer to a post that was let through or not.
unfoldable pub handle_post :
    {D : Type 0} → Config D → Bytes → Bool → Post → SystemState D → SystemState D
handle_post c ip allowed (Post.feedback now r body) s =
    with_world c s (post_feedback (setup_of c) r allowed body ip (world_of c s)).1
handle_post c ip allowed (Post.reply now r authorization body id) s =
    with_world c s (post_reply (setup_of c) r allowed authorization body id ip (world_of c s)).1

-- Both handlers draw from the same limiter, with the visitor's address as the key.
abbrev pub draw_submit : Bytes → Post → Buckets ℕ → Bool × Buckets ℕ
draw_submit ip p bs = allow (exact unit) rl_submit.rate rl_submit.burst ip (post_time p) bs

unfoldable pub limited_post :
    {D : Type 0} → Config D → Bytes → Post → Buckets ℕ × SystemState D → Buckets ℕ × SystemState D
unfolding handle_post
limited_post c ip p (bs, s) =
    let (allowed, left) = draw_submit ip p bs in (left, handle_post c ip allowed p s)

unfoldable pub posts :
    {D : Type 0}
    → Config D
    → Bytes
    → List Post
    → Buckets ℕ × SystemState D
    → Buckets ℕ × SystemState D
unfolding limited_post
posts c ip [] x = x
posts c ip (p ∷ ps) x = posts c ip ps (limited_post c ip p x)

length-update_status :
    (id status : Bytes) (rs : List TicketRow) → length (update_status id status rs) ≡ length rs
unfolding update_status
length-update_status id status [] = refl
length-update_status id status (r ∷ rs) = omega (arith, length-update_status id status rs)

length-update_closed :
    (id : Bytes) (at : ℤ) (rs : List TicketRow) → length (update_closed id at rs) ≡ length rs
unfolding update_closed
length-update_closed id at [] = refl
length-update_closed id at (r ∷ rs) = omega (arith, length-update_closed id at rs)

-- At most `n` tickets more, and at most `n` messages.
abbrev pub Grows : ℕ → Database → Database → Type 0
Grows n db after =
    (length after.tickets ≤ length db.tickets + n)
    × (length after.messages ≤ length db.messages + n)

Change-Grows : (db after : Database) → Change db after → Grows 1 db after
unfolding set_status close
Change-Grows db after (Change.unchanged ts ms) =
    (omega (arith, ap length ts), omega (arith, ap length ms))
Change-Grows db after (Change.opening t row_id body ip at dc free ts ms) = (
  omega (arith, ap length ts, length-append db.tickets _),
  omega (arith, ap length ms, length-append db.messages _),
)
Change-Grows db after (Change.speaking id t who row_id body ip at dc found may ts ms) = (
  omega (arith, ap length ts, length-update_status id _ db.tickets),
  omega (arith, ap length ms, length-append db.messages _),
)
Change-Grows db after (Change.closing id t at found running ts ms) = (
  omega (arith, ap length ts, length-update_closed id at db.tickets),
  omega (arith, ap length ms),
)

module _ {D : Type 0} (c : Config D) (ip : Bytes) where
  handle_post-Serves :
      (allowed : Bool) (p : Post) (s : SystemState D) → Serves c s (handle_post c ip allowed p s)
  unfolding handle_post
  handle_post-Serves allowed (Post.feedback now r body) s = Serves.feedback r allowed body ip
  handle_post-Serves allowed (Post.reply now r authorization body id) s =
      Serves.reply r allowed authorization body id ip

  handle_post-refused : (p : Post) (s : SystemState D) → (handle_post c ip false p s).db ≡ s.db
  unfolding handle_post post_feedback post_reply
  handle_post-refused (Post.feedback now r body) s = refl
  handle_post-refused (Post.reply now r authorization body id) s = refl

  handle_post-Grows :
      (allowed : Bool) (p : Post) (s : SystemState D)
      → IsConsistent s.db
      → Grows (if allowed then 1 else 0) s.db (handle_post c ip allowed p s).db
  handle_post-Grows true p s h =
      Change-Grows s.db _
        (Serves-Change c s _ (handle_post-Serves true p s) (IsConsistent-IdsBelow s.db h))
  handle_post-Grows false p s h = (
    omega (arith, ap (λ db. length db.tickets) (handle_post-refused p s)),
    omega (arith, ap (λ db. length db.messages) (handle_post-refused p s)),
  )

  asked : List Post → List Asked
  asked [] = []
  asked (p ∷ ps) = (ip, post_time p) ∷ asked ps

  passed : List Post → Buckets ℕ → List Bool
  passed ps bs = answers (exact unit) rl_submit.rate rl_submit.burst ip (asked ps) bs

  passed_step :
      (p : Post) (ps : List Post) (bs : Buckets ℕ)
      → passed (p ∷ ps) bs ≡ (draw_submit ip p bs).0 ∷ passed ps (draw_submit ip p bs).1
  unfolding passed asked
  passed_step p ps bs =
      answers_own (exact unit) rl_submit.rate rl_submit.burst ip ip (post_time p) (asked ps) bs
        (bytes_eq_refl ip)

  Grows-then : (n m : ℕ) (x y z : Database) → Grows n x y → Grows m y z → Grows (n + m) x z
  Grows-then n m x y z (a, b) (d, e) = (omega arith, omega arith)

  posts-Grows :
      (ps : List Post) (bs : Buckets ℕ) (s : SystemState D)
      → IsConsistent s.db
      → Grows (count_true (passed ps bs)) s.db (posts c ip ps (bs, s)).1.db
  unfolding posts limited_post passed asked answers
  posts-Grows [] bs s h = (omega arith, omega arith)
  posts-Grows (p ∷ ps) bs s h =
      let allowed = (draw_submit ip p bs).0 in
      let mid = handle_post c ip allowed p s in
      let kept = Serves-IsConsistent c s mid (handle_post-Serves allowed p s) h in
      subst (λ xs. Grows (count_true xs) s.db (posts c ip (p ∷ ps) (bs, s)).1.db)
        (sym (passed_step p ps bs))
        (Grows-then (if allowed then 1 else 0) (count_true (passed ps (draw_submit ip p bs).1)) s.db
          mid.db (posts c ip (p ∷ ps) (bs, s)).1.db (handle_post-Grows allowed p s h)
          (posts-Grows ps (draw_submit ip p bs).1 mid kept))

  times-asked : (ps : List Post) → times ip (asked ps) ≡ map post_time ps
  unfolding asked
  times-asked [] = refl
  times-asked (p ∷ ps) = rw (bytes_eq_refl, times-asked ps) refl

-- However often a visitor posts new tickets and replies between the times `from` and `upto`, in any
-- order, and whatever the buckets held before, the tickets and the messages that are stored are at
-- most 6 and one more for each ten seconds of that time (10^10 units of a nanosecond). The tables are
-- consistent at first, the times do not fall, the clock does not read 0, and the buckets are computed
-- without rounding.
pub posts-bounded :
    {D : Type 0} (c : Config D) (ip : Bytes) (ps : List Post) (bs : Buckets ℕ) (s : SystemState D)
    (from upto : ℕ)
    → from ≢ 0
    → Rising from (map post_time ps) upto
    → IsConsistent s.db
    → let after = (posts c ip ps (bs, s)).1.db in
      (length after.tickets * unit ≤ (length s.db.tickets + 6) * unit + (upto - from))
      × (length after.messages * unit ≤ (length s.db.messages + 6) * unit + (upto - from))
unfolding passed
posts-bounded c ip ps bs s from upto ne rising h =
    let bound =
      answers-bounded unit rl_submit.rate rl_submit.burst ip (asked c ip ps) bs from upto ne
        (subst (λ ts. Rising from ts upto) (sym (times-asked c ip ps)) rising) in
    let (ts, ms) = posts-Grows c ip ps bs s h in
    (omega (arith, bound, ts), omega (arith, bound, ms))
