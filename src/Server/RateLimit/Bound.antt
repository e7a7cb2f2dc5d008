-- ===== src/Server/RateLimit/Bound.antt =====
-- How many requests of one key are let through, for numbers without rounding.
use deltafeedback.Prelude.{
  ℕ, ◌+◌, ◌-◌, ◌*◌, ◌≤◌, ◌≡◌, ◌≢◌, refl, sym, subst, ap, ◌∙◌, inl, inr, Bool, true, false, List, [],
  ◌∷◌, some, Bytes, if◌then◌else◌, bytes_eq, bytes_eq_iff, Bool-cases, arith,
}
use mathlib.Core.Path.{ap₂}
use deltafeedback.Server.RateLimit.{
  Bucket, Buckets, draw, refill, exact, allow, find_bucket, bucket_or_new,
}
use deltafeedback.Server.RateLimit.Keys.{
  Asked, answers, after, answers_own, answers_other, allow_own, allow_other,
}

abbrev pub count_true : List Bool → ℕ
count_true [] = 0
count_true (b ∷ bs) = (if b then 1 else 0) + count_true bs

-- Times that do not fall, from `t` on and up to `u`.
abbrev pub Rising : ℕ → List ℕ → ℕ → Type 0
Rising t [] u = t ≤ u
Rising t (s ∷ ts) u = (t ≤ s) × Rising s ts u

-- When a key asked.
abbrev pub times : Bytes → List Asked → List ℕ
times key [] = []
times key ((k, t) ∷ rs) = if bytes_eq k key then t ∷ times key rs else times key rs

module _ (unit rate burst : ℕ) where
  -- One bucket, asked at these times.
  pub draws : List ℕ → Bucket ℕ → List Bool
  draws [] b = []
  draws (t ∷ ts) b = let (allowed, c) = draw (exact unit) rate burst t b in allowed ∷ draws ts c

  -- What a request takes, the bucket's content pays for.
  draw_pays :
      (t : ℕ) (b : Bucket ℕ)
      → let (allowed, c) = draw (exact unit) rate burst t b in
        ((if allowed then unit else 0) + c.tokens ≡ refill (exact unit) rate burst t b)
        × (c.last ≡ t)
  unfolding draw
  draw_pays t b = ground arith

  -- Between two times, a bucket gains the time at its rate, at most.
  refill_gain :
      (t : ℕ) (b : Bucket ℕ)
      → b.last ≢ 0
      → refill (exact unit) rate burst t b ≤ b.tokens + (t - b.last) * rate
  refill_gain t b ne = ground arith

  Rising-le : (t : ℕ) (ts : List ℕ) (u : ℕ) → Rising t ts u → t ≤ u
  Rising-le t [] u h = h
  Rising-le t (s ∷ ts) u (le, h) = omega (arith, Rising-le s ts u h)

  pay_step :
      (allowed : Bool) (n c r g : ℕ)
      → (if allowed then unit else 0) + c ≡ r
      → n * unit ≤ c + g
      → ((if allowed then 1 else 0) + n) * unit ≤ r + g
  pay_step true n c r g e h = grind arith
  pay_step false n c r g e h = grind arith

  time_step :
      (last t u : ℕ) → last ≤ t → t ≤ u → (u - last) * rate ≡ (t - last) * rate + (u - t) * rate
  time_step last t u h k =
      let whole : u - last ≡ (t - last) + (u - t) = omega arith in
      ap (λ (x : ℕ). x * rate) whole ∙ grind arith

  draws_pay :
      (ts : List ℕ) (b : Bucket ℕ) (u : ℕ)
      → b.last ≢ 0
      → Rising b.last ts u
      → count_true (draws ts b) * unit ≤ b.tokens + (u - b.last) * rate
  unfolding draws
  draws_pay [] b u ne h = omega arith
  draws_pay (t ∷ ts) b u ne (le, h) =
      let (allowed, c) = draw (exact unit) rate burst t b in
      let (pays, last_t) = draw_pays t b in
      let ne' : c.last ≢ 0 = λ e. ne (omega arith) in
      let rising : Rising c.last ts u = subst (λ s. Rising s ts u) (sym last_t) h in
      let later : count_true (draws ts c) * unit ≤ c.tokens + (u - t) * rate =
        subst (λ s. count_true (draws ts c) * unit ≤ c.tokens + (u - s) * rate) last_t
          (draws_pay ts c u ne' rising) in
      let here =
        pay_step allowed (count_true (draws ts c)) c.tokens _ ((u - t) * rate) pays later in
      omega (arith, here, refill_gain t b ne, time_step b.last t u le (Rising-le t ts u h))

  refill-le : (t : ℕ) (b : Bucket ℕ) → refill (exact unit) rate burst t b ≤ burst
  refill-le t b = ground arith

  -- From a time on, whatever was left in the bucket then.
  draws_window :
      (from : ℕ) (ts : List ℕ) (b : Bucket ℕ) (u : ℕ)
      → from ≢ 0
      → Rising from ts u
      → count_true (draws ts b) * unit ≤ burst + (u - from) * rate
  unfolding draws
  draws_window from [] b u ne h = omega arith
  draws_window from (t ∷ ts) b u ne (le, h) =
      let (allowed, c) = draw (exact unit) rate burst t b in
      let (pays, last_t) = draw_pays t b in
      let ne' : c.last ≢ 0 = λ e. ne (omega arith) in
      let rising : Rising c.last ts u = subst (λ s. Rising s ts u) (sym last_t) h in
      let later : count_true (draws ts c) * unit ≤ c.tokens + (u - t) * rate =
        subst (λ s. count_true (draws ts c) * unit ≤ c.tokens + (u - s) * rate) last_t
          (draws_pay ts c u ne' rising) in
      let here =
        pay_step allowed (count_true (draws ts c)) c.tokens _ ((u - t) * rate) pays later in
      omega (arith, here, refill-le t b, time_step from t u le (Rising-le t ts u h))

  abbrev bucket_of : Bytes → Buckets ℕ → Bucket ℕ
  bucket_of key bs = bucket_or_new (exact unit) rate burst (find_bucket key bs)

  answers-draws :
      (key : Bytes) (rs : List Asked) (bs : Buckets ℕ)
      → answers (exact unit) rate burst key rs bs ≡ draws (times key rs) (bucket_of key bs)
  answers-draws key [] bs = unfold answers in unfold draws in refl
  answers-draws key ((k, t) ∷ rs) bs = elim (Bool-cases (bytes_eq k key)) [
    | inl own ↦
        let e : k ≡ key = (bytes_eq_iff k key).0 own in
        let c = (draw (exact unit) rate burst t (bucket_of key bs)).1 in
        let first : (allow (exact unit) rate burst k t bs).0
            ≡ (draw (exact unit) rate burst t (bucket_of key bs)).0 =
          unfold allow in ap (λ j. (draw (exact unit) rate burst t (bucket_of j bs)).0) e in
        let later : answers (exact unit) rate burst key rs (after (exact unit) rate burst k t bs)
            ≡ draws (times key rs) c =
          answers-draws key rs (after (exact unit) rate burst k t bs)
          ∙ ap (λ o. draws (times key rs) (bucket_or_new (exact unit) rate burst o))
              (subst
                (λ j.
                  find_bucket j (after (exact unit) rate burst k t bs)
                  ≡ some (draw (exact unit) rate burst t (bucket_of j bs)).1)
                e (allow_own (exact unit) rate burst k t bs)) in
        answers_own (exact unit) rate burst key k t rs bs own
        ∙ ap₂ (λ x xs. x ∷ xs) first later
        ∙ rw own (unfold draws in refl)
    | inr other ↦
        answers_other (exact unit) rate burst key k t rs bs other
        ∙ answers-draws key rs (after (exact unit) rate burst k t bs)
        ∙ ap (λ o. draws (times key rs) (bucket_or_new (exact unit) rate burst o))
            (allow_other (exact unit) rate burst key k t bs other)
        ∙ rw other refl
  ]

-- In any span of time, from `from` to `upto`, the requests of one key that are let through, among those
-- of all keys and whatever the buckets held, are at most the burst and what the rate gives in that
-- time: their number in units is at most `burst + (upto - from) * rate`. The times do not fall, the
-- clock does not read 0, and the numbers are computed without rounding.
pub answers-bounded :
    (unit rate burst : ℕ) (key : Bytes) (rs : List Asked) (bs : Buckets ℕ) (from upto : ℕ)
    → from ≢ 0
    → Rising from (times key rs) upto
    → count_true (answers (exact unit) rate burst key rs bs) * unit ≤ burst + (upto - from) * rate
answers-bounded unit rate burst key rs bs from upto ne rising =
    rw (answers-draws unit rate burst key rs bs) (
      draws_window unit rate burst from (times key rs) (bucket_of unit rate burst key bs) upto ne
        rising)
