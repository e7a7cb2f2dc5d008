-- ===== src/Server/RateLimit.antt =====
-- `TokenBucket` of src/server/ratelimit.h and ratelimit.cpp. The type `double` is a parameter with the
-- operations that the code uses; `Exact` computes without rounding, in fixed units. A reading of the
-- steady clock is its count of nanoseconds.
pub mod Keys
pub mod Bound
use deltafeedback.Prelude.{
  ℕ, ◌+◌, ◌-◌, ◌*◌, ◌^◌, Bool, true, false, List, [], ◌∷◌, Option, none, some, Bytes, bytes_eq, ltb,
  leb, ◌==◌, if◌then◌else◌,
}

-- `seconds` is the count of a `duration<double>`.
pub record Double (W : Type 0) : Type 0 where
  pub zero : W
  pub one : W
  pub add : W → W → W
  pub sub : W → W → W
  pub mul : W → W → W
  pub less : W → W → Bool
  pub at_least : W → W → Bool
  pub seconds : ℕ → W

pub record Bucket (W : Type 0) : Type 0 where
  pub tokens : W
  pub last : ℕ

abbrev pub Buckets : Type 0 → Type 0
Buckets W = List (Bytes × Bucket W)

module _ {W : Type 0} where
  unfoldable pub find_bucket : Bytes → Buckets W → Option (Bucket W)
  find_bucket key [] = none
  find_bucket key ((k, b) ∷ bs) = if bytes_eq k key then some b else find_bucket key bs

  -- What is stored under `buckets_[key]`.
  unfoldable pub store_bucket : Bytes → Bucket W → Buckets W → Buckets W
  store_bucket key b [] = (key, b) ∷ []
  store_bucket key b ((k, c) ∷ bs) =
      if bytes_eq k key then (k, b) ∷ bs else (k, c) ∷ store_bucket key b bs

module _ {W : Type 0} (d : Double W) (rate burst : W) where
  -- `std::min(burst_, x)`.
  abbrev pub capped : W → W
  capped x = if d.less x burst then x else burst

  -- A bucket that was never used, or whose last use was at time 0, is filled.
  abbrev pub refill : ℕ → Bucket W → W
  refill now b =
      if b.last == 0 then burst else capped (d.add b.tokens (d.mul (d.seconds (now - b.last)) rate))

  -- The new bucket and the answer.
  unfoldable pub draw : ℕ → Bucket W → Bool × Bucket W
  draw now b =
      let tokens = refill now b in
      if d.at_least tokens d.one
      then (true, record { tokens = d.sub tokens d.one; last = now })
      else (false, record { tokens = tokens; last = now })

  -- `operator[]` makes a missing bucket of zeros.
  abbrev pub bucket_or_new : Option (Bucket W) → Bucket W
  bucket_or_new none = record { tokens = d.zero; last = 0 }
  bucket_or_new (some b) = b

  unfoldable pub allow : Bytes → ℕ → Buckets W → Bool × Buckets W
  unfolding find_bucket store_bucket draw
  allow key now bs =
      let (allowed, b) = draw now (bucket_or_new (find_bucket key bs)) in
      (allowed, store_bucket key b bs)

-- Numbers that are exact, in units of which `unit` make one token; a rate is the units in a nanosecond.
abbrev pub exact : ℕ → Double ℕ
exact unit = record {
  zero = 0;
  one = unit;
  add = λ a b. a + b;
  sub = λ a b. a - b;
  mul = λ a b. a * b;
  less = ltb;
  at_least = λ a b. leb b a;
  seconds = λ n. n;
}

-- The three buckets of the server, in units of 10^-10 tokens: 0.4, 0.1 and 1 token in a second.
abbrev pub unit : ℕ
unit = 10 ^ 10

pub record Rate : Type 0 where
  pub rate : ℕ
  pub burst : ℕ

abbrev pub rl_captcha : Rate
rl_captcha = record { rate = 4; burst = 20 * unit }

abbrev pub rl_submit : Rate
rl_submit = record { rate = 1; burst = 6 * unit }

abbrev pub rl_poll : Rate
rl_poll = record { rate = 10; burst = 60 * unit }
