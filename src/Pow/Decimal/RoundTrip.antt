-- ===== src/Pow/Decimal/RoundTrip.antt =====
-- Parsing what was printed.
use deltafeedback.Prelude.{
  ℕ, zero, suc, ◌+◌, ◌*◌, ◌/◌, ◌%◌, ◌^◌, ◌<◌, ◌≡◌, refl, sym, ap, ◌∙◌, [], ◌∷◌, some, inl, inr,
  Bytes, Bool-cases, ◌==◌, arith, pos, signed64, Lacks,
}
use native.Mathlib.Nat.{mod-eq_of_lt}
use deltafeedback.Pow.Decimal.{
  digits, to_string, i64_to_str, parse_loop, parse_at, parse_i64, parse_uint,
}

parse_digit :
    (m d v : ℕ) (out : Bytes)
    → d < 10
    → parse_loop m ((b'0' + d) ∷ out) v ≡ parse_loop m out ((v * 10 + d) % m)
unfolding parse_loop
parse_digit m d v out h = ground arith

-- Reading the digits of `n` comes to reading what is behind them with the value `n`.
parse_loop-digits :
    (m fuel n : ℕ) (out : Bytes)
    → n < m
    → n < fuel
    → parse_loop m (digits fuel n out) 0 ≡ parse_loop m out n
unfolding digits
parse_loop-digits m zero n out p h = absurd (omega arith)
parse_loop-digits m (suc fuel) n out p h = elim (Bool-cases (n / 10 == 0)) [
  | inl e ↦ rw e (parse_digit m (n % 10) 0 out (omega arith) ∙ settle (ground arith))
  | inr e ↦ rw e (
      parse_loop-digits m fuel (n / 10) _ (omega arith) (ground arith)
      ∙ parse_digit m (n % 10) (n / 10) out (omega arith)
      ∙ settle (omega arith))
]
  where
    settle : {v : ℕ} → v ≡ n → parse_loop m out (v % m) ≡ parse_loop m out n
    settle e = rw (e, mod-eq_of_lt p)

digits-cons : (fuel n : ℕ) (out : Bytes) → (c : ℕ) × (s : Bytes) × (digits (suc fuel) n out ≡ c ∷ s)
unfolding digits
digits-cons zero n out = (b'0' + n % 10, out, ground arith)
digits-cons (suc fuel) n out = elim (Bool-cases (n / 10 == 0)) [
  | inl e ↦ (b'0' + n % 10, out, rw e)
  | inr e ↦ let (c, s, q) = digits-cons fuel (n / 10) ((b'0' + n % 10) ∷ out) in (c, s, rw e q)
]

parse_at-to_string : (m n : ℕ) → n < m → parse_at m (to_string n) ≡ some n
unfolding to_string
parse_at-to_string m n h =
    let (c, s, e) = digits-cons n n [] in
    rw e (rw (← e) (parse_loop-digits m (suc n) n [] h (omega arith) ∙ parse_end))
  where
    parse_end : parse_loop m [] n ≡ some n
    parse_end = unfold parse_loop in refl

-- `parse_uint` reads back every 32-bit number that `std::to_string` printed.
pub parse_uint-to_string : (n : ℕ) → n < 2 ^ 32 → parse_uint (to_string n) ≡ some n
unfolding parse_uint
parse_uint-to_string n h = parse_at-to_string (2 ^ 32) n h

-- `parse_i64` reads back every non-negative 64-bit number that `i64_to_str` printed.
pub parse_i64-i64_to_str : (n : ℕ) → n < 2 ^ 63 → parse_i64 (i64_to_str (pos n)) ≡ some (pos n)
unfolding parse_i64 i64_to_str signed64
parse_i64-i64_to_str n h = rw (parse_at-to_string (2 ^ 64) n (omega arith)) (ground arith)

digits-Lacks :
    (b : ℕ) → b < b'0' → (fuel n : ℕ) (out : Bytes) → Lacks b out → Lacks b (digits fuel n out)
unfolding digits
digits-Lacks b low zero n out h = h
digits-Lacks b low (suc fuel) n out h =
    ground (arith, digits-Lacks b low fuel (n / 10) ((b'0' + n % 10) ∷ out) (omega arith, h))

-- No byte before the digits occurs.
pub to_string-Lacks_below : (b n : ℕ) → b < b'0' → Lacks b (to_string n)
unfolding to_string
to_string-Lacks_below b n low = digits-Lacks b low (suc n) n [] tt

pub to_string-Lacks : (n : ℕ) → Lacks b'.' (to_string n)
to_string-Lacks n = to_string-Lacks_below b'.' n (omega arith)

some_eq : {a b : ℕ} → some a ≡ some b → a ≡ b
some_eq e = ground arith

pub to_string-injective : (a b : ℕ) → to_string a ≡ to_string b → a ≡ b
to_string-injective a b e =
    let m = a + b + 1 in
    some_eq (
      sym (parse_at-to_string m a (omega arith))
      ∙ ap (parse_at m) e
      ∙ parse_at-to_string m b (omega arith))

pub to_string-cons : (n : ℕ) → (c : ℕ) × (s : Bytes) × (to_string n ≡ c ∷ s)
unfolding to_string
to_string-cons n = digits-cons n n []
