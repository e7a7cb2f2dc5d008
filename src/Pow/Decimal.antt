-- ===== src/Pow/Decimal.antt =====
-- `parse_i64`, `parse_uint` and `i64_to_str` of src/pow/challenge.cpp, and the `std::to_string` that
-- the source prints numbers with.
pub mod RoundTrip
use deltafeedback.Prelude.{
  ℕ, zero, suc, ◌+◌, ◌-◌, ◌*◌, ◌/◌, ◌%◌, ◌^◌, Bool, ◌||◌, [], ◌∷◌, Option, none, some, Bytes, ltb,
  ◌==◌, if◌then◌else◌, ℤ, pos, negsuc, signed64,
}

-- The digits of `n` in front of `out`; one round for each digit, and `n` rounds are enough.
unfoldable pub digits : ℕ → ℕ → Bytes → Bytes
digits zero n out = out
digits (suc fuel) n out =
    let out' = (b'0' + n % 10) ∷ out in
    let rest = digits fuel (n / 10) out' in if n / 10 == 0 then out' else rest

-- `std::to_string` of an unsigned number, and of a signed one.
unfoldable pub to_string : ℕ → Bytes
unfolding digits
to_string n = digits (suc n) n []

unfoldable pub i64_to_str : ℤ → Bytes
unfolding to_string
i64_to_str (pos n) = to_string n
i64_to_str (negsuc n) = b'-' ∷ to_string (suc n)

-- The loop of the two parsers, at a word size `m`. For `parse_i64` the source leaves an overflow
-- undefined; here it wraps, as it does in two's complement.
parse_loop : ℕ → Bytes → ℕ → Option ℕ
parse_loop m [] v = some v
parse_loop m (c ∷ s) v =
    if ltb c b'0' || ltb b'9' c then none else parse_loop m s ((v * 10 + (c - b'0')) % m)

abbrev parse_at : ℕ → Bytes → Option ℕ
parse_at m [] = none
parse_at m (c ∷ s) = parse_loop m (c ∷ s) 0

abbrev as_signed : Option ℕ → Option ℤ
as_signed none = none
as_signed (some w) = some (signed64 w)

unfoldable pub parse_i64 : Bytes → Option ℤ
unfolding parse_loop signed64
parse_i64 s = as_signed (parse_at (2 ^ 64) s)

unfoldable pub parse_uint : Bytes → Option ℕ
unfolding parse_loop
parse_uint s = parse_at (2 ^ 32) s
