-- ===== src/Feedback/Random.antt =====
-- The random texts of src/feedback/service.cpp. The draws of the generator are an argument: `draws k`
-- is the value of its k-th call, a `uint64_t`.
use deltafeedback.Prelude.{
  true, all_below, all_below_sound, ℕ, suc, ◌+◌, ◌*◌, ◌/◌, ◌%◌, ◌^◌, ◌≡◌, refl, [], ◌∷◌, Bytes,
  IsBytes, length, codes, bit_and, bit_and_31, bit_and_255, get_or, arith,
}
use deltafeedback.Dc.Parse.{is_id_char}
use deltafeedback.Dc.Parse.Marker.{IsId}

-- `kAlpha`.
abbrev id_alphabet : Bytes
id_alphabet = codes "0123456789ABCDEFGHJKMNPQRSTVWXYZ"

-- The loop over the characters of the id.
unfoldable pub id_loop : ℕ → ℕ → Bytes
id_loop ℕ.zero v = []
id_loop (suc n) v = get_or id_alphabet (bit_and v 0x1F) 0 ∷ id_loop n (v / 2 ^ 5)

unfoldable pub make_ticket_id : ℕ → Bytes
unfolding id_loop
make_ticket_id v = id_loop 6 v

-- The two loops of `make_random` as one, from byte `i` on: byte `i` is byte `i % 8` of draw `i / 8`.
unfoldable pub random_loop : (ℕ → ℕ) → ℕ → ℕ → Bytes
random_loop draws i ℕ.zero = []
random_loop draws i (suc n) =
    bit_and (draws (i / 8) / 2 ^ (i % 8 * 8)) 0xFF ∷ random_loop draws (i + 1) n

unfoldable pub make_random : (ℕ → ℕ) → ℕ → Bytes
unfolding random_loop
make_random draws bytes = random_loop draws 0 bytes

id_char_table : all_below 32 (λ i. is_id_char (get_or id_alphabet i 0)) ≡ true
unfolding all_below is_id_char
id_char_table = refl

id_char : (v : ℕ) → is_id_char (get_or id_alphabet (bit_and v 0x1F) 0) ≡ true
id_char v =
    all_below_sound 32 (λ i. is_id_char (get_or id_alphabet i 0)) (bit_and v 0x1F) id_char_table
      (omega (arith, bit_and_31 v))

-- Every ticket id is six characters that the scan for a marker accepts.
pub make_ticket_id-IsId : (v : ℕ) → IsId (make_ticket_id v)
unfolding make_ticket_id id_loop
make_ticket_id-IsId v = (
  id_char v,
  id_char (v / 2 ^ 5),
  id_char (v / 2 ^ 5 / 2 ^ 5),
  id_char (v / 2 ^ 5 / 2 ^ 5 / 2 ^ 5),
  id_char (v / 2 ^ 5 / 2 ^ 5 / 2 ^ 5 / 2 ^ 5),
  id_char (v / 2 ^ 5 / 2 ^ 5 / 2 ^ 5 / 2 ^ 5 / 2 ^ 5),
)

random_loop-IsBytes :
    (draws : ℕ → ℕ) (i n : ℕ)
    → (length (random_loop draws i n) ≡ n) × IsBytes (random_loop draws i n)
unfolding random_loop
random_loop-IsBytes draws i ℕ.zero = (refl, tt)
random_loop-IsBytes draws i (suc n) =
    let (len, bytes) = random_loop-IsBytes draws (i + 1) n in
    (omega arith, (omega (arith, bit_and_255 (draws (i / 8) / 2 ^ (i % 8 * 8))), bytes))

pub make_random-IsBytes :
    (draws : ℕ → ℕ) (n : ℕ) → (length (make_random draws n) ≡ n) × IsBytes (make_random draws n)
unfolding make_random
make_random-IsBytes draws n = random_loop-IsBytes draws 0 n
