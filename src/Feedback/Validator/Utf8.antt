-- ===== src/Feedback/Validator/Utf8.antt =====
-- The count of code points against a UTF-8 encoder.
use deltafeedback.Prelude.{
  ℕ, suc, ◌+◌, ◌/◌, ◌%◌, ◌≤◌, ◌<◌, ◌≡◌, ◌⊎◌, refl, true, [], ◌∷◌, ◌++◌, List, Bytes, All, bit_and,
  ◌==◌, ltb, leb, if◌then◌else◌, length, utf8_encode, all_below, all_below_sound, Bool, ◌||◌, ◌&&◌,
  arith,
}
use deltafeedback.Feedback.Validator.{utf8_codepoint_count}

-- The UTF-8 form of a text of code points.
abbrev pub encode_text : List ℕ → Bytes
encode_text [] = []
encode_text (c ∷ s) = utf8_encode c ++ encode_text s

abbrev continues : ℕ → Bool
continues c = bit_and c 0xC0 == 0x80

-- A byte is a continuation exactly from 0x80 to 0xBF, by evaluation.
continues_table :
    all_below 256 (λ c. if continues c then leb 0x80 c && ltb c 0xC0 else ltb c 0x80 || leb 0xC0 c)
    ≡ true
unfolding all_below
continues_table = refl

count-lead :
    (c : ℕ) (s : Bytes)
    → c < 0x80 ⊎ 0xC0 ≤ c
    → c < 256
    → utf8_codepoint_count (c ∷ s) ≡ suc (utf8_codepoint_count s)
unfolding utf8_codepoint_count
count-lead c s d h = ground (
  arith,
  all_below_sound 256
      (λ c. if continues c then leb 0x80 c && ltb c 0xC0 else ltb c 0x80 || leb 0xC0 c) c
      continues_table h,
)

count-continuation :
    (x : ℕ) (s : Bytes) → x < 64 → utf8_codepoint_count ((0x80 + x) ∷ s) ≡ utf8_codepoint_count s
unfolding utf8_codepoint_count
count-continuation x s h = ground (
  arith,
  all_below_sound 256
      (λ c. if continues c then leb 0x80 c && ltb c 0xC0 else ltb c 0x80 || leb 0xC0 c) (0x80 + x)
      continues_table (omega arith),
)

count-utf8_encode :
    (c : ℕ) (s : Bytes)
    → c < 0x11_0000
    → utf8_codepoint_count (utf8_encode c ++ s) ≡ suc (utf8_codepoint_count s)
unfolding utf8_encode
count-utf8_encode c s h = ground (
  arith,
  count-lead c s,
  count-lead (0xC0 + c / 64) ((0x80 + c % 64) ∷ s),
  count-lead (0xE0 + c / 4096) ((0x80 + c / 64 % 64) ∷ (0x80 + c % 64) ∷ s),
  count-lead (0xF0 + c / 262144)
      ((0x80 + c / 4096 % 64) ∷ (0x80 + c / 64 % 64) ∷ (0x80 + c % 64) ∷ s),
  count-continuation (c % 64) s (omega arith),
  count-continuation (c / 64 % 64) ((0x80 + c % 64) ∷ s) (omega arith),
  count-continuation (c / 4096 % 64) ((0x80 + c / 64 % 64) ∷ (0x80 + c % 64) ∷ s) (omega arith),
)

-- The count of a UTF-8 text is its number of code points, however many bytes each takes.
pub utf8_codepoint_count-encode_text :
    (s : List ℕ) → All (λ c. c < 0x11_0000) s → utf8_codepoint_count (encode_text s) ≡ length s
utf8_codepoint_count-encode_text [] h = unfold utf8_codepoint_count in refl
utf8_codepoint_count-encode_text (c ∷ s) (hc, h) =
    omega (arith, count-utf8_encode c (encode_text s) hc, utf8_codepoint_count-encode_text s h)
