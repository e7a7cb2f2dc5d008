-- ===== src/App/Account/Secret.antt =====
-- The secret of the proof of work over restarts.
use deltafeedback.Prelude.{
  if◌then◌else◌, ℕ, zero, suc, ◌/◌, ◌^◌, ◌≡◌, ◌≢◌, refl, sym, ap, ◌∙◌, inl, inr, true, false, not,
  List, subst, ◌<◌, [], ◌∷◌, some, Bytes, IsBytes, length, codes, bytes_eq, is_empty, All, bit_and,
  bit_and_255, bit_and_15, all_below, all_below_sound, Bool-cases, arith,
}
use deltafeedback.Pow.Hex.{hex_digit, to_hex, hex_decode}
use deltafeedback.Pow.Hex.RoundTrip.{hex_decode-to_hex}
use deltafeedback.App.Config.{Config, Entry, set, find, get, filled_or, is_blank}
use deltafeedback.App.Config.Blank.{StartsBare, EndsBare, IsBare}
use deltafeedback.App.Config.RoundTrip.{IsClean}
use deltafeedback.App.Account.{
  Disk, Ensured, load_file, load_with_account, save_account, writable_path, random_hex,
  ensure_hmac_secret,
}
use deltafeedback.App.Account.Saved.{account_key, reload, Written}

-- The bytes that the digits stand for.
abbrev pub drawn : (ℕ → ℕ) → ℕ → Bytes
drawn draws zero = []
drawn draws (suc n) = bit_and (draws 0) 0xFF ∷ drawn (λ k. draws (suc k)) n

random_hex-to_hex : (draws : ℕ → ℕ) (n : ℕ) → random_hex draws n ≡ to_hex (drawn draws n)
unfolding random_hex to_hex
random_hex-to_hex draws zero = refl
random_hex-to_hex draws (suc n) =
    ap
      (λ s.
        hex_digit (bit_and (draws 0) 0xFF / 2 ^ 4)
        ∷ hex_digit (bit_and (bit_and (draws 0) 0xFF) 0x0F)
        ∷ s)
      (random_hex-to_hex (λ k. draws (suc k)) n)

drawn-IsBytes : (draws : ℕ → ℕ) (n : ℕ) → IsBytes (drawn draws n) × (length (drawn draws n) ≡ n)
drawn-IsBytes draws zero = (tt, refl)
drawn-IsBytes draws (suc n) =
    let (b, l) = drawn-IsBytes (λ k. draws (suc k)) n in
    ((omega (arith, bit_and_255 (draws 0)), b), omega (arith, l))

-- A digit is no blank, which the end of a line is too.
abbrev IsDark : ℕ → Type 0
IsDark c = is_blank c ≡ false

dark_table : all_below 16 (λ i. not (is_blank (hex_digit i))) ≡ true
unfolding all_below is_blank hex_digit
dark_table = refl

hex_digit-IsDark : (i : ℕ) → i < 16 → IsDark (hex_digit i)
hex_digit-IsDark i h =
    let t = all_below_sound 16 (λ i. not (is_blank (hex_digit i))) i dark_table h in ground arith

random_hex-IsDark : (draws : ℕ → ℕ) (n : ℕ) → All IsDark (random_hex draws n)
unfolding random_hex
random_hex-IsDark draws zero = tt
random_hex-IsDark draws (suc n) =
    let low = bit_and_255 (draws 0) in
    (
      hex_digit-IsDark _ (omega arith),
      (
        hex_digit-IsDark _ (omega (arith, bit_and_15 (bit_and (draws 0) 0xFF))),
        random_hex-IsDark (λ k. draws (suc k)) n,
      ),
    )

dark-IsBare : (s : Bytes) → All IsDark s → IsBare s
dark-IsBare s h = record { starts = starts s h; ends = ends s h }
  where
    starts : (s : Bytes) → All IsDark s → StartsBare s
    starts [] h = tt
    starts (c ∷ s) h = h.0

    ends : (s : Bytes) → All IsDark s → EndsBare s
    ends [] h = tt
    ends (c ∷ []) h = h.0
    ends (c ∷ d ∷ s) h = ends (d ∷ s) h.1

dark-line : (s : Bytes) → All IsDark s → All (λ c. c ≢ 10) s
unfolding is_blank
dark-line [] h = tt
dark-line (c ∷ s) (hc, h) = ((λ e. ground arith), dark-line s h)

abbrev secret_key : Bytes
secret_key = codes "hmac_secret"

secret_key-IsBare : IsBare secret_key
unfolding is_blank
secret_key-IsBare = record { starts = refl; ends = refl }

fresh-IsClean : (draws : ℕ → ℕ) → IsClean (secret_key, random_hex draws 32)
fresh-IsClean draws = record {
  key_bare = secret_key-IsBare;
  value_bare = dark-IsBare _ (random_hex-IsDark draws 32);
  no_eq = omega arith;
  key_line = omega arith;
  value_line = dark-line _ (random_hex-IsDark draws 32);
  no_comment = λ e. refl;
}

other_key : bytes_eq account_key secret_key ≡ false
unfolding bytes_eq
other_key = refl

same_key : bytes_eq secret_key secret_key ≡ true
unfolding bytes_eq
same_key = refl

fresh_filled : (draws : ℕ → ℕ) → is_empty (random_hex draws 32) ≡ false
unfolding random_hex
fresh_filled draws = refl

module _ {F : Type 0} (disk : Disk F) (main_path : Bytes) where
  abbrev pub start : F → (ℕ → ℕ) → Ensured F
  start f draws =
      let cfg = load_with_account disk main_path f in
      ensure_hmac_secret disk draws cfg (writable_path cfg main_path) f

  module _ (f : F) (draws later : ℕ → ℕ) where
    abbrev cfg : Config
    cfg = load_with_account disk main_path f

    abbrev pub Kept : Ensured F → Type 0
    Kept e =
        (get secret_key [] (load_with_account disk main_path e.files) ≡ e.secret)
        × (start e.files later ≡ record {
          secret = e.secret;
          cfg = load_with_account disk main_path e.files;
          files = e.files;
        })

    -- A secret that is there is taken.
    taken :
        (g : F) (s : Bytes)
        → get secret_key [] (load_with_account disk main_path g) ≡ s
        → is_empty s ≡ false
        → start g later ≡ record { secret = s; cfg = load_with_account disk main_path g; files = g }
    unfolding ensure_hmac_secret
    taken g s e full = rw (e, full) refl

    abbrev pub fresh_entry : List Entry
    fresh_entry = (secret_key, random_hex draws 32) ∷ []

    generated :
        is_empty (get secret_key [] cfg) ≡ true
        → start f draws ≡ record {
          secret = random_hex draws 32;
          cfg = set secret_key (random_hex draws 32) cfg;
          files = (save_account disk (writable_path cfg main_path) fresh_entry f).1;
        }
    unfolding ensure_hmac_secret
    generated e = rw e refl

    existing :
        is_empty (get secret_key [] cfg) ≡ false
        → start f draws ≡ record { secret = get secret_key [] cfg; cfg = cfg; files = f }
    unfolding ensure_hmac_secret
    existing e = rw e refl

    fresh_read :
        get account_key [] cfg ≡ get account_key [] (load_file disk main_path f)
        → let path = writable_path cfg main_path in
          let after = (save_account disk path fresh_entry f).1 in
          Written disk path fresh_entry f
          → get secret_key [] (load_with_account disk main_path after) ≡ random_hex draws 32
    unfolding get
    fresh_read one_account saved =
        let after = (save_account disk (writable_path cfg main_path) fresh_entry f).1 in
        let found : find secret_key (load_with_account disk main_path after).kv
            ≡ some (random_hex draws 32) =
          reload disk main_path fresh_entry f secret_key (fresh-IsClean draws, tt) (other_key, tt)
            one_account saved
          ∙ rw same_key refl in
        let filled : filled_or (some (random_hex draws 32)) [] ≡ random_hex draws 32 =
          rw (fresh_filled draws) refl in
        ap (λ o. filled_or o []) found ∙ filled

    -- The secret of the configuration, or one that is drawn.
    secret_is :
        (start f draws).secret
        ≡ (if is_empty (get secret_key [] cfg) then random_hex draws 32 else get secret_key [] cfg)
    unfolding ensure_hmac_secret
    secret_is = ground arith

-- The first start takes the secret of the configuration, or draws one, which stands for 32 drawn bytes,
-- and saves it. If that is written, and the flush of the stream when it is destroyed goes well too, a
-- later start reads the same secret, whatever it would draw, and writes nothing. The account file does not name another account file.
pub start_twice :
    {F : Type 0} (disk : Disk F) (main_path : Bytes) (f : F) (draws later : ℕ → ℕ)
    → let cfg = load_with_account disk main_path f in
      let s = get secret_key [] cfg in
      get account_key [] cfg ≡ get account_key [] (load_file disk main_path f)
      → (is_empty s ≡ true
          → Written disk (writable_path cfg main_path) (fresh_entry disk main_path f draws later) f)
      → ((start disk main_path f draws).secret ≡ (if is_empty s then random_hex draws 32 else s))
        × (hex_decode (random_hex draws 32) ≡ drawn draws 32)
        × Kept disk main_path f draws later (start disk main_path f draws)
start_twice disk main_path f draws later one_account written = (
  secret_is disk main_path f draws later,
  ap hex_decode (random_hex-to_hex draws 32)
      ∙ hex_decode-to_hex (drawn draws 32) (drawn-IsBytes draws 32).0,
  elim (Bool-cases (is_empty (get secret_key [] (load_with_account disk main_path f)))) [
    | inl none_there ↦
        let read = fresh_read disk main_path f draws later one_account (written none_there) in
        subst (Kept disk main_path f draws later)
          (sym (generated disk main_path f draws later none_there))
          (read, taken disk main_path f draws later _ _ read (fresh_filled draws))
    | inr there ↦
        subst (Kept disk main_path f draws later)
          (sym (existing disk main_path f draws later there))
          (refl, taken disk main_path f draws later f _ refl there)
  ],
)
