-- ===== src/App/Account.antt =====
-- The functions of src/main.cpp on the configuration file and the account file. The file system is the
-- parameter `disk`; two paths that differ are two files.
pub mod Saved
pub mod Secret
use deltafeedback.Prelude.{
  ℕ, zero, suc, ◌/◌, ◌^◌, ◌+◌, ◌≡◌, ◌≢◌, Bool, true, false, List, [], ◌∷◌, Option, none, some,
  Bytes, codes, bit_and, is_empty, if◌then◌else◌,
}
use deltafeedback.Pow.Hex.{hex_digit}
use deltafeedback.App.Config.{Config, Entry, put, load, print, get, set}
use deltafeedback.App.Config.Dictionary.{put_all}

-- Reading a whole file, `none` if it cannot be opened, and `std::ofstream` with its writes, which say
-- whether the stream is good. The text may still be in the stream's buffer then: `flushed` is how the
-- flush ends when the stream is destroyed, which the code does not ask. A write that failed, or whose
-- flush failed, may leave anything in its own file.
pub record Disk (F : Type 0) : Type 0 where
  pub read : Bytes → F → Option Bytes
  pub write : Bytes → Bytes → F → Bool × F
  pub flushed : Bytes → Bytes → F → Bool
  pub read-write :
      (path text : Bytes) (f : F)
      → (write path text f).0 ≡ true
      → flushed path text f ≡ true
      → read path (write path text f).1 ≡ some text
  pub read-write_other :
      (path other text : Bytes) (f : F)
      → other ≢ path
      → read other (write path text f).1 ≡ read other f

-- A stream that is not open has no lines.
abbrev pub text_or_empty : Option Bytes → Bytes
text_or_empty none = []
text_or_empty (some s) = s

module _ {F : Type 0} (disk : Disk F) where
  unfoldable pub load_file : Bytes → F → Config
  load_file path f = load (text_or_empty (disk.read path f))

  unfoldable pub save : Bytes → Config → F → Bool × F
  save path c f = disk.write path (print c.kv) f

  abbrev pub overlay : Bytes → Config → F → Config
  overlay acc cfg f =
      if is_empty acc then cfg else record { kv = put_all cfg.kv (load_file acc f).kv }

  unfoldable pub load_with_account : Bytes → F → Config
  unfolding load_file
  load_with_account main_path f =
      let cfg = load_file main_path f in overlay (get (codes "account_path") [] cfg) cfg f

  unfoldable pub save_account : Bytes → List Entry → F → Bool × F
  unfolding load_file save
  save_account path kv f = save path (record { kv = put_all (load_file path f).kv kv }) f

  -- How the flush of `save_account` ends.
  abbrev pub account_flushed : Bytes → List Entry → F → Bool
  account_flushed path kv f = disk.flushed path (print (put_all (load_file path f).kv kv)) f

unfoldable pub writable_path : Config → Bytes → Bytes
writable_path cfg main_path =
    let a = get (codes "account_path") [] cfg in if is_empty a then main_path else a

-- The loop of `random_hex`; `draws k` is the value of the k-th call of the generator.
unfoldable pub random_hex : (ℕ → ℕ) → ℕ → Bytes
unfolding hex_digit
random_hex draws zero = []
random_hex draws (suc n) =
    let b = bit_and (draws 0) 0xFF in
    hex_digit (b / 2 ^ 4) ∷ hex_digit (bit_and b 0x0F) ∷ random_hex (λ k. draws (suc k)) n

-- The secret and the configuration afterwards, with what was written.
pub record Ensured (F : Type 0) : Type 0 where
  pub secret : Bytes
  pub cfg : Config
  pub files : F

unfoldable pub ensure_hmac_secret : {F : Type 0} → Disk F → (ℕ → ℕ) → Config → Bytes → F → Ensured F
unfolding random_hex save_account
ensure_hmac_secret disk draws cfg writable f =
    let s = get (codes "hmac_secret") [] cfg in
    if is_empty s
    then (let fresh = random_hex draws 32 in
        record {
          secret = fresh;
          cfg = set (codes "hmac_secret") fresh cfg;
          files = (save_account disk writable ((codes "hmac_secret", fresh) ∷ []) f).1;
        })
    else record { secret = s; cfg = cfg; files = f }
