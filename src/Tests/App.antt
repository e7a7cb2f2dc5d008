-- ===== src/Tests/App.antt =====
-- src/app and the commands of src/main.cpp.
use deltafeedback.Prelude.{
  is_empty, ℕ, ◌≡◌, ◌≢◌, refl, sym, ◌∙◌, true, false, List, [], ◌∷◌, Option, none, some, Bytes,
  codes, bytes_eq, bytes_eq_iff, bytes_eq_refl, if◌then◌else◌, pos, negsuc, arith,
}
use deltafeedback.Pow.Hex.{hex_decode}
use deltafeedback.Dc.Parse.{is_space}
use deltafeedback.Dc.Bot.Configure.{ConfigureEvent, Account, wait_configure}
use deltafeedback.App.Config.{Config, Entry, load, print, get, stoi, put, trim, is_blank}
use deltafeedback.App.Config.RoundTrip.{IsClean}
use deltafeedback.App.Config.Dictionary.{put_all}
use deltafeedback.App.Config.Loaded.{load-print-load}
use deltafeedback.App.Account.{
  random_hex, Disk, load_file, load_with_account, save, save_account, writable_path,
}
use deltafeedback.App.Account.Secret
use deltafeedback.App.Account.Secret.{drawn, start_twice}
use deltafeedback.App.Commands.{main, run_with, Registrar, Settings, cmd_register, cmd_run}
use deltafeedback.App.Commands.Restarted.{IsLine, register_then_run}

-- Files by path, all of which can be written.
abbrev Files : Type 0
Files = Bytes → Option Bytes

abbrev update : Bytes → Bytes → Files → Files
update path text f p = if bytes_eq p path then some text else f p

update_same :
    (path text : Bytes) (f : Files)
    → true ≡ true
    → true ≡ true
    → update path text f path ≡ some text
update_same path text f good flushed = rw bytes_eq_refl refl

update_other :
    (path other text : Bytes) (f : Files) → other ≢ path → update path text f other ≡ f other
update_other path other text f ne = ground (arith, bytes_eq_iff other path)

abbrev ram : Disk Files
ram = record {
  read = λ path f. f path;
  write = λ path text f. (true, update path text f);
  flushed = λ path text f. true;
  read-write = update_same;
  read-write_other = update_other;
}

abbrev text : Bytes
text = codes "# c\n b = 2 \na=1\nb=3"

loaded : load text ≡ record { kv = (codes "a", codes "1") ∷ (codes "b", codes "3") ∷ [] }
unfolding load put bytes_eq trim
loaded = refl

stoi_negative : stoi (codes " -12x") ≡ some (negsuc 11)
unfolding stoi is_space
stoi_negative = refl

main_run : main (codes "p" ∷ codes "--run" ∷ []) ≡ run_with (codes "./config.ini")
unfolding main
main_run = refl

-- A configuration that names an account file, which is not there yet.
abbrev two_files : Files
two_files = update (codes "c") (codes "account_path=a\nport=80\n") (λ p. none)

account_named :
    get (codes "account_path") [] (load_with_account ram (codes "c") two_files) ≡ codes "a"
unfolding get load_with_account load put bytes_eq trim put_all
account_named = refl

account_in_main : get (codes "account_path") [] (load_file ram (codes "c") two_files) ≡ codes "a"
unfolding get load_file load put bytes_eq trim
account_in_main = refl

load-print-load_example : load (print (load text).kv) ≡ load text
load-print-load_example = load-print-load text

abbrev bits : List Entry
bits = (codes "pow_difficulty_bits", codes "20") ∷ []

bits-IsClean : IsClean (codes "pow_difficulty_bits", codes "20")
unfolding is_blank
bits-IsClean = record {
  key_bare = record { starts = refl; ends = refl };
  value_bare = record { starts = refl; ends = refl };
  no_eq = omega arith;
  key_line = omega arith;
  value_line = omega arith;
  no_comment = λ _. refl;
}

bits_other : bytes_eq (codes "account_path") (codes "pow_difficulty_bits") ≡ false
unfolding bytes_eq
bits_other = refl

written :
    (c : Config) (kv : List Entry)
    → (save_account ram (writable_path c (codes "c")) kv two_files).0 ≡ true
unfolding save_account save
written c kv = refl

abbrev two_files_cfg : Config
two_files_cfg = load_with_account ram (codes "c") two_files

one_account :
    get (codes "account_path") [] two_files_cfg
    ≡ get (codes "account_path") [] (load_file ram (codes "c") two_files)
one_account = account_named ∙ sym account_in_main

abbrev ones : ℕ → ℕ
ones k = 1

abbrev twos : ℕ → ℕ
twos k = 2

start_twice_example :
    ((Secret.start ram (codes "c") two_files ones).secret ≡ (
      if is_empty (get (codes "hmac_secret") [] two_files_cfg)
      then random_hex ones 32
      else get (codes "hmac_secret") [] two_files_cfg))
    × (hex_decode (random_hex ones 32) ≡ drawn ones 32)
    × Secret.Kept ram (codes "c") two_files ones twos (Secret.start ram (codes "c") two_files ones)
start_twice_example =
    start_twice ram (codes "c") two_files ones twos one_account
      (λ _. (written two_files_cfg _, refl))

abbrev registrar : Registrar
registrar = record {
  context = true;
  is_account_qr = λ qr. true;
  set_config_from_qr = λ qr. true;
  events = ConfigureEvent.configure_progress (pos 1000) ∷ [];
  configured_addr = some (codes "a@b");
  mail_pw = some (codes "pw");
}

abbrev configured : Account
configured = record { is_configured = true; emitter = none }

addr-IsLine : IsLine (codes "a@b")
unfolding is_blank
addr-IsLine = record { bare = record { starts = refl; ends = refl }; line = omega arith }

pw-IsLine : IsLine (codes "pw")
unfolding is_blank
pw-IsLine = record { bare = record { starts = refl; ends = refl }; line = omega arith }

registered_0 : (cmd_register ram registrar (codes "b") (codes "c") two_files).0 ≡ 0
unfolding cmd_register wait_configure save_account save
registered_0 = refl

register_then_run_example :
    let (status, g) = cmd_register ram registrar (codes "b") (codes "c") two_files in
    (get (codes "addr") [] (load_with_account ram (codes "c") g) ≡ codes "a@b")
    × (get (codes "mail_pw") [] (load_with_account ram (codes "c") g) ≡ codes "pw")
    × (s : Settings) × ((cmd_run ram ones true configured (codes "c") g).0 ≡ some s)
register_then_run_example =
    register_then_run ram registrar (codes "b") (codes "c") two_files ones configured addr-IsLine
      pw-IsLine one_account refl registered_0 refl
