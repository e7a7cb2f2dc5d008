-- ===== src/App/Commands.antt =====
-- The command line of src/main.cpp, and its commands up to the start of the threads. What Delta Chat's
-- library answers is an argument.
pub mod Restarted
use deltafeedback.Prelude.{
  ℕ, ◌+◌, ◌-◌, ◌*◌, ◌%◌, ◌^◌, Bool, true, false, not, ◌&&◌, ◌||◌, List, [], ◌∷◌, ◌++◌, Option, none,
  some, Bytes, codes, bytes_eq, is_empty, if◌then◌else◌, ℤ, pos, negsuc,
}
use deltafeedback.Pow.Hex.{hex_decode}
use deltafeedback.Pow.Challenge.{ChallengeIssuer}
use deltafeedback.Db.Schema.{Database}
use deltafeedback.Db.Reset.{reset_owner_in_db}
use deltafeedback.Dc.Bot.Configure.{ConfigureEvent, wait_configure, Account, configure_if_needed}
use deltafeedback.Feedback.Validator.{Limits}
use deltafeedback.App.Config.{Config, Entry, get, get_int, has}
use deltafeedback.App.Account.{
  Disk, Ensured, load_with_account, writable_path, save_account, ensure_hmac_secret,
}

pub data Command : Type 0 where
  register_on : Bytes → Bytes → Command
  run_with : Bytes → Command
  invite_with : Bytes → Command
  reset_admin_with : Bytes → Command
  usage : Command

-- `arg_or`, on the arguments from the place on.
abbrev pub arg_or : List Bytes → Bytes → Bytes
arg_or [] fallback = fallback
arg_or (a ∷ rest) fallback = a

abbrev pub default_config : Bytes
default_config = codes "./config.ini"

abbrev register_args : List Bytes → Command
register_args [] = usage
register_args (domain ∷ rest) = register_on domain (arg_or rest default_config)

-- `main` on `argv`, with the name of the program in front; `usage` is the exit with status 2.
unfoldable pub main : List Bytes → Command
unfolding bytes_eq
main [] = usage
main (prog ∷ []) = usage
main (prog ∷ cmd ∷ rest) =
    if bytes_eq cmd (codes "--register")
    then register_args rest
    else if bytes_eq cmd (codes "--run")
    then run_with (arg_or rest default_config)
    else if bytes_eq cmd (codes "--invite")
    then invite_with (arg_or rest default_config)
    else if bytes_eq cmd (codes "--reset-admin")
    then reset_admin_with (arg_or rest default_config)
    else usage

-- What the library answers to `cmd_register`: whether there is a context, whether a QR code is one for
-- an account, whether it sets the account, the events of its configuration, and the account then.
pub record Registrar : Type 0 where
  pub context : Bool
  pub is_account_qr : Bytes → Bool
  pub set_config_from_qr : Bytes → Bool
  pub events : List ConfigureEvent
  pub configured_addr : Option Bytes
  pub mail_pw : Option Bytes

abbrev pub or_empty : Option Bytes → Bytes
or_empty none = []
or_empty (some s) = s

abbrev pub db_path_of : Config → Bytes
db_path_of cfg = get (codes "db") (codes "./deltafeedback.db") cfg

abbrev pub account_entries : Bytes → Bytes → Bytes → List Entry
account_entries addr mail_pw db_path =
    (codes "addr", addr) ∷ (codes "mail_pw", mail_pw) ∷ (codes "db", db_path) ∷ []

-- 0 where it was written, else 1.
abbrev pub written_status : {F : Type 0} → Bool × F → ℕ × F
written_status (written, f) = (if written then 0 else 1, f)

module _ {F : Type 0} (disk : Disk F) where
  -- The exit status, and the files.
  unfoldable pub cmd_register : Registrar → Bytes → Bytes → F → ℕ × F
  unfolding save_account load_with_account writable_path wait_configure
  cmd_register lib domain cfg_path f =
      let cfg = load_with_account disk cfg_path f in
      let qr = codes "DCACCOUNT:https://" ++ (domain ++ codes "/new") in
      let addr = or_empty lib.configured_addr in
      let pw = or_empty lib.mail_pw in
      if not lib.context
      then (1, f)
      else if not (lib.is_account_qr qr)
      then (1, f)
      else if not (lib.set_config_from_qr qr)
      then (1, f)
      else if not (wait_configure lib.events) || is_empty addr || is_empty pw
      then (1, f)
      else written_status (
          save_account disk (writable_path cfg cfg_path) (account_entries addr pw (db_path_of cfg))
            f)

-- `cmd_invite`: the exit status, and the line on standard output.
unfoldable pub cmd_invite : Bool → Bool → Option Bytes → ℕ × Option Bytes
cmd_invite context is_configured qr =
    if not context
    then (1, none)
    else if not is_configured
    then (1, none)
    else elim qr [ none ↦ (1, none) | some q ↦ (0, some q) ]

-- `cmd_reset_admin`, on the database that is opened.
unfoldable pub cmd_reset_admin : Database → ℕ × Database
unfolding reset_owner_in_db
cmd_reset_admin db = (0, reset_owner_in_db db)

-- A cast of an `int` to an unsigned type of `w` bits.
abbrev pub to_unsigned : ℕ → ℤ → ℕ
to_unsigned w (pos n) = n % 2 ^ w
to_unsigned w (negsuc n) = (2 ^ w - 1) - n % 2 ^ w

-- What `cmd_run` reads off the configuration, before and after the secret is set.
pub record Settings : Type 0 where
  pub bind : Bytes
  pub port : ℕ
  pub web_root : Bytes
  pub db_path : Bytes
  pub issuer : ChallengeIssuer
  pub limits : Limits
  pub retention_days : ℤ

unfoldable pub settings_of : Config → Config → Bytes → Settings
unfolding get get_int hex_decode
settings_of before cfg secret_hex = record {
  bind = get (codes "bind") (codes "0.0.0.0") before;
  port = to_unsigned 16 (get_int (codes "port") (pos 8080) before);
  web_root = get (codes "web_root") (codes "./web") before;
  db_path = db_path_of before;
  issuer = record {
    secret = hex_decode secret_hex;
    difficulty_bits = to_unsigned 32 (get_int (codes "pow_difficulty_bits") (pos 18) cfg);
    ttl = get_int (codes "pow_challenge_ttl_seconds") (pos 300) cfg;
  };
  limits = record {
    message_max_chars = to_unsigned 64 (get_int (codes "message_max_chars") (pos 500) cfg);
    name_max_chars = to_unsigned 64 (get_int (codes "name_max_chars") (pos 40) cfg);
    min_fill_time_ms = get_int (codes "min_fill_time_ms") (pos 1500) cfg;
  };
  retention_days = get_int (codes "closed_ticket_retention_days") (pos 7) cfg;
}

-- The settings with which the server starts, or the exit with status 1; and the files.
unfoldable pub cmd_run :
    {F : Type 0} → Disk F → (ℕ → ℕ) → Bool → Account → Bytes → F → Option Settings × F
unfolding load_with_account has writable_path ensure_hmac_secret settings_of configure_if_needed
cmd_run disk draws context account cfg_path f =
    let cfg = load_with_account disk cfg_path f in
    if not (has (codes "addr") cfg) || not (has (codes "mail_pw") cfg)
    then (none, f)
    else (let e = ensure_hmac_secret disk draws cfg (writable_path cfg cfg_path) f in
        if not context
        then (none, e.files)
        else if not
            (configure_if_needed account (get (codes "addr") [] e.cfg)
              (get (codes "mail_pw") [] e.cfg)).0
        then (none, e.files)
        else (some (settings_of cfg e.cfg e.secret), e.files))
