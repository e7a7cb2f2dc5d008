-- ===== src/App/Commands/Restarted.antt =====
-- What `--run` finds after `--register`.
use deltafeedback.Prelude.{
  ℕ, ◌≡◌, ◌≢◌, refl, ap, subst, ◌∙◌, inl, inr, true, false, List, [], ◌∷◌, some, Bytes, codes,
  bytes_eq, is_empty, All, Lacks, Bool-cases, Option-cases, arith,
}
use deltafeedback.Dc.Bot.Configure.{Account, configure_if_needed}
use deltafeedback.App.Config.{
  Config, Entry, is_blank, is_comment, find, get, has, filled, filled_or,
}
use deltafeedback.App.Config.Blank.{IsBare}
use deltafeedback.App.Config.RoundTrip.{IsClean}
use deltafeedback.App.Config.Dictionary.{last_of}
use deltafeedback.App.Account.{
  Disk, account_flushed, load_file, load_with_account, save_account, writable_path,
}
use deltafeedback.App.Account.Saved.{account_key, reload, load_with_account-IsLoadable}
use deltafeedback.App.Commands.{
  Registrar, Settings, or_empty, db_path_of, account_entries, cmd_register, cmd_run,
}

-- A text that a line of the file holds as it is.
pub record IsLine (v : Bytes) : Type 0 where
  pub bare : IsBare v
  pub line : Lacks 10 v

entry-IsClean :
    (k v : Bytes)
    → IsBare k
    → Lacks b'=' k
    → Lacks 10 k
    → (k ≢ [] → is_comment k ≡ false)
    → IsLine v
    → IsClean (k, v)
entry-IsClean k v bare no_eq line proper value = record {
  key_bare = bare;
  value_bare = value.bare;
  no_eq = no_eq;
  key_line = line;
  value_line = value.line;
  no_comment = proper;
}

find-IsLine : (k v : Bytes) (m : List Entry) → All IsClean m → find k m ≡ some v → IsLine v
unfolding find
find-IsLine k v [] h e = absurd (ground arith)
find-IsLine k v ((j, w) ∷ m) (hw, h) e = elim (Bool-cases (bytes_eq k j)) [
  | inl same ↦
      let is : w ≡ v = ground arith in
      subst IsLine is (record { bare = hw.value_bare; line = hw.value_line })
  | inr other ↦ find-IsLine k v m h (rw other at e)
]

db_path-IsLine : (c : Config) → All IsClean c.kv → IsLine (db_path_of c)
unfolding get is_blank
db_path-IsLine c h = elim (Option-cases (find (codes "db") c.kv)) [
  | inl missing ↦ rw missing fallback
  | inr (v, found) ↦ elim (Bool-cases (is_empty v)) [
    | inl blank ↦ rw (found, blank) fallback
    | inr full ↦ rw (found, full) (find-IsLine (codes "db") v c.kv h found)
  ]
]
  where
    fallback : IsLine (codes "./deltafeedback.db")
    fallback = record { bare = record { starts = refl; ends = refl }; line = omega arith }

module _ {F : Type 0} (disk : Disk F) (lib : Registrar) (domain cfg_path : Bytes) (f : F) where
  abbrev before : Config
  before = load_with_account disk cfg_path f

  abbrev pub entries : List Entry
  entries =
      account_entries (or_empty lib.configured_addr) (or_empty lib.mail_pw) (db_path_of before)

  abbrev pub registered : ℕ × F
  registered = cmd_register disk lib domain cfg_path f

  -- A registration that succeeded has written the account.
  record Wrote : Type 0 where
    addr_there : is_empty (or_empty lib.configured_addr) ≡ false
    pw_there : is_empty (or_empty lib.mail_pw) ≡ false
    written : (save_account disk (writable_path before cfg_path) entries f).0 ≡ true
    files : registered.1 ≡ (save_account disk (writable_path before cfg_path) entries f).1

  succeeded : registered.0 ≡ 0 → Wrote
  unfolding cmd_register
  succeeded h = ground arith

  entries-IsClean :
      IsLine (or_empty lib.configured_addr) → IsLine (or_empty lib.mail_pw) → All IsClean entries
  unfolding is_blank
  entries-IsClean a p =
      let d = db_path-IsLine before (load_with_account-IsLoadable disk cfg_path f).clean in
      let dark : IsBare (codes "addr") × IsBare (codes "mail_pw") × IsBare (codes "db") = (
        record { starts = refl; ends = refl },
        record { starts = refl; ends = refl },
        record { starts = refl; ends = refl },
      ) in
      (
        entry-IsClean (codes "addr") _ dark.0 (omega arith) (omega arith) (λ _. refl) a,
        (
          entry-IsClean (codes "mail_pw") _ dark.1 (omega arith) (omega arith) (λ _. refl) p,
          (entry-IsClean (codes "db") _ dark.2 (omega arith) (omega arith) (λ _. refl) d, tt),
        ),
      )

  module _ (a : IsLine (or_empty lib.configured_addr)) (p : IsLine (or_empty lib.mail_pw))
      (one_account : get account_key [] before ≡ get account_key [] (load_file disk cfg_path f))
      (done : registered.0 ≡ 0)
      (flushed : account_flushed disk (writable_path before cfg_path) entries f ≡ true) where
    abbrev later : Config
    later = load_with_account disk cfg_path registered.1

    reloaded : (j : Bytes) → find j later.kv ≡ last_of j entries (find j before.kv)
    reloaded j =
        let w = succeeded done in
        ap (λ g. find j (load_with_account disk cfg_path g).kv) w.files
        ∙ reload disk cfg_path entries f j (entries-IsClean a p)
            (unfold bytes_eq in (refl, (refl, (refl, tt)))) one_account (w.written, flushed)

    addr_found : find (codes "addr") later.kv ≡ some (or_empty lib.configured_addr)
    addr_found = reloaded (codes "addr") ∙ (unfold bytes_eq in refl)

    pw_found : find (codes "mail_pw") later.kv ≡ some (or_empty lib.mail_pw)
    pw_found = reloaded (codes "mail_pw") ∙ (unfold bytes_eq in refl)

    has_addr : has (codes "addr") later ≡ true
    unfolding has
    has_addr = ap filled addr_found ∙ rw (succeeded done).addr_there refl

    has_pw : has (codes "mail_pw") later ≡ true
    unfolding has
    has_pw = ap filled pw_found ∙ rw (succeeded done).pw_there refl

    started :
        (draws : ℕ → ℕ) (account : Account)
        → account.is_configured ≡ true
        → (s : Settings) × ((cmd_run disk draws true account cfg_path registered.1).0 ≡ some s)
    unfolding cmd_run configure_if_needed
    started draws account configured = rw (has_addr, has_pw, configured) (_, refl)

    got_addr : get (codes "addr") [] later ≡ or_empty lib.configured_addr
    unfolding get
    got_addr = ap (λ o. filled_or o []) addr_found ∙ rw (succeeded done).addr_there refl

    got_pw : get (codes "mail_pw") [] later ≡ or_empty lib.mail_pw
    unfolding get
    got_pw = ap (λ o. filled_or o []) pw_found ∙ rw (succeeded done).pw_there refl

-- After a registration that exits with status 0, the configuration that `--run` loads has the address and
-- the password of the new account, and `--run` starts the server if the library has a context and the
-- account is configured. The flush of the account file, after the stream said it is good, goes well: the
-- exit status does not tell. The two texts are trimmed and of one line, and the account file does not name
-- another one.
pub register_then_run :
    {F : Type 0} (disk : Disk F) (lib : Registrar) (domain cfg_path : Bytes) (f : F) (draws : ℕ → ℕ)
    (account : Account)
    → IsLine (or_empty lib.configured_addr)
    → IsLine (or_empty lib.mail_pw)
    → get account_key [] (load_with_account disk cfg_path f)
      ≡ get account_key [] (load_file disk cfg_path f)
    → account.is_configured ≡ true
    → let (status, g) = cmd_register disk lib domain cfg_path f in
      status ≡ 0
      → account_flushed disk
          (writable_path (load_with_account disk cfg_path f) cfg_path)
          (entries disk lib domain cfg_path f)
          f
        ≡ true
      → (get (codes "addr") [] (load_with_account disk cfg_path g) ≡ or_empty lib.configured_addr)
        × (get (codes "mail_pw") [] (load_with_account disk cfg_path g) ≡ or_empty lib.mail_pw)
        × (s : Settings) × ((cmd_run disk draws true account cfg_path g).0 ≡ some s)
register_then_run disk lib domain cfg_path f draws account a p one_account configured done flushed =
    let (settings, runs) =
      started disk lib domain cfg_path f a p one_account done flushed draws account configured in
    (
      got_addr disk lib domain cfg_path f a p one_account done flushed,
      got_pw disk lib domain cfg_path f a p one_account done flushed,
      settings,
      runs,
    )
