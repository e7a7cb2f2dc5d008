-- ===== src/App/Account/Saved.antt =====
-- What a later start reads of what was saved.
use deltafeedback.Prelude.{
  ◌≡◌, ◌≢◌, refl, sym, ap, subst, ◌∙◌, inl, inr, true, false, List, [], ◌∷◌, Option, none, some,
  Bytes, codes, bytes_eq, bytes_eq_iff, is_empty, All, Bool-cases, arith,
}
use deltafeedback.App.Config.{Config, Entry, filled_or, put, find, get, load}
use deltafeedback.App.Config.Dictionary.{
  put_all, or_else, last_of, find-put_all, find-put_all_last, last_of-or_else, put_all-IsSorted,
}
use deltafeedback.App.Config.RoundTrip.{IsClean, IsLoadable, load-print}
use deltafeedback.App.Config.Loaded.{load-IsLoadable, put-IsLoadable}
use deltafeedback.App.Account.{
  Disk, account_flushed, text_or_empty, load_file, load_with_account, save, save_account,
  writable_path,
}

pub put_all-IsLoadable :
    (m kv : List Entry) → All IsClean kv → IsLoadable m → IsLoadable (put_all m kv)
unfolding put_all
put_all-IsLoadable m [] clean h = h
put_all-IsLoadable m ((k, v) ∷ kv) (c, clean) h =
    put_all-IsLoadable (put k v m) kv clean (put-IsLoadable k v m c h)

abbrev pub account_key : Bytes
account_key = codes "account_path"

-- The entries do not set where the account file is.
abbrev pub NamesNoAccount : List Entry → Type 0
NamesNoAccount = All (λ e. bytes_eq account_key e.0 ≡ false)

last_of_none :
    (kv : List Entry) (o : Option Bytes) → NamesNoAccount kv → last_of account_key kv o ≡ o
last_of_none [] o h = refl
last_of_none ((k, v) ∷ kv) o (ne, h) = rw ne (last_of_none kv o h)

or_else_twice : (a b : Option Bytes) → or_else a (or_else a b) ≡ or_else a b
or_else_twice none b = refl
or_else_twice (some v) b = refl

or_else_entry :
    (l o m n : Option Bytes)
    → or_else l m ≡ or_else l n
    → or_else (or_else l o) m ≡ or_else l (or_else o n)
or_else_entry none o m n e = ap (or_else o) e
or_else_entry (some v) o m n e = refl

-- What was saved is on the disk: the stream was good, and so was the flush when it was destroyed.
abbrev pub Written : {F : Type 0} → Disk F → Bytes → List Entry → F → Type 0
Written disk path kv f =
    ((save_account disk path kv f).0 ≡ true) × (account_flushed disk path kv f ≡ true)

module _ {F : Type 0} (disk : Disk F) where
  pub load_file-IsLoadable : (path : Bytes) (f : F) → IsLoadable (load_file disk path f).kv
  unfolding load_file
  load_file-IsLoadable path f = load-IsLoadable (text_or_empty (disk.read path f))

  -- A file that was saved holds its old entries and the new ones; the others are as before.
  pub load_file-save_account :
      (path : Bytes) (kv : List Entry) (f : F)
      → All IsClean kv
      → Written disk path kv f
      → load_file disk path (save_account disk path kv f).1
        ≡ record { kv = put_all (load_file disk path f).kv kv }
  unfolding save_account save load_file
  load_file-save_account path kv f clean written =
      ap (λ t. load (text_or_empty t)) (disk.read-write path _ f written.0 written.1)
      ∙ load-print (put_all (load_file disk path f).kv kv)
          (put_all-IsLoadable _ kv clean (load_file-IsLoadable path f))

  pub load_file-save_account_other :
      (path other : Bytes) (kv : List Entry) (f : F)
      → other ≢ path
      → load_file disk other (save_account disk path kv f).1 ≡ load_file disk other f
  unfolding save_account save load_file
  load_file-save_account_other path other kv f ne =
      ap (λ t. load (text_or_empty t)) (disk.read-write_other path other _ f ne)

  module _ (main_path : Bytes) where
    abbrev account_of : F → Bytes
    account_of g = get account_key [] (load_file disk main_path g)

    one_file :
        (g : F)
        → is_empty (account_of g) ≡ true
        → load_with_account disk main_path g ≡ load_file disk main_path g
    unfolding load_with_account
    one_file g e = rw e refl

    two_files :
        (g : F) (a : Bytes)
        → account_of g ≡ a
        → is_empty a ≡ false
        → load_with_account disk main_path g
          ≡ record { kv = put_all (load_file disk main_path g).kv (load_file disk a g).kv }
    unfolding load_with_account
    two_files g a e full = rw (e, full) refl

    module _ (kv : List Entry) (f : F) (clean : All IsClean kv) (named : NamesNoAccount kv)
        (one_account : get account_key [] (load_with_account disk main_path f) ≡ account_of f) where
      abbrev cfg : Config
      cfg = load_with_account disk main_path f

      abbrev written : Bytes
      written = writable_path cfg main_path

      abbrev after : F
      after = (save_account disk written kv f).1

      written-empty : is_empty (account_of f) ≡ true → written ≡ main_path
      unfolding writable_path
      written-empty e = rw (one_account, e) refl

      written-full : is_empty (account_of f) ≡ false → written ≡ account_of f
      unfolding writable_path
      written-full e = rw (one_account, e) refl

      -- The main file names the account file as before.
      account_put :
          (m : List Entry)
          → get account_key [] (record { kv = put_all m kv })
            ≡ get account_key [] (record { kv = m })
      unfolding get
      account_put m =
          ap (λ o. filled_or o [])
            (find-put_all_last account_key m kv ∙ last_of_none kv (find account_key m) named)

      module _ (saved : Written disk written kv f) where
        main_saved :
            written ≡ main_path
            → load_file disk main_path after
              ≡ record { kv = put_all (load_file disk main_path f).kv kv }
        main_saved e =
            subst (λ p. load_file disk p after ≡ record { kv = put_all (load_file disk p f).kv kv })
              e (load_file-save_account written kv f clean saved)

        reload-empty :
            (j : Bytes)
            → is_empty (account_of f) ≡ true
            → find j (load_with_account disk main_path after).kv ≡ last_of j kv (find j cfg.kv)
        reload-empty j e =
            let now = main_saved (written-empty e) in
            let still : account_of after ≡ account_of f =
              ap (get account_key []) now ∙ account_put (load_file disk main_path f).kv in
            ap (λ c. find j c.kv) (one_file after (ap is_empty still ∙ e) ∙ now)
            ∙ find-put_all_last j (load_file disk main_path f).kv kv
            ∙ sym (ap (λ c. last_of j kv (find j c.kv)) (one_file f e))

        -- The main file afterwards, for one key, beside what the entries say.
        main_entry :
            (j : Bytes)
            → is_empty (account_of f) ≡ false
            → (account_of after ≡ account_of f)
              × (or_else (last_of j kv none) (find j (load_file disk main_path after).kv)
                  ≡ or_else (last_of j kv none) (find j (load_file disk main_path f).kv))
        main_entry j full = elim (Bool-cases (bytes_eq main_path written)) [
          | inl same ↦
              let now = main_saved (sym ((bytes_eq_iff main_path written).0 same)) in
              (
                ap (get account_key []) now ∙ account_put (load_file disk main_path f).kv,
                ap (λ c. or_else (last_of j kv none) (find j c.kv)) now
                    ∙ ap (or_else (last_of j kv none)) (
                        find-put_all_last j (load_file disk main_path f).kv kv
                        ∙ last_of-or_else j kv (find j (load_file disk main_path f).kv))
                    ∙ or_else_twice (last_of j kv none) (find j (load_file disk main_path f).kv),
              )
          | inr other ↦
              let now =
                load_file-save_account_other written main_path kv f
                  (λ e. ground (arith, bytes_eq_iff main_path written)) in
              (ap (get account_key []) now, ap (λ c. or_else (last_of j kv none) (find j c.kv)) now)
        ]

        reload-full :
            (j : Bytes)
            → is_empty (account_of f) ≡ false
            → find j (load_with_account disk main_path after).kv ≡ last_of j kv (find j cfg.kv)
        reload-full j full =
            let a = account_of f in
            let m = (load_file disk main_path f).kv in
            let o = (load_file disk a f).kv in
            let (still, entry) = main_entry j full in
            let account_now : load_file disk a after ≡ record { kv = put_all o kv } =
              subst
                (λ p. load_file disk p after ≡ record { kv = put_all (load_file disk p f).kv kv })
                (written-full full) (load_file-save_account written kv f clean saved) in
            let m' = (load_file disk main_path after).kv in
            ap (λ c. find j c.kv)
              (two_files after a still full ∙ ap (λ c. record { kv = put_all m' c.kv }) account_now)
            ∙ find-put_all j m' (put_all o kv)
                (put_all-IsSorted o kv (load_file-IsLoadable a f).sorted)
            ∙ ap (λ x. or_else x (find j m'))
                (find-put_all_last j o kv ∙ last_of-or_else j kv (find j o))
            ∙ or_else_entry (last_of j kv none) (find j o) (find j m') (find j m) entry
            ∙ sym (
                last_of-or_else j kv (find j cfg.kv)
                ∙ ap (or_else (last_of j kv none)) (
                    ap (λ c. find j c.kv) (two_files f a refl full)
                    ∙ find-put_all j m o (load_file-IsLoadable a f).sorted))

-- Entries are saved in the writable file and get to the disk, and a later start reads each key as the last of
-- the entries has it, and every other key as before. The entries are trimmed texts of one line that
-- do not set the account file, and the account file does not name another one.
pub reload :
    {F : Type 0} (disk : Disk F) (main_path : Bytes) (kv : List Entry) (f : F) (j : Bytes)
    → All IsClean kv
    → NamesNoAccount kv
    → get account_key [] (load_with_account disk main_path f)
      ≡ get account_key [] (load_file disk main_path f)
    → let cfg = load_with_account disk main_path f in
      let path = writable_path cfg main_path in
      let after = (save_account disk path kv f).1 in
      Written disk path kv f
      → find j (load_with_account disk main_path after).kv ≡ last_of j kv (find j cfg.kv)
reload disk main_path kv f j clean named one_account saved =
    elim (Bool-cases (is_empty (get account_key [] (load_file disk main_path f)))) [
      | inl empty ↦ reload-empty disk main_path kv f clean named one_account saved j empty
      | inr full ↦ reload-full disk main_path kv f clean named one_account saved j full
    ]

-- What is loaded can be saved, with the account file as well.
pub load_with_account-IsLoadable :
    {F : Type 0} (disk : Disk F) (main_path : Bytes) (f : F)
    → IsLoadable (load_with_account disk main_path f).kv
unfolding load_with_account
load_with_account-IsLoadable disk main_path f =
    let own = load_file-IsLoadable disk main_path f in
    let acc = get account_key [] (load_file disk main_path f) in
    elim (Bool-cases (is_empty acc)) [
      | inl empty ↦ rw empty own
      | inr full ↦ rw full (
          put_all-IsLoadable (load_file disk main_path f).kv (load_file disk acc f).kv
            (load_file-IsLoadable disk acc f).clean own)
    ]
