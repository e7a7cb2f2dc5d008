-- ===== src/Db/Connection.antt =====
-- The class `Database` of src/db/database.h and database.cpp, which owns the connection. SQLite's calls are
-- the parameter `Connections`; a pointer is a number, `none` is nullptr.
use deltafeedback.Prelude.{
  ℕ, ◌≡◌, sym, subst, inl, inr, Bool, List, ◌∷◌, Option, none, some, Bytes, ◌==◌, if◌then◌else◌,
  Result, Bool-cases, Option-cases,
}

-- `opened` lists the connections that are open. SQLite gives a connection also when it fails to open the
-- file, so that the caller can ask for the error, and the caller has to close it.
pub record Connections (M : Type 0) : Type 0 where
  pub open_v2 : Bytes → M → (ℕ × Option ℕ) × M
  pub close : ℕ → M → M
  pub exec : Option ℕ → M → ℕ × M
  pub opened : M → List ℕ
  pub open_none :
      (path : Bytes) (m : M) → (open_v2 path m).0.1 ≡ none → opened (open_v2 path m).1 ≡ opened m
  pub open_some :
      (path : Bytes) (m : M) (p : ℕ)
      → (open_v2 path m).0.1 ≡ some p
      → opened (open_v2 path m).1 ≡ p ∷ opened m
  pub close_first : (p : ℕ) (m : M) (ps : List ℕ) → opened m ≡ p ∷ ps → opened (close p m) ≡ ps
  pub exec_keeps : (db : Option ℕ) (m : M) → opened (exec db m).1 ≡ opened m

pub record Handle : Type 0 where
  pub db : Option ℕ

module _ {M : Type 0} (lib : Connections M) where
  -- `~Database`.
  unfoldable pub close_handle : Handle → M → M
  close_handle d m = elim d.db [ none ↦ m | some p ↦ lib.close p m ]

  -- `exec` runs the text of `kSchema`.
  unfoldable pub apply_schema : Handle → M → Bool × M
  apply_schema d m = let (code, after) = lib.exec d.db m in (code == 0, after)

  -- What is thrown leaves the `unique_ptr`, whose destructor runs.
  abbrev thrown : Handle → M → Result Handle × M
  thrown d m = (Result.throw, close_handle d m)

  abbrev schema_applied : Handle → Bool × M → Result Handle × M
  schema_applied d (fine, m) = if fine then (Result.ok d, m) else thrown d m

  unfoldable pub open_database : Bytes → M → Result Handle × M
  unfolding close_handle apply_schema
  open_database path m =
      let ((code, db), after) = lib.open_v2 path m in
      let d : Handle = record { db = db } in
      if code == 0 then schema_applied d (apply_schema d after) else thrown d after

  -- What is open after a call, beside what was.
  abbrev pub Opens : List ℕ → Result Handle → List ℕ → Type 0
  Opens before Result.throw after = after ≡ before
  Opens before (Result.ok d) after = elim d.db [
    | none ↦ after ≡ before
    | some p ↦ after ≡ p ∷ before
  ]

  -- What a handle has opened, `none` or `p` in front of `before`.
  abbrev Holds : List ℕ → Option ℕ → List ℕ → Type 0
  Holds before none after = after ≡ before
  Holds before (some p) after = after ≡ p ∷ before

  open_v2-Holds :
      (path : Bytes) (m : M)
      → Holds (lib.opened m) (lib.open_v2 path m).0.1 (lib.opened (lib.open_v2 path m).1)
  open_v2-Holds path m = elim (Option-cases (lib.open_v2 path m).0.1) [
    | inl e ↦ rw e (lib.open_none path m e)
    | inr (p, e) ↦ rw e (lib.open_some path m p e)
  ]

  close_handle-Holds :
      (before : List ℕ) (db : Option ℕ) (m : M)
      → Holds before db (lib.opened m)
      → lib.opened (close_handle (record { db = db }) m) ≡ before
  unfolding close_handle
  close_handle-Holds before none m h = h
  close_handle-Holds before (some p) m h = lib.close_first p m before h

  Holds-Opens :
      (before : List ℕ) (db : Option ℕ) (m : M)
      → Holds before db (lib.opened m)
      → Opens before (Result.ok (record { db = db })) (lib.opened m)
  Holds-Opens before none m h = h
  Holds-Opens before (some p) m h = h

  -- A connection that is opened is the returned handle's. Where `open_database` throws, because the file does not
  -- open or the schema does not apply, no connection is left open.
  pub open_database-Opens :
      (path : Bytes) (m : M)
      → Opens (lib.opened m) (open_database path m).0 (lib.opened (open_database path m).1)
  unfolding open_database apply_schema
  open_database-Opens path m =
      let x = lib.open_v2 path m in
      let d : Handle = record { db = x.0.1 } in
      let opened_here = open_v2-Holds path m in
      let run = lib.exec x.0.1 x.1 in
      let kept : Holds (lib.opened m) x.0.1 (lib.opened run.1) =
        subst (Holds (lib.opened m) x.0.1) (sym (lib.exec_keeps x.0.1 x.1)) opened_here in
      elim (Bool-cases (x.0.0 == 0)) [
        | inl good ↦ rw good (elim (Bool-cases (run.0 == 0)) [
          | inl fine ↦ rw fine (Holds-Opens (lib.opened m) x.0.1 run.1 kept)
          | inr bad ↦ rw bad (close_handle-Holds (lib.opened m) x.0.1 run.1 kept)
        ])
        | inr bad ↦ rw bad (close_handle-Holds (lib.opened m) x.0.1 x.1 opened_here)
      ]
