-- ===== src/Db/Statement.antt =====
-- The class `Statement` of src/db/statement.h and statement.cpp, which owns a prepared statement. SQLite's
-- calls are the parameter `Sqlite`; a pointer is a number, `none` is nullptr.
pub mod Variables
pub mod Owners
pub mod Owned
use deltafeedback.Prelude.{
  ℕ, ◌+◌, ◌≤◌, ◌≡◌, ◌≢◌, ◌⊎◌, Bool, true, false, List, [], ◌∷◌, Option, none, some, Bytes, ◌==◌,
  if◌then◌else◌, ℤ, Result,
}

abbrev pub occurrences : ℕ → List ℕ → ℕ
occurrences p [] = 0
occurrences p (q ∷ qs) = (if q == p then 1 else 0) + occurrences p qs

-- What is bound to a parameter.
pub data Value : Type 0 where
  int : ℤ → Value
  int64 : ℤ → Value
  text : Bytes → Value
  blob : Bytes → Value
  null : Value

-- A statement that calls may be made on, or nullptr, which they refuse.
abbrev pub Usable : Option ℕ → List ℕ → Type 0
Usable stmt live = (stmt ≡ none) ⊎ ((p : ℕ) × (stmt ≡ some p) × (occurrences p live ≡ 1))

-- A call answers its result code; `live` lists the statements that are prepared and not finalized. The
-- laws are the interface's: a failed prepare gives nullptr, a prepared statement is a new one, and a
-- call on a statement that lives, or on nullptr, prepares and finalizes none.
pub record Sqlite (M : Type 0) : Type 0 where
  pub prepare_v2 : Option ℕ → Bytes → M → (ℕ × Option ℕ) × M
  pub finalize : ℕ → M → M
  pub bind : Option ℕ → ℕ → Value → M → ℕ × M
  pub step : Option ℕ → M → ℕ × M
  pub reset : Option ℕ → M → M
  pub clear_bindings : Option ℕ → M → M
  pub column_int : Option ℕ → ℕ → M → ℤ
  pub column_int64 : Option ℕ → ℕ → M → ℤ
  pub column_blob : Option ℕ → ℕ → M → Option Bytes
  pub column_text : Option ℕ → ℕ → M → Option Bytes
  pub column_is_null : Option ℕ → ℕ → M → Bool
  pub live : M → List ℕ
  pub prepare_failed :
      (db : Option ℕ) (sql : Bytes) (m : M)
      → (prepare_v2 db sql m).0.0 ≢ 0
      → (prepare_v2 db sql m).0.1 ≡ none
  pub prepare_none :
      (db : Option ℕ) (sql : Bytes) (m : M)
      → (prepare_v2 db sql m).0.1 ≡ none
      → live (prepare_v2 db sql m).1 ≡ live m
  pub prepare_some :
      (db : Option ℕ) (sql : Bytes) (m : M) (p : ℕ)
      → (prepare_v2 db sql m).0.1 ≡ some p
      → (live (prepare_v2 db sql m).1 ≡ p ∷ live m) × (occurrences p (live m) ≡ 0)
  pub finalize_one :
      (p : ℕ) (m : M)
      → occurrences p (live m) ≡ 1
      → (q : ℕ)
      → occurrences q (live (finalize p m)) + (if p == q then 1 else 0) ≡ occurrences q (live m)
  pub bind_keeps :
      (stmt : Option ℕ) (i : ℕ) (v : Value) (m : M)
      → Usable stmt (live m)
      → live (bind stmt i v m).1 ≡ live m
  pub step_keeps : (stmt : Option ℕ) (m : M) → Usable stmt (live m) → live (step stmt m).1 ≡ live m
  pub reset_keeps : (stmt : Option ℕ) (m : M) → Usable stmt (live m) → live (reset stmt m) ≡ live m
  pub clear_keeps :
      (stmt : Option ℕ) (m : M) → Usable stmt (live m) → live (clear_bindings stmt m) ≡ live m

pub record Statement : Type 0 where
  pub db : Option ℕ
  pub stmt : Option ℕ

-- What a move leaves.
abbrev pub emptied : Statement
emptied = record { db = none; stmt = none }

-- SQLITE_OK, SQLITE_ROW and SQLITE_DONE.
abbrev pub sqlite_ok : ℕ
sqlite_ok = 0

abbrev pub sqlite_row : ℕ
sqlite_row = 100

abbrev pub sqlite_done : ℕ
sqlite_done = 101

module _ {M : Type 0} (lib : Sqlite M) where
  unfoldable pub prepare : Option ℕ → Bytes → M → Result Statement × M
  prepare db sql m =
      let ((code, stmt), after) = lib.prepare_v2 db sql m in
      if code == sqlite_ok
      then (Result.ok (record { db = db; stmt = stmt }), after)
      else (Result.throw, after)

  -- The destructor, and the first lines of the move assignment.
  unfoldable pub destroy : Statement → M → M
  destroy s m = elim s.stmt [ none ↦ m | some p ↦ lib.finalize p m ]

  abbrev checked : ℕ × M → Result (Unit {0}) × M
  checked (code, m) = if code == sqlite_ok then (Result.ok tt, m) else (Result.throw, m)

  unfoldable pub bind_value : ℕ → Value → Statement → M → Result (Unit {0}) × M
  bind_value i v s m = checked (lib.bind s.stmt i v m)

  abbrev row_of : ℕ × M → Result Bool × M
  row_of (code, m) =
      if code == sqlite_row
      then (Result.ok true, m)
      else if code == sqlite_done
      then (Result.ok false, m)
      else (Result.throw, m)

  unfoldable pub step : Statement → M → Result Bool × M
  step s m = row_of (lib.step s.stmt m)

  unfoldable pub reset : Statement → M → M
  reset s m = lib.clear_bindings s.stmt (lib.reset s.stmt m)

  unfoldable pub col_int : ℕ → Statement → M → ℤ
  col_int i s m = lib.column_int s.stmt i m

  unfoldable pub col_int64 : ℕ → Statement → M → ℤ
  col_int64 i s m = lib.column_int64 s.stmt i m

  abbrev pub bytes_or_empty : Option Bytes → Bytes
  bytes_or_empty none = []
  bytes_or_empty (some s) = s

  unfoldable pub col_text : ℕ → Statement → M → Bytes
  col_text i s m = bytes_or_empty (lib.column_text s.stmt i m)

  unfoldable pub col_blob : ℕ → Statement → M → Bytes
  col_blob i s m = bytes_or_empty (lib.column_blob s.stmt i m)

  unfoldable pub col_is_null : ℕ → Statement → M → Bool
  col_is_null i s m = lib.column_is_null s.stmt i m
