-- ===== src/Tests/Handles.antt =====
-- Runs of the classes that own what SQLite makes. The library here is the list of what lives.
use deltafeedback.Prelude.{
  ℕ, ◌+◌, ◌<◌, ◌≡◌, ◌≢◌, refl, List, [], ◌∷◌, Option, none, some, Bytes, codes, ◌==◌, if◌then◌else◌,
  pos, Result, arith, true,
}
use deltafeedback.Db.Statement.{occurrences, Sqlite, Statement, emptied, prepare, destroy}
use deltafeedback.Db.Statement.Variables.{
  find_variable, store_variable, erase_variable, Heap, construct, destroy_variable, move_assign,
  Does, Runs,
}
use deltafeedback.Db.Statement.Owned.{IsOwned, Runs-IsOwned, Runs-none_left}
use deltafeedback.Db.Connection.{
  Connections, close_handle, open_database, Opens, open_database-Opens,
}

abbrev total : List ℕ → ℕ
total [] = 0
total (p ∷ ps) = p + total ps

abbrev without : ℕ → List ℕ → List ℕ
without p [] = []
without p (q ∷ qs) = if q == p then qs else q ∷ without p qs

abbrev prepare_toy : Bytes → List ℕ → (ℕ × Option ℕ) × List ℕ
prepare_toy [] live = ((1, none), live)
prepare_toy (c ∷ s) live = ((0, some (1 + total live)), (1 + total live) ∷ live)

prepare_toy-failed :
    (sql : Bytes) (m : List ℕ) → (prepare_toy sql m).0.0 ≢ 0 → (prepare_toy sql m).0.1 ≡ none
prepare_toy-failed [] m h = refl
prepare_toy-failed (c ∷ s) m h = absurd (h refl)

prepare_toy-none :
    (sql : Bytes) (m : List ℕ) → (prepare_toy sql m).0.1 ≡ none → (prepare_toy sql m).1 ≡ m
prepare_toy-none [] m h = refl
prepare_toy-none (c ∷ s) m h = ground arith

count_fresh : (p : ℕ) (m : List ℕ) → total m < p → occurrences p m ≡ 0
count_fresh p [] h = refl
count_fresh p (q ∷ m) h = ground (arith, count_fresh p m)

prepare_toy-some :
    (sql : Bytes) (m : List ℕ) (p : ℕ)
    → (prepare_toy sql m).0.1 ≡ some p
    → ((prepare_toy sql m).1 ≡ p ∷ m) × (occurrences p m ≡ 0)
prepare_toy-some [] m p h = ground arith
prepare_toy-some (c ∷ s) m p h = (ground arith, count_fresh p m (ground arith))

occurrences-without :
    (p q : ℕ) (m : List ℕ)
    → occurrences p m ≡ 1
    → occurrences q (without p m) + (if p == q then 1 else 0) ≡ occurrences q m
occurrences-without p q [] h = ground arith
occurrences-without p q (r ∷ m) h = ground (arith, occurrences-without p q m)

abbrev toy : Sqlite (List ℕ)
toy = record {
  prepare_v2 = λ db sql m. prepare_toy sql m;
  finalize = without;
  bind = λ stmt i v m. (0, m);
  step = λ stmt m. (101, m);
  reset = λ stmt m. m;
  clear_bindings = λ stmt m. m;
  column_int = λ stmt i m. pos 0;
  column_int64 = λ stmt i m. pos 0;
  column_blob = λ stmt i m. none;
  column_text = λ stmt i m. none;
  column_is_null = λ stmt i m. true;
  live = λ m. m;
  prepare_failed = λ db sql m h. prepare_toy-failed sql m h;
  prepare_none = λ db sql m h. prepare_toy-none sql m h;
  prepare_some = λ db sql m p h. prepare_toy-some sql m p h;
  finalize_one = λ p m h q. occurrences-without p q m h;
  bind_keeps = λ stmt i v m u. refl;
  step_keeps = λ stmt m u. refl;
  reset_keeps = λ stmt m u. refl;
  clear_keeps = λ stmt m u. refl;
}

abbrev sql : Bytes
sql = codes "SELECT 1;"

abbrev h0 : Heap (List ℕ)
h0 = record { lib = []; variables = [] }

abbrev h1 : Heap (List ℕ)
h1 = construct toy 1 (some 7) sql h0

abbrev h2 : Heap (List ℕ)
h2 = construct toy 2 (some 7) sql h1

abbrev first : Statement
first = record { db = some 7; stmt = some 1 }

abbrev second : Statement
second = record { db = some 7; stmt = some 2 }

-- The first variable's statement is finalized, and it gets the second's.
abbrev h3 : Heap (List ℕ)
h3 = move_assign toy 1 2 first second h2

abbrev h4 : Heap (List ℕ)
h4 = destroy_variable toy 2 emptied h3

abbrev h5 : Heap (List ℕ)
h5 = destroy_variable toy 1 second h4

h3-Runs : Runs toy h3
unfolding construct prepare find_variable store_variable
h3-Runs =
    Runs.then
      (Runs.then (Runs.then (Runs.begins [] refl) (Does.constructs 1 (some 7) sql refl))
        (Does.constructs 2 (some 7) sql refl))
      (Does.assigns 1 2 first second refl refl)

h5-Runs : Runs toy h5
unfolding construct prepare find_variable store_variable move_assign destroy destroy_variable
    erase_variable
h5-Runs = Runs.then (Runs.then h3-Runs (Does.destroys 2 emptied refl)) (Does.destroys 1 second refl)

Runs-IsOwned_example : IsOwned toy h3
Runs-IsOwned_example = Runs-IsOwned toy h3 h3-Runs

Runs-none_left_example : h5.lib ≡ []
Runs-none_left_example = Runs-none_left toy h5 h5-Runs (
    unfold construct in
    unfold prepare in
    unfold store_variable in
    unfold move_assign in
    unfold destroy in unfold destroy_variable in unfold erase_variable in refl)

-- A file that does not open gives a connection all the same, here for the empty path.
abbrev open_toy : Bytes → List ℕ → (ℕ × Option ℕ) × List ℕ
open_toy [] ps = ((14, some (1 + total ps)), (1 + total ps) ∷ ps)
open_toy (c ∷ s) ps = ((0, some (1 + total ps)), (1 + total ps) ∷ ps)

open_toy-none : (path : Bytes) (m : List ℕ) → (open_toy path m).0.1 ≡ none → (open_toy path m).1 ≡ m
open_toy-none [] m h = ground arith
open_toy-none (c ∷ s) m h = ground arith

open_toy-some :
    (path : Bytes) (m : List ℕ) (p : ℕ)
    → (open_toy path m).0.1 ≡ some p
    → (open_toy path m).1 ≡ p ∷ m
open_toy-some [] m p h = ground arith
open_toy-some (c ∷ s) m p h = ground arith

without-first : (p : ℕ) (m ps : List ℕ) → m ≡ p ∷ ps → without p m ≡ ps
without-first p m ps h = rw h (ground arith)

abbrev toy_files : Connections (List ℕ)
toy_files = record {
  open_v2 = open_toy;
  close = without;
  exec = λ db m. (0, m);
  opened = λ m. m;
  open_none = open_toy-none;
  open_some = open_toy-some;
  close_first = without-first;
  exec_keeps = λ db m. refl;
}

open_database-Opens_example :
    Opens toy_files
      (3 ∷ [])
      (open_database toy_files [] (3 ∷ [])).0
      (open_database toy_files [] (3 ∷ [])).1
open_database-Opens_example = open_database-Opens toy_files [] (3 ∷ [])

closed_again : open_database toy_files [] (3 ∷ []) ≡ (Result.throw, 3 ∷ [])
unfolding open_database close_handle
closed_again = refl
