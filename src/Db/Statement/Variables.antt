-- ===== src/Db/Statement/Variables.antt =====
-- A program's variables of the class `Statement`: how they are made, moved, assigned and destroyed.
use deltafeedback.Prelude.{
  ℕ, ◌≡◌, List, [], ◌∷◌, Option, none, some, Bytes, ◌==◌, if◌then◌else◌, Result,
}
use deltafeedback.Db.Statement.{
  Value, Sqlite, Statement, emptied, prepare, destroy, bind_value, step, reset,
}

abbrev pub Variables : Type 0
Variables = List (ℕ × Statement)

unfoldable pub find_variable : ℕ → Variables → Option Statement
find_variable v [] = none
find_variable v ((w, s) ∷ vs) = if w == v then some s else find_variable v vs

unfoldable pub store_variable : ℕ → Statement → Variables → Variables
store_variable v s [] = (v, s) ∷ []
store_variable v s ((w, t) ∷ vs) = if w == v then (v, s) ∷ vs else (w, t) ∷ store_variable v s vs

unfoldable pub erase_variable : ℕ → Variables → Variables
erase_variable v [] = []
erase_variable v ((w, t) ∷ vs) = if w == v then vs else (w, t) ∷ erase_variable v vs

pub record Heap (M : Type 0) : Type 0 where
  pub lib : M
  pub variables : Variables

module _ {M : Type 0} (lib : Sqlite M) where
  -- A constructor that throws leaves no variable.
  abbrev constructed : ℕ → Heap M → Result Statement × M → Heap M
  constructed v h (Result.throw, m) = record h { lib = m }
  constructed v h (Result.ok s, m) = record { lib = m; variables = store_variable v s h.variables }

  unfoldable pub construct : ℕ → Option ℕ → Bytes → Heap M → Heap M
  unfolding store_variable prepare
  construct v db sql h = constructed v h (prepare lib db sql h.lib)

  unfoldable pub destroy_variable : ℕ → Statement → Heap M → Heap M
  unfolding erase_variable destroy
  destroy_variable v s h = record {
    lib = destroy lib s h.lib;
    variables = erase_variable v h.variables;
  }

  -- `Statement v(std::move(w))`, where `w` holds `o`.
  unfoldable pub move_construct : ℕ → ℕ → Statement → Heap M → Heap M
  unfolding store_variable
  move_construct v w o h = record h {
    variables = store_variable v o (store_variable w emptied h.variables);
  }

  -- `v = std::move(w)`, where `v` holds `s` and `w` holds `o`.
  unfoldable pub move_assign : ℕ → ℕ → Statement → Statement → Heap M → Heap M
  unfolding store_variable destroy
  move_assign v w s o h = if v == w then h else record {
    lib = destroy lib s h.lib;
    variables = store_variable w emptied (store_variable v o h.variables);
  }

  -- What a program may do: it names variables that are there, and new ones where it makes one. A
  -- variable that was moved from may be used.
  pub data Does (h : Heap M) : Heap M → Type 0 where
    constructs :
        (v : ℕ) (db : Option ℕ) (sql : Bytes)
        → find_variable v h.variables ≡ none
        → Does h (construct v db sql h)
    destroys :
        (v : ℕ) (s : Statement)
        → find_variable v h.variables ≡ some s
        → Does h (destroy_variable v s h)
    moves :
        (v w : ℕ) (o : Statement)
        → find_variable v h.variables ≡ none
        → find_variable w h.variables ≡ some o
        → Does h (move_construct v w o h)
    assigns :
        (v w : ℕ) (s o : Statement)
        → find_variable v h.variables ≡ some s
        → find_variable w h.variables ≡ some o
        → Does h (move_assign v w s o h)
    binds :
        (v : ℕ) (s : Statement) (i : ℕ) (x : Value)
        → find_variable v h.variables ≡ some s
        → Does h (record h { lib = (bind_value lib i x s h.lib).1 })
    steps :
        (v : ℕ) (s : Statement)
        → find_variable v h.variables ≡ some s
        → Does h (record h { lib = (step lib s h.lib).1 })
    resets :
        (v : ℕ) (s : Statement)
        → find_variable v h.variables ≡ some s
        → Does h (record h { lib = reset lib s h.lib })

  pub data Runs : Heap M → Type 0 where
    begins : (m : M) → lib.live m ≡ [] → Runs (record { lib = m; variables = [] })
    then : {h k : Heap M} → Runs h → Does h k → Runs k
