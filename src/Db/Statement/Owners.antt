-- ===== src/Db/Statement/Owners.antt =====
-- How many variables own a prepared statement.
use deltafeedback.Prelude.{
  ℕ, ◌+◌, ◌≤◌, ◌≡◌, ◌≢◌, subst, inl, inr, List, [], ◌∷◌, Option, none, some, ◌==◌, if◌then◌else◌,
  Bool-cases, arith,
}
use deltafeedback.Db.Statement.{occurrences, Statement}
use deltafeedback.Db.Statement.Variables.{Variables, find_variable, store_variable, erase_variable}

abbrev pub holds : ℕ → Option ℕ → ℕ
holds p none = 0
holds p (some q) = if q == p then 1 else 0

-- The number of variables that own `p`.
abbrev pub owners : ℕ → Variables → ℕ
owners p [] = 0
owners p ((v, s) ∷ vs) = holds p s.stmt + owners p vs

pub owners-store_new :
    (p v : ℕ) (s : Statement) (vs : Variables)
    → find_variable v vs ≡ none
    → owners p (store_variable v s vs) ≡ owners p vs + holds p s.stmt
unfolding find_variable store_variable
owners-store_new p v s [] e = omega arith
owners-store_new p v s ((w, t) ∷ vs) e = ground (arith, owners-store_new p v s vs)

pub owners-store :
    (p v : ℕ) (s t : Statement) (vs : Variables)
    → find_variable v vs ≡ some t
    → owners p (store_variable v s vs) + holds p t.stmt ≡ owners p vs + holds p s.stmt
unfolding find_variable store_variable
owners-store p v s t [] e = ground arith
owners-store p v s t ((w, u) ∷ vs) e = ground (arith, owners-store p v s t vs)

pub owners-erase :
    (p v : ℕ) (t : Statement) (vs : Variables)
    → find_variable v vs ≡ some t
    → owners p (erase_variable v vs) + holds p t.stmt ≡ owners p vs
unfolding find_variable erase_variable
owners-erase p v t [] e = ground arith
owners-erase p v t ((w, u) ∷ vs) e = ground (arith, owners-erase p v t vs)

pub find_other :
    (v w : ℕ) (s : Statement) (vs : Variables)
    → v ≢ w
    → find_variable w (store_variable v s vs) ≡ find_variable w vs
unfolding find_variable store_variable
find_other v w s [] ne = ground arith
find_other v w s ((u, t) ∷ vs) ne = ground (arith, find_other v w s vs ne)

pub fresh_occurrences :
    (p q : ℕ) (live : List ℕ)
    → occurrences q live ≡ 0
    → occurrences p live ≤ 1
    → occurrences p (q ∷ live) ≤ 1
fresh_occurrences p q live new most = elim (Bool-cases (q == p)) [
  | inl same ↦
      let e : q ≡ p = ground arith in
      let none_yet = subst (λ x. occurrences x live ≡ 0) e new in rw same (omega (arith, none_yet))
  | inr other ↦ rw other (omega (arith, most))
]
