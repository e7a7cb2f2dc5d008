-- ===== src/Prelude/Monad.antt =====
-- Code that may throw and changes a state: what was changed before the throw stays changed.

-- The source's exceptions are all `std::runtime_error`, and nothing tells one from another.
pub data Result {ℓ} (A : Type ℓ) : Type ℓ where
  ok : A → Result A
  throw : Result A

abbrev pub Exec : Type 0 → Type 0 → Type 0
Exec S A = S → Result A × S

abbrev pub pure : {S A : Type 0} → A → Exec S A
pure a s = (ok a, s)

abbrev pub bind_at : {S A B : Type 0} → (A → Exec S B) → Result A × S → Result B × S
bind_at f (ok a, s) = f a s
bind_at f (throw, s) = (throw, s)

infixl 5 ◌>>=◌ ◌>>◌
abbrev pub ◌>>=◌ : {S A B : Type 0} → Exec S A → (A → Exec S B) → Exec S B
◌>>=◌ m f s = bind_at f (m s)

abbrev pub ◌>>◌ : {S B : Type 0} → Exec S (Unit {0}) → Exec S B → Exec S B
m >> k = m >>= λ _. k
