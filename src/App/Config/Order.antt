-- ===== src/App/Config/Order.antt =====
-- The order of std::string is total, and the map's entries stand in it.
use deltafeedback.Prelude.{
  ◌≡◌, refl, inl, inr, true, false, List, [], ◌∷◌, Bytes, bytes_eq, bytes_eq_iff, All, Bool-cases,
  arith,
}
use deltafeedback.App.Config.{Entry, bytes_lt, put}

pub bytes_lt_asym : (a b : Bytes) → bytes_lt a b ≡ true → bytes_lt b a ≡ false
unfolding bytes_lt
bytes_lt_asym [] [] h = refl
bytes_lt_asym [] (y ∷ b) h = refl
bytes_lt_asym (x ∷ a) [] h = absurd (ground arith)
bytes_lt_asym (x ∷ a) (y ∷ b) h = ground (arith, bytes_lt_asym a b)

pub bytes_lt_irrefl : (a : Bytes) → bytes_lt a a ≡ false
unfolding bytes_lt
bytes_lt_irrefl [] = refl
bytes_lt_irrefl (x ∷ a) = ground (arith, bytes_lt_irrefl a)

pub bytes_lt_trans :
    (a b c : Bytes) → bytes_lt a b ≡ true → bytes_lt b c ≡ true → bytes_lt a c ≡ true
unfolding bytes_lt
bytes_lt_trans [] [] c h k = k
bytes_lt_trans [] (y ∷ b) [] h k = k
bytes_lt_trans [] (y ∷ b) (z ∷ c) h k = refl
bytes_lt_trans (x ∷ a) [] c h k = absurd (ground arith)
bytes_lt_trans (x ∷ a) (y ∷ b) [] h k = k
bytes_lt_trans (x ∷ a) (y ∷ b) (z ∷ c) h k = ground (arith, bytes_lt_trans a b c)

-- One of two different keys is before the other.
pub bytes_lt_total :
    (a b : Bytes) → bytes_eq a b ≡ false → bytes_lt a b ≡ false → bytes_lt b a ≡ true
unfolding bytes_lt bytes_eq
bytes_lt_total [] [] e h = ground arith
bytes_lt_total [] (y ∷ b) e h = ground arith
bytes_lt_total (x ∷ a) [] e h = refl
bytes_lt_total (x ∷ a) (y ∷ b) e h = ground (arith, bytes_lt_total a b)

pub lt-not_eq : (a b : Bytes) → bytes_lt a b ≡ true → bytes_eq b a ≡ false
lt-not_eq a b h = elim (Bool-cases (bytes_eq b a)) [
  | inl e ↦ ground (arith, bytes_eq_iff b a, bytes_lt_irrefl a)
  | inr e ↦ e
]

-- A key before, or after, all the keys of a list.
abbrev pub Before : Bytes → List Entry → Type 0
Before k = All (λ e. bytes_lt k e.0 ≡ true)

abbrev pub After : Bytes → List Entry → Type 0
After k = All (λ e. bytes_lt e.0 k ≡ true)

abbrev pub IsSorted : List Entry → Type 0
IsSorted [] = Unit
IsSorted ((k, v) ∷ m) = Before k m × IsSorted m

Before-trans : (j k : Bytes) (m : List Entry) → bytes_lt j k ≡ true → Before k m → Before j m
Before-trans j k [] h b = tt
Before-trans j k ((i, w) ∷ m) h (hi, b) = (bytes_lt_trans j k i h hi, Before-trans j k m h b)

Before-put :
    (j k v : Bytes) (m : List Entry) → bytes_lt j k ≡ true → Before j m → Before j (put k v m)
unfolding put
Before-put j k v [] h b = (h, tt)
Before-put j k v ((i, w) ∷ m) h (hi, b) = elim (Bool-cases (bytes_eq k i)) [
  | inl same ↦ rw same (h, b)
  | inr other ↦ elim (Bool-cases (bytes_lt k i)) [
    | inl lt ↦ rw (other, lt) (h, (hi, b))
    | inr ge ↦ rw (other, ge) (hi, Before-put j k v m h b)
  ]
]

pub put-IsSorted : (k v : Bytes) (m : List Entry) → IsSorted m → IsSorted (put k v m)
unfolding put
put-IsSorted k v [] h = (tt, tt)
put-IsSorted k v ((i, w) ∷ m) (b, h) = elim (Bool-cases (bytes_eq k i)) [
  | inl same ↦ rw (same, put) (let e : k ≡ i = (bytes_eq_iff k i).0 same in rw e (b, h))
  | inr other ↦ elim (Bool-cases (bytes_lt k i)) [
    | inl lt ↦ rw (other, lt, put) ((lt, Before-trans k i m lt b), (b, h))
    | inr ge ↦
        rw (other, ge, put)
          (Before-put i k v m (bytes_lt_total k i other ge) b, put-IsSorted k v m h)
  ]
]
