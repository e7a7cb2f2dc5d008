-- ===== src/App/Config/Dictionary.antt =====
-- `Config` as a dictionary: what is found after entries are put in.
use deltafeedback.Prelude.{
  ◌≡◌, refl, sym, ap, ◌∙◌, inl, inr, true, List, [], ◌∷◌, ◌++◌, Option, none, some, Bytes, bytes_eq,
  bytes_eq_iff, if◌then◌else◌, Bool-cases, arith,
}
use deltafeedback.App.Config.{Entry, put, find}
use deltafeedback.App.Config.Order.{
  IsSorted, Before, After, bytes_lt_asym, lt-not_eq, bytes_lt_irrefl, put-IsSorted,
}

pub find-put :
    (j k v : Bytes) (m : List Entry)
    → find j (put k v m) ≡ (if bytes_eq j k then some v else find j m)
unfolding find put
find-put j k v [] = refl
find-put j k v ((i, w) ∷ m) =
    ground (arith, find-put j k v m, bytes_eq_iff j k, bytes_eq_iff k i, bytes_eq_iff j i)

-- A key after all others is put at the end.
pub put_last : (k v : Bytes) (m : List Entry) → After k m → put k v m ≡ m ++ (k, v) ∷ []
unfolding put
put_last k v [] h = refl
put_last k v ((i, w) ∷ m) (lt, h) =
    rw (lt-not_eq i k lt, bytes_lt_asym i k lt) (ap (◌∷◌ (i, w)) (put_last k v m h))

find-Before : (j k : Bytes) (m : List Entry) → bytes_eq j k ≡ true → Before k m → find j m ≡ none
unfolding find
find-Before j k [] e b = refl
find-Before j k ((i, w) ∷ m) e (lt, b) =
    ground (arith, bytes_eq_iff j k, bytes_eq_iff j i, bytes_lt_irrefl k, find-Before j k m e b)

-- The loop of `load_with_account`: every entry of `over` is put into `m`.
unfoldable pub put_all : List Entry → List Entry → List Entry
put_all m [] = m
put_all m ((k, v) ∷ over) = put_all (put k v m) over

abbrev pub or_else : Option Bytes → Option Bytes → Option Bytes
or_else none o = o
or_else (some v) o = some v

-- The entries of `over` hide those of `m`.
pub find-put_all :
    (j : Bytes) (m over : List Entry)
    → IsSorted over
    → find j (put_all m over) ≡ or_else (find j over) (find j m)
unfolding put_all
find-put_all j m [] h = unfold find in refl
find-put_all j m ((k, v) ∷ over) (b, h) = elim (Bool-cases (bytes_eq j k)) [
  | inl same ↦
      find-put_all j (put k v m) over h
      ∙ rw (find-Before j k over same b) (find-put j k v m ∙ rw same (unfold find in rw same))
  | inr other ↦
      let passed : find j (put k v m) ≡ find j m = find-put j k v m ∙ rw other refl in
      let skipped : find j ((k, v) ∷ over) ≡ find j over = unfold find in rw other in
      find-put_all j (put k v m) over h ∙ rw (passed, skipped)
]

pub put_all-IsSorted : (m over : List Entry) → IsSorted m → IsSorted (put_all m over)
unfolding put_all
put_all-IsSorted m [] h = h
put_all-IsSorted m ((k, v) ∷ over) h = put_all-IsSorted (put k v m) over (put-IsSorted k v m h)

-- The value of `j` after entries in any order: the last one of the key counts.
abbrev pub last_of : Bytes → List Entry → Option Bytes → Option Bytes
last_of j [] o = o
last_of j ((k, v) ∷ over) o = last_of j over (if bytes_eq j k then some v else o)

pub find-put_all_last :
    (j : Bytes) (m over : List Entry) → find j (put_all m over) ≡ last_of j over (find j m)
unfolding put_all
find-put_all_last j m [] = refl
find-put_all_last j m ((k, v) ∷ over) =
    find-put_all_last j (put k v m) over ∙ ap (last_of j over) (find-put j k v m)

or_else_assoc : (a b c : Option Bytes) → or_else (or_else a b) c ≡ or_else a (or_else b c)
or_else_assoc none b c = refl
or_else_assoc (some v) b c = refl

-- The entries decide, or leave what there was.
pub last_of-or_else :
    (j : Bytes) (over : List Entry) (o : Option Bytes)
    → last_of j over o ≡ or_else (last_of j over none) o
last_of-or_else j [] o = refl
last_of-or_else j ((k, v) ∷ over) o = elim (Bool-cases (bytes_eq j k)) [
  | inl same ↦ rw same (
      last_of-or_else j over (some v)
      ∙ sym (
          ap (λ x. or_else x o) (last_of-or_else j over (some v))
          ∙ or_else_assoc (last_of j over none) (some v) o))
  | inr other ↦ rw other (last_of-or_else j over o)
]
