-- ===== src/Db/State.antt =====
-- `StateRepo` of src/db/state.h and state.cpp, a dictionary over the table `state`.
use deltafeedback.Prelude.{
  ◌≡◌, refl, List, [], ◌∷◌, Option, none, some, Bytes, bytes_eq, bytes_eq_iff, if◌then◌else◌, arith,
}
use deltafeedback.Db.Schema.{StateRow, Database}

-- `kStateGet`.
unfoldable pub select_state : Bytes → List StateRow → Option Bytes
select_state k [] = none
select_state k (r ∷ rs) = if bytes_eq r.key k then some r.value else select_state k rs

-- `kStateSet`.
unfoldable pub upsert_state : Bytes → Bytes → List StateRow → List StateRow
upsert_state k v [] = record { key = k; value = v } ∷ []
upsert_state k v (r ∷ rs) =
    if bytes_eq r.key k then record r { value = v } ∷ rs else r ∷ upsert_state k v rs

-- `kStateDel`.
unfoldable pub delete_state : Bytes → List StateRow → List StateRow
delete_state k [] = []
delete_state k (r ∷ rs) = if bytes_eq r.key k then delete_state k rs else r ∷ delete_state k rs

unfoldable pub get : Bytes → Database → Option Bytes
get k db = select_state k db.state

unfoldable pub set : Bytes → Bytes → Database → Database
set k v db = record db { state = upsert_state k v db.state }

unfoldable pub erase : Bytes → Database → Database
erase k db = record db { state = delete_state k db.state }

select-upsert :
    (k j v : Bytes) (rs : List StateRow)
    → select_state j (upsert_state k v rs) ≡ (if bytes_eq k j then some v else select_state j rs)
unfolding select_state upsert_state
select-upsert k j v [] = refl
select-upsert k j v (r ∷ rs) =
    ground
      (arith, bytes_eq_iff k j, bytes_eq_iff r.key k, bytes_eq_iff r.key j, select-upsert k j v rs)

select-delete :
    (k j : Bytes) (rs : List StateRow)
    → select_state j (delete_state k rs) ≡ (if bytes_eq k j then none else select_state j rs)
unfolding select_state delete_state
select-delete k j [] = ground arith
select-delete k j (r ∷ rs) =
    ground
      (arith, bytes_eq_iff k j, bytes_eq_iff r.key k, bytes_eq_iff r.key j, select-delete k j rs)

-- `StateRepo` is a dictionary: after `set` a key reads as the new value, after `erase` as missing,
-- and every other key reads as before.
pub get_after :
    (k j v : Bytes) (db : Database)
    → (get j (set k v db) ≡ (if bytes_eq k j then some v else get j db))
      × (get j (erase k db) ≡ (if bytes_eq k j then none else get j db))
unfolding get set erase
get_after k j v db = (select-upsert k j v db.state, select-delete k j db.state)
