-- ===== src/App/Config.antt =====
-- `Config` of src/app/config.h and config.cpp, on the text of a file.
pub mod Order
pub mod Blank
pub mod Dictionary
pub mod RoundTrip
pub mod Loaded
use deltafeedback.Prelude.{
  ℕ, ◌+◌, ◌*◌, ◌-◌, ◌^◌, Bool, true, false, not, ◌&&◌, ◌||◌, List, [], ◌∷◌, ◌++◌, Option, none,
  some, Bytes, bytes_eq, is_empty, leb, ltb, ◌==◌, if◌then◌else◌, ℤ, pos, negsuc,
}
use deltafeedback.Dc.Parse.{drop_space}
use deltafeedback.Dc.Bot.Owner.{digit_prefix}

-- `operator<` of std::string, which orders the map.
unfoldable pub bytes_lt : Bytes → Bytes → Bool
bytes_lt [] [] = false
bytes_lt [] (y ∷ b) = true
bytes_lt (x ∷ a) [] = false
bytes_lt (x ∷ a) (y ∷ b) = if ltb x y then true else if ltb y x then false else bytes_lt a b

abbrev pub Entry : Type 0
Entry = Bytes × Bytes

-- `kv_`: a std::map, whose entries stand in the order of their keys.
pub record Config : Type 0 where
  pub kv : List Entry

-- `m[k] = v`.
unfoldable pub put : Bytes → Bytes → List Entry → List Entry
unfolding bytes_lt
put k v [] = (k, v) ∷ []
put k v ((j, w) ∷ m) =
    if bytes_eq k j
    then (k, v) ∷ m
    else if bytes_lt k j
    then (k, v) ∷ (j, w) ∷ m
    else (j, w) ∷ put k v m

-- `m.find(k)`.
unfoldable pub find : Bytes → List Entry → Option Bytes
find k [] = none
find k ((j, w) ∷ m) = if bytes_eq k j then some w else find k m

-- `" \t\r\n"`.
unfoldable pub is_blank : ℕ → Bool
is_blank c = c == 32 || c == 9 || c == 13 || c == 10

-- `substr` from `find_first_not_of` on.
unfoldable pub drop_blank : Bytes → Bytes
drop_blank [] = []
drop_blank (c ∷ s) = if is_blank c then drop_blank s else c ∷ s

-- `substr` up to `find_last_not_of`.
unfoldable pub keep_before : ℕ → Bytes → Bytes
keep_before c [] = if is_blank c then [] else c ∷ []
keep_before c (d ∷ s) = c ∷ d ∷ s

unfoldable pub drop_blank_end : Bytes → Bytes
drop_blank_end [] = []
drop_blank_end (c ∷ s) = keep_before c (drop_blank_end s)

unfoldable pub trim : Bytes → Bytes
unfolding drop_blank drop_blank_end keep_before is_blank
trim s = drop_blank_end (drop_blank s)

-- `std::getline` until it fails: the text behind the last line feed is a line unless it is empty.
abbrev pub cons_line : ℕ → List Bytes → List Bytes
cons_line c [] = (c ∷ []) ∷ []
cons_line c (l ∷ ls) = (c ∷ l) ∷ ls

unfoldable pub read_lines : Bytes → List Bytes
read_lines [] = []
read_lines (c ∷ s) = let rest = read_lines s in if c == 10 then [] ∷ rest else cons_line c rest

-- The parts around the first `=`.
abbrev pub cons_key : ℕ → Option Entry → Option Entry
cons_key c none = none
cons_key c (some (k, v)) = some (c ∷ k, v)

unfoldable pub split_at_eq : Bytes → Option Entry
split_at_eq [] = none
split_at_eq (c ∷ s) = if c == b'=' then some ([], s) else cons_key c (split_at_eq s)

abbrev pub is_comment : Bytes → Bool
is_comment [] = true
is_comment (c ∷ s) = c == b'#'

abbrev pub put_trimmed : Option Entry → List Entry → List Entry
put_trimmed none m = m
put_trimmed (some (k, v)) m = put (trim k) (trim v) m

-- The body of the loop.
unfoldable pub read_line : List Entry → Bytes → List Entry
read_line m line = let t = trim line in if is_comment t then m else put_trimmed (split_at_eq t) m

unfoldable pub read_all : List Entry → List Bytes → List Entry
read_all m [] = m
read_all m (l ∷ ls) = read_all (read_line m l) ls

unfoldable pub load : Bytes → Config
unfolding read_lines read_line read_all split_at_eq
load text = record { kv = read_all [] (read_lines text) }

-- What `save` writes.
unfoldable pub print : List Entry → Bytes
print [] = []
print ((k, v) ∷ m) = k ++ b'=' ∷ (v ++ 10 ∷ print m)

abbrev pub filled : Option Bytes → Bool
filled none = false
filled (some v) = not (is_empty v)

abbrev pub filled_or : Option Bytes → Bytes → Bytes
filled_or none fallback = fallback
filled_or (some v) fallback = if is_empty v then fallback else v

unfoldable pub has : Bytes → Config → Bool
unfolding find
has key c = filled (find key c.kv)

unfoldable pub get : Bytes → Bytes → Config → Bytes
unfolding find
get key fallback c = filled_or (find key c.kv) fallback

unfoldable pub set : Bytes → Bytes → Config → Config
unfolding put
set key value c = record { kv = put key value c.kv }

abbrev is_digit : ℕ → Bool
is_digit c = leb b'0' c && leb c b'9'

-- The digits of `std::stoi`, under the sign; `none` is an exception: no digit, or not an `int`.
abbrev signed_int : Bool → Bytes → Option ℤ
signed_int negative [] = none
signed_int negative (c ∷ s) =
    if not (is_digit c)
    then none
    else (let v = digit_prefix (c ∷ s) 0 in
        if negative
        then (if leb v (2 ^ 31) then some (if v == 0 then pos 0 else negsuc (v - 1)) else none)
        else (if ltb v (2 ^ 31) then some (pos v) else none))

abbrev with_sign : Bytes → Option ℤ
with_sign [] = none
with_sign (c ∷ s) =
    if c == b'-'
    then signed_int true s
    else if c == b'+'
    then signed_int false s
    else signed_int false (c ∷ s)

unfoldable pub stoi : Bytes → Option ℤ
unfolding drop_space digit_prefix
stoi s = with_sign (drop_space s)

abbrev int_or : Option ℤ → ℤ → ℤ
int_or none fallback = fallback
int_or (some n) fallback = n

unfoldable pub get_int : Bytes → ℤ → Config → ℤ
unfolding find stoi
get_int key fallback c = elim (find key c.kv) [
  | none ↦ fallback
  | some v ↦ if is_empty v then fallback else int_or (stoi v) fallback
]
