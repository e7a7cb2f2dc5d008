-- ===== src/Server/Headers.antt =====
-- `visitor_ip` and `bearer` of src/server/server.cpp. The value of a header is an argument, empty where
-- the request has none.
pub mod Address
use deltafeedback.Prelude.{
  ℕ, ◌+◌, Bool, true, false, not, [], ◌∷◌, Option, none, some, Bytes, codes, is_empty, take, ◌==◌,
  if◌then◌else◌,
}
use deltafeedback.Dc.Parse.{trim}

-- What stands in front of the first `c`; the whole text if there is none.
unfoldable pub up_to : ℕ → Bytes → Bytes
up_to c [] = []
up_to c (x ∷ s) = if x == c then [] else x ∷ up_to c s

unfoldable pub has_byte : ℕ → Bytes → Bool
has_byte c [] = false
has_byte c (x ∷ s) = if x == c then true else has_byte c s

-- `std::count`.
unfoldable pub count : ℕ → Bytes → ℕ
count c [] = 0
count c (x ∷ s) = (if x == c then 1 else 0) + count c s

-- The brackets of an IPv6 address with what follows them, or the port of an IPv4 address.
unfoldable pub strip_port : Bytes → Bytes
unfolding up_to has_byte count
strip_port [] = []
strip_port (c ∷ s) =
    if c == b'['
    then (if has_byte b']' s then up_to b']' s else c ∷ s)
    else if count b':' (c ∷ s) == 1
    then up_to b':' (c ∷ s)
    else c ∷ s

unfoldable pub take_first : Bytes → Bytes
unfolding up_to strip_port
take_first s = take 64 (strip_port (trim (up_to b',' s)))

unfoldable pub visitor_ip : Bytes → Bytes → Bytes → Bytes
unfolding take_first
visitor_ip xff xri remote_ip_address =
    if not (is_empty xff)
    then take_first xff
    else if not (is_empty xri)
    then take_first xri
    else remote_ip_address

-- The text behind a prefix.
unfoldable pub behind : Bytes → Bytes → Option Bytes
behind [] s = some s
behind (c ∷ prefix) [] = none
behind (c ∷ prefix) (x ∷ s) = if c == x then behind prefix s else none

abbrev or_empty : Option Bytes → Bytes
or_empty none = []
or_empty (some s) = s

unfoldable pub bearer : Bytes → Bytes
unfolding behind
bearer h = or_empty (behind (codes "Bearer ") h)
