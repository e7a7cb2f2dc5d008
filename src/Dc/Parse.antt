-- ===== src/Dc/Parse.antt =====
-- src/dc/admin_parse.h and admin_parse.cpp; `trim` stands in admin_route.cpp once more.
pub mod Trim
pub mod Marker
use deltafeedback.Prelude.{
  ℕ, suc, ◌+◌, Bool, true, false, not, ◌&&◌, ◌||◌, [], ◌∷◌, ◌++◌, Option, none, some, Bytes, codes,
  bytes_eq, leb, ◌==◌, if◌then◌else◌,
}

pub data Kind : Type 0 where
  reply close no_ticket_id : Kind

pub record AdminCommand : Type 0 where
  pub kind : Kind
  pub ticket_id : Bytes
  pub body : Bytes

unfoldable pub is_id_char : ℕ → Bool
is_id_char c = (leb b'A' c && leb c b'Z') || (leb b'0' c && leb c b'9')

-- `std::isspace` in the "C" locale.
unfoldable pub is_space : ℕ → Bool
is_space c = c == b' ' || (leb 9 c && leb c 13)

-- The first loop of `trim`: `a` moves past the spaces in front.
unfoldable pub drop_space : Bytes → Bytes
drop_space [] = []
drop_space (c ∷ s) = if is_space c then drop_space s else c ∷ s

-- The second loop: `b` moves back past the spaces at the end. The character in front of what is left
-- goes too, if that is nothing and the character is a space.
unfoldable pub put_before : ℕ → Bytes → Bytes
put_before c [] = if is_space c then [] else c ∷ []
put_before c (d ∷ r) = c ∷ d ∷ r

unfoldable pub drop_space_end : Bytes → Bytes
drop_space_end [] = []
drop_space_end (c ∷ s) = put_before c (drop_space_end s)

unfoldable pub trim : Bytes → Bytes
unfolding drop_space drop_space_end put_before is_space
trim s = drop_space_end (drop_space s)

-- The test of the scan at one position: `[`, six id characters, `]`. `none` where it fails, which
-- includes a text of fewer than eight bytes; else the six characters and what is behind them.
unfoldable pub marker_at : Bytes → Option (Bytes × Bytes)
unfolding is_id_char
marker_at (o ∷ a ∷ b ∷ c ∷ d ∷ e ∷ f ∷ z ∷ rest) =
    if o == b'['
      && z == b']'
      && is_id_char a
      && is_id_char b
      && is_id_char c
      && is_id_char d
      && is_id_char e
      && is_id_char f
    then some (a ∷ b ∷ c ∷ d ∷ e ∷ f ∷ [], rest)
    else none
marker_at _ = none

pub record Found : Type 0 where
  pub before : Bytes
  pub id : Bytes
  pub after : Bytes

-- The scan over all positions; `before` is the text up to the position.
unfoldable pub scan : Bytes → Bytes → Option Found
unfolding marker_at
scan before [] = none
scan before (c ∷ s) = elim (marker_at (c ∷ s)) [
  | none ↦ scan (before ++ c ∷ []) s
  | some (id, after) ↦ some (record { before = before; id = id; after = after })
]

unfoldable pub command_of : Option Found → AdminCommand
unfolding trim
command_of none = record { kind = Kind.no_ticket_id; ticket_id = []; body = [] }
command_of (some f) =
    let body = trim (f.before ++ f.after) in
    if bytes_eq body (codes "/close")
    then record { kind = Kind.close; ticket_id = f.id; body = [] }
    else record { kind = Kind.reply; ticket_id = f.id; body = body }

unfoldable pub parse_admin_message : Bytes → AdminCommand
unfolding scan command_of
parse_admin_message text = command_of (scan [] text)
