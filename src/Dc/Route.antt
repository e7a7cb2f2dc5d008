-- ===== src/Dc/Route.antt =====
-- src/dc/admin_route.h and admin_route.cpp.
pub mod Sources
use deltafeedback.Prelude.{
  ℕ, Bool, true, false, not, ◌&&◌, [], ◌∷◌, Option, none, some, Bytes, codes, bytes_eq, ◌==◌,
  if◌then◌else◌,
}
use deltafeedback.Dc.Parse.{Kind, AdminCommand, trim, parse_admin_message}

pub record AdminRoute : Type 0 where
  pub kind : Kind
  pub ticket_id : Bytes
  pub body : Bytes

unfoldable pub make_kind : Bytes → Bytes → AdminRoute
make_kind ticket_id body =
    if bytes_eq body (codes "/close")
    then record { kind = Kind.close; ticket_id = ticket_id; body = [] }
    else record { kind = Kind.reply; ticket_id = ticket_id; body = body }

-- The ticket of the quoted message; `lookup` is `none` for an empty `std::function`.
unfoldable pub quoted_ticket : ℕ → Option (ℕ → Option Bytes) → Option Bytes
quoted_ticket quoted_msg_id none = none
quoted_ticket quoted_msg_id (some lookup) =
    if not (quoted_msg_id == 0) then lookup quoted_msg_id else none

-- Step 3, and the default.
unfoldable pub route_quoted : Bytes → AdminCommand → AdminRoute
unfolding trim make_kind
route_quoted text qcmd = elim qcmd.kind [
  | Kind.no_ticket_id ↦ record { kind = Kind.no_ticket_id; ticket_id = []; body = [] }
  | _ ↦ make_kind qcmd.ticket_id (trim text)
]

-- Steps 2 and 3.
unfoldable pub route_typed : Bytes → Bytes → AdminCommand → AdminRoute
unfolding route_quoted
route_typed text quoted_text cmd = elim cmd.kind [
  | Kind.close ↦ record { kind = Kind.close; ticket_id = cmd.ticket_id; body = cmd.body }
  | Kind.reply ↦ record { kind = Kind.reply; ticket_id = cmd.ticket_id; body = cmd.body }
  | Kind.no_ticket_id ↦ route_quoted text (parse_admin_message quoted_text)
]

unfoldable pub route_admin_message : Bytes → ℕ → Bytes → Option (ℕ → Option Bytes) → AdminRoute
unfolding route_typed
route_admin_message text quoted_msg_id quoted_text lookup =
    elim (quoted_ticket quoted_msg_id lookup) [
      | some t ↦ make_kind t (trim text)
      | none ↦ route_typed text quoted_text (parse_admin_message text)
    ]
