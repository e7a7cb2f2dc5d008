-- ===== src/Tests/Dc.antt =====
-- src/dc.
use deltafeedback.Prelude.{
  ℕ, ◌+◌, ◌≡◌, refl, true, [], ◌∷◌, Option, some, Bytes, codes, arith, pos, bytes_eq,
}
use deltafeedback.Db.Messages.{select_ticket_of, find_ticket_by_dc_msg_id}
use deltafeedback.Dc.Parse.{
  is_id_char, is_space, trim, marker_at, scan, command_of, parse_admin_message, Kind,
}
use deltafeedback.Dc.Parse.Marker.{IsFirstMarker, scan-IsFirstMarker}
use deltafeedback.Dc.Route.{route_admin_message}
use deltafeedback.Dc.Route.Sources.{About, Orders, route_admin_message-Orders}
use deltafeedback.Dc.Sender.{DeltaChat, DcState, send_to_owner}
use deltafeedback.Dc.Bot.{BotState, Incoming, on_incoming_msg}
use deltafeedback.Dc.Bot.Owner.{restore_owner}
use deltafeedback.Dc.Bot.Answer.{Says, Done, on_incoming_msg-Done}
use deltafeedback.Dc.Bot.Events.{
  BotEvent, logged, incoming_msg, run_event_loop, run_event_loop-first,
}
use deltafeedback.Prelude.{List, ◌++◌}
use deltafeedback.Tests.Sample.{two_tickets}
use deltafeedback.Tests.Db.{get_open, read_open}

trim_spaces : trim (codes " a b\n") ≡ codes "a b"
unfolding trim
trim_spaces = refl

scan-IsFirstMarker_example :
    IsFirstMarker (codes "re [A3F2K9] hi") (scan [] (codes "re [A3F2K9] hi"))
scan-IsFirstMarker_example = scan-IsFirstMarker (codes "re [A3F2K9] hi")

parse_close :
    parse_admin_message (codes "[A3F2K9] /close")
    ≡ record { kind = Kind.close; ticket_id = codes "A3F2K9"; body = [] }
unfolding parse_admin_message scan command_of marker_at trim bytes_eq is_id_char
parse_close = refl

abbrev table : Option (ℕ → Option Bytes)
table = some (λ i. find_ticket_by_dc_msg_id i two_tickets)

route_admin_message-Orders_example :
    (o : Option (Bytes × Bytes)) × About (codes " ok ") 77 [] table o
    × Orders o (route_admin_message (codes " ok ") 77 [] table)
route_admin_message-Orders_example = route_admin_message-Orders (codes " ok ") 77 [] table

-- A library whose messages are numbered by a counter below a hundred.
abbrev pub counter : DeltaChat ℕ
counter = record {
  create_chat_by_contact_id = λ contact d. (contact, d);
  send_text_msg = λ chat text d. (5, d + 1);
  can_make_msg = λ d. true;
  has_msg = λ i d. true;
  send_msg = λ chat text quote d. (6, d + 1);
  send_text_msg-u32 = λ chat text d. omega arith;
  send_msg-u32 = λ chat text quote d. omega arith;
}

abbrev owned : DcState ℕ
owned = record { contact_id = 10; dc = 0 }

sent_5 : (send_to_owner counter (codes "hi") 0 owned).0 ≡ some 5
unfolding send_to_owner
sent_5 = refl

abbrev fresh_bot : BotState
fresh_bot = record { db = two_tickets; contact_id = 0; effects = [] }

abbrev bot : BotState
bot = record { db = two_tickets; contact_id = 10; effects = [] }

-- A text of contact 10 that quotes the notification 77.
abbrev pub quoting : Incoming
quoting = record {
  chat_id = 3;
  msg_id = 4;
  from = 10;
  text = codes " ok ";
  quoted_msg_id = 77;
  quoted_text = [];
}

-- It says "ok" to the ticket A3F2K9.
quoting-Says : Says quoting two_tickets (codes "A3F2K9") (codes "ok")
unfolding find_ticket_by_dc_msg_id select_ticket_of is_space
quoting-Says =
    About.by_table (λ i. find_ticket_by_dc_msg_id i two_tickets) (codes "A3F2K9")
      (λ e. ground arith) refl refl (codes "ok")
      (record {
        front = codes " ";
        back = codes " ";
        front_blank = (refl, tt);
        back_blank = (refl, tt);
        splits = refl;
        starts = refl;
        ends = refl;
      })

on_incoming_msg-Done_example :
    Done
      (pos 2000)
      two_tickets
      (codes "A3F2K9")
      read_open
      (codes "ok")
      (on_incoming_msg (pos 2000) quoting bot).1.db
on_incoming_msg-Done_example =
    on_incoming_msg-Done (pos 2000) quoting bot read_open (codes "A3F2K9") (codes "ok")
      (λ e. ground arith) refl quoting-Says get_open (λ e. ground arith)

abbrev loop_events : List BotEvent
loop_events =
    (logged ∷ [])
    ++ incoming_msg (pos 2000) (some quoting)
      ∷ incoming_msg (pos 2001) (some (record quoting { from = 11 }))
      ∷ []

run_event_loop-first_example :
    ((run_event_loop (some loop_events) fresh_bot).1.contact_id ≡ 10)
    × (restore_owner (run_event_loop (some loop_events) fresh_bot).1.db ≡ 10)
run_event_loop-first_example =
    run_event_loop-first fresh_bot (logged ∷ [])
      (incoming_msg (pos 2001) (some (record quoting { from = 11 })) ∷ []) (pos 2000) quoting refl
      (tt, tt) (λ e. ground arith) (omega arith)
