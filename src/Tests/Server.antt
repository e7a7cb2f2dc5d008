-- ===== src/Tests/Server.antt =====
-- src/server.
use deltafeedback.Prelude.{
  ◌≤◌, ◌≡◌, refl, inl, true, [], ◌∷◌, Bytes, codes, arith, pos, length, Result, bytes_eq,
}
use deltafeedback.Db.Messages.{Message, Sender, list, select_messages, parse_sender}
use deltafeedback.Dc.Parse.{is_space}
use deltafeedback.Server.Headers.{bearer, visitor_ip}
use deltafeedback.Server.Headers.Address.{IsAddress, visitor_ip_bounded}
use deltafeedback.Server.Handlers.{get_ticket}
use deltafeedback.Server.Handlers.Read
use deltafeedback.Server.Handlers.Read.{
  MayRead, hash_differs_iff, get_ticket-Answered, get_ticket_current,
}
use deltafeedback.Tests.Sample.{toy_crypto, two_tickets}
use deltafeedback.Tests.Db.{get_open, read_open}

abbrev authorization : Bytes
authorization = codes "Bearer token"

abbrev a_id : Bytes
a_id = codes "A3F2K9"

short-IsAddress : IsAddress (codes "10.1")
unfolding is_space
short-IsAddress = ground arith

port-IsAddress : IsAddress (codes "80")
unfolding is_space
port-IsAddress = ground arith

visitor_ip_bounded_example : length (visitor_ip (codes "10.1") [] []) ≤ 64
visitor_ip_bounded_example = visitor_ip_bounded (codes "10.1") [] [] (inl (λ e. ground arith))

get_ticket-Answered_example :
    Read.Answered toy_crypto authorization a_id
      (codes "1")
      (codes "closed")
      two_tickets
      (get_ticket toy_crypto true authorization a_id (codes "1") (codes "closed") two_tickets)
get_ticket-Answered_example =
    get_ticket-Answered toy_crypto true authorization a_id (codes "1") (codes "closed") two_tickets

abbrev hello : Message
hello = record {
  id = 1;
  ticket_id = a_id;
  sender = Sender.visitor;
  body = codes "hello";
  created_at = pos 1000;
}

listing : (list a_id two_tickets).0 ≡ Result.ok (hello ∷ [])
unfolding list select_messages bytes_eq parse_sender
listing = refl

may_read : MayRead toy_crypto authorization a_id two_tickets read_open
unfolding bearer
may_read = record { token = λ e. ground arith; ticket = get_open; hash_is = refl }
