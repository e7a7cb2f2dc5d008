-- ===== src/System/Protocol/Threads.antt =====
-- The messages of a ticket when a row is added to the table.
use deltafeedback.Prelude.{
  ◌≡◌, ◌≢◌, refl, List, [], ◌∷◌, ◌++◌, Bytes, bytes_eq, bytes_eq_iff, Result, ok, throw, arith,
}
use deltafeedback.Db.Schema.{MessageRow}
use deltafeedback.Db.Messages.{
  Sender, visitor, admin, Message, select_messages, parse_sender, sender_to_string,
}

abbrev pub message_of : MessageRow → Sender → Message
message_of m who = record {
  id = m.id;
  ticket_id = m.ticket_id;
  sender = who;
  body = m.body;
  created_at = m.created_at;
}

abbrev pub join : Result (List Message) → Result (List Message) → Result (List Message)
join (ok xs) (ok ys) = ok (xs ++ ys)
join _ _ = throw

pub parse_sender-to_string : (who : Sender) → parse_sender (sender_to_string who) ≡ ok who
unfolding parse_sender sender_to_string bytes_eq
parse_sender-to_string visitor = refl
parse_sender-to_string admin = refl

pub select_messages-append :
    (id : Bytes) (ms ns : List MessageRow)
    → select_messages id (ms ++ ns) ≡ join (select_messages id ms) (select_messages id ns)
unfolding select_messages
select_messages-append id [] ns = ground arith
select_messages-append id (x ∷ ms) ns = ground (arith, select_messages-append id ms ns)

-- The messages of a ticket after a new row, its own or another's.
pub select_messages-own :
    (id : Bytes) (ms : List MessageRow) (xs : List Message) (m : MessageRow) (who : Sender)
    → select_messages id ms ≡ ok xs
    → m.ticket_id ≡ id
    → parse_sender m.sender ≡ ok who
    → select_messages id (ms ++ m ∷ []) ≡ ok (xs ++ message_of m who ∷ [])
select_messages-own id ms xs m who e own is =
    rw (select_messages-append, e)
      (unfold select_messages in ground (arith, bytes_eq_iff m.ticket_id id))

pub select_messages-other :
    (id : Bytes) (ms : List MessageRow) (m : MessageRow)
    → m.ticket_id ≢ id
    → select_messages id (ms ++ m ∷ []) ≡ select_messages id ms
unfolding select_messages
select_messages-other id [] m other = ground (arith, bytes_eq_iff m.ticket_id id)
select_messages-other id (x ∷ ms) m other = ground (arith, select_messages-other id ms m other)
