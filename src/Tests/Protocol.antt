-- ===== src/Tests/Protocol.antt =====
-- A run of the program from the empty database: the admin's first contact, a form, and the answer to it.
use deltafeedback.Prelude.{
  ℕ, ◌≡◌, refl, true, [], List, Option, none, some, Bytes, codes, bytes_eq, pos, Result,
  if◌then◌else◌,
}
use deltafeedback.Db.State
use deltafeedback.Db.Tickets.{awaiting_admin, Ticket, get, find_ticket, insert_new, parse_status}
use deltafeedback.Db.Messages.{Message, list, append, sender_to_string, set_dc_msg_id}
use deltafeedback.Feedback.Random.{make_ticket_id, id_loop}
use deltafeedback.Feedback.Service.{submit_token, submit_new, checked, store_and_notify}
use deltafeedback.Db.Replay.{has_challenge, try_consume}
use deltafeedback.Feedback.Forms.{pow_error}
use deltafeedback.Feedback.Validator.{
  check_text, has_disallowed_control_chars, report_ok, utf8_codepoint_count, validate,
}
use deltafeedback.Dc.Bot.{on_incoming_msg}
use deltafeedback.Dc.Sender.{owner_contact_id, send_to_owner}
use deltafeedback.Server.Handlers.{Json, post_feedback}
use deltafeedback.System.{
  SystemState, Serves, Step, Reachable, world_of, with_world, setup_of, purge_hourly,
}
use deltafeedback.System.Protocol.{Conversation, Moves, Shows}
use deltafeedback.System.Protocol.Turns.{IsOrderly}
use deltafeedback.System.Protocol.Refines.{Step-Moves, Reachable-IsOrderly}
use deltafeedback.Tests.Sample.{checksum}
use deltafeedback.Tests.Pow.{token_verified}
use deltafeedback.Tests.Dc.{quoting}
use deltafeedback.Tests.Feedback.{readings, form}
use deltafeedback.Tests.System.{config, owned_system}

unfoldable pub member : Bytes → Option Bytes
unfolding bytes_eq
member k =
    if bytes_eq k (codes "pow_token")
    then some form.pow_token
    else if bytes_eq k (codes "pow_nonce")
    then some form.pow_nonce
    else if bytes_eq k (codes "name")
    then some form.name
    else if bytes_eq k (codes "message")
    then some form.message
    else if bytes_eq k (codes "locale")
    then some form.locale
    else none

abbrev pub form_json : Json
form_json = record { str = member; int = λ k. some (Result.ok form.fill_time_ms) }

abbrev asked_system : SystemState ℕ
asked_system =
    with_world config owned_system
      (post_feedback (setup_of config) readings true (some form_json) []
        (world_of config owned_system)).1

asked_Reachable : Reachable config asked_system
asked_Reachable =
    Reachable.step
      (Reachable.step (Reachable.start 0) (Step.serve (Serves.message (pos 5) quoting)))
      (Step.serve (Serves.feedback readings true (some form_json) []))

abbrev asked_ticket : Ticket
asked_ticket = record {
  id = make_ticket_id 1;
  read_token_hash = checksum (submit_token (setup_of config) readings);
  name = codes "Bob";
  locale = codes "en";
  status = awaiting_admin;
  created_at = pos 1201;
  closed_at = none;
}

asked_found : (get (make_ticket_id 1) asked_system.db).0 ≡ Result.ok (some asked_ticket)
unfolding get member bytes_eq State.set find_ticket post_feedback submit_new append sender_to_string
    set_dc_msg_id has_challenge try_consume insert_new parse_status pow_error make_ticket_id id_loop
    checked store_and_notify check_text has_disallowed_control_chars report_ok utf8_codepoint_count
    validate on_incoming_msg owner_contact_id send_to_owner
asked_found = rw (token_verified, submit_new) refl

Reachable-IsOrderly_example :
    (ms : List Message) × ((list (make_ticket_id 1) asked_system.db).0 ≡ Result.ok ms)
    × IsOrderly (record { ticket = asked_ticket; thread = ms })
Reachable-IsOrderly_example =
    Reachable-IsOrderly config asked_system (make_ticket_id 1) asked_ticket asked_Reachable
      asked_found

abbrev purged_system : SystemState ℕ
purged_system = record asked_system { db = purge_hourly 7 (pos 700000) asked_system.db }

Step-Moves_example :
    (o : Option Conversation) × (p : Option Conversation) × Shows
      (make_ticket_id 1)
      asked_system.db
      o
    × Shows (make_ticket_id 1) purged_system.db p
    × Moves o p
Step-Moves_example =
    Step-Moves config asked_system purged_system (make_ticket_id 1) asked_Reachable
      (Step.purge_step 7 (pos 700000))
