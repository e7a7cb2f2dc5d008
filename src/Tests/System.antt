-- ===== src/Tests/System.antt =====
-- Runs of the whole program.
use deltafeedback.Prelude.{ℕ, ◌≡◌, refl, [], some, pos, Result}
use deltafeedback.Db.Schema.{empty_database}
use deltafeedback.Db.Tickets.{get}
use deltafeedback.Db.Invariant.{IsConsistent}
use deltafeedback.Feedback.Validator.{default_limits}
use deltafeedback.System.{Config, SystemState, Serves, Step, Reachable, bot_of, with_bot}
use deltafeedback.System.Kept.{Reachable-IsConsistent, Serves_closed}
use deltafeedback.Dc.Bot.{on_incoming_msg}
use deltafeedback.Dc.Bot.Answer.{answer_row}
use deltafeedback.Tests.Sample.{toy_crypto, issuer, two_tickets}
use deltafeedback.Tests.Db.{get_closed, read_closed, b_id}
use deltafeedback.Tests.Dc.{counter, quoting}
use deltafeedback.Tests.Feedback.{noon}
use deltafeedback.Prelude.{◌∷◌, codes, ◌++◌, arith}
use deltafeedback.Db.Tickets.{awaiting_visitor}
use deltafeedback.Dc.Bot.{Incoming}
use deltafeedback.Feedback.Forms.{SubmitResult}
use deltafeedback.Feedback.Service.{submit_ticket}
use deltafeedback.System.Conversation.{quoting_answers}
use deltafeedback.Db.Schema.{Database}
use deltafeedback.Dc.Parse.{is_space}
use deltafeedback.Dc.Parse.Trim.{Trims}
use deltafeedback.Feedback.Service.{submit_new}
use deltafeedback.Feedback.Service.Accept.{sent_result, submit_new_ready}
use deltafeedback.Tests.Feedback.{form-IsReady}
use deltafeedback.Tests.Sample.{checksum}
use deltafeedback.Tests.Feedback.{setup, readings, form, world}

abbrev pub config : Config ℕ
config = record {
  crypto = toy_crypto;
  gmtime = noon;
  issuer = issuer;
  limits = default_limits;
  lib = counter;
}

abbrev fresh_system : SystemState ℕ
fresh_system = record { db = empty_database; contact_id = 0; dc = 0; effects = [] }

-- After the first contact of the admin.
abbrev pub owned_system : SystemState ℕ
owned_system =
    with_bot config fresh_system (on_incoming_msg (pos 5) quoting (bot_of config fresh_system)).1

Reachable-IsConsistent_example : IsConsistent owned_system.db
Reachable-IsConsistent_example =
    Reachable-IsConsistent config owned_system
      (Reachable.step (Reachable.start 0) (Step.serve (Serves.message (pos 5) quoting)))

abbrev busy_system : SystemState ℕ
busy_system = record { db = two_tickets; contact_id = 10; dc = 0; effects = [] }

abbrev after_message : SystemState ℕ
after_message =
    with_bot config busy_system (on_incoming_msg (pos 5) quoting (bot_of config busy_system)).1

Serves_closed_example : (get b_id after_message.db).0 ≡ Result.ok (some read_closed)
Serves_closed_example =
    Serves_closed config busy_system after_message b_id read_closed (Serves.message (pos 5) quoting)
      get_closed refl

-- The owner's answer to the notification 8 of the form of the tests of the service.
abbrev to_8 : Incoming
to_8 = record quoting { quoted_msg_id = 8; text = codes "ok" }

abbrev form_result : SubmitResult
form_result = sent_result setup readings form world (some 8)

abbrev form_db : Database
form_db = (submit_new setup readings form world).1.db

abbrev answered : Database
answered =
    (on_incoming_msg (pos 2000) to_8 (record { db = form_db; contact_id = 10; effects = [] })).1.db

ok_Trims : Trims (codes "ok") (codes "ok")
unfolding is_space
ok_Trims = record {
  front = [];
  back = [];
  front_blank = tt;
  back_blank = tt;
  splits = refl;
  starts = refl;
  ends = refl;
}

quoting_answers_example :
    ((get form_result.ticket_id answered).0
      ≡ Result.ok (some (record (submit_ticket setup readings form) { status = awaiting_visitor })))
    × ((submit_ticket setup readings form).read_token_hash ≡ checksum form_result.read_token)
    × (answered.messages
        ≡ form_db.messages ++ answer_row (pos 2000) form_db form_result.ticket_id (codes "ok") ∷ [])
quoting_answers_example =
    quoting_answers setup readings form world form_result (pos 2000) to_8 10 [] (codes "ok")
      (omega arith, tt) (submit_new_ready setup readings form world form-IsReady) refl refl
      (λ e. ground arith) ((λ e. ground arith), tt) ok_Trims (λ e. ground arith) (λ e. ground arith)
      (λ e. ground arith) refl
