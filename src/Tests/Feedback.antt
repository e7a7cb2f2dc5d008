-- ===== src/Tests/Feedback.antt =====
-- src/feedback.
use deltafeedback.Prelude.{
  ℕ, ◌+◌, ◌^◌, ◌<◌, ◌≡◌, ◌≢◌, ◌↔◌, refl, true, false, [], ◌∷◌, Option, List, some, none, Bytes,
  codes, arith, pos, ℤ, bytes_eq, Result, length, add64,
}
use deltafeedback.Db.Replay.{has_challenge}
use deltafeedback.Db.Replay.Once.{purge, use_all, PurgedBy}
use deltafeedback.Db.Tickets.{find_ticket}
use deltafeedback.Dc.Parse.{scan}
use deltafeedback.Dc.Sender.{MessageSender}
use deltafeedback.Feedback.Validator.{
  default_limits, validate, report_ok, utf8_codepoint_count, check_text,
  has_disallowed_control_chars,
}
use deltafeedback.Feedback.Validator.Utf8.{encode_text, utf8_codepoint_count-encode_text}
use deltafeedback.Feedback.Validator.Report.{IsAcceptable, validate-IsAcceptable_iff}
use deltafeedback.Feedback.Random.{make_ticket_id, make_ticket_id-IsId}
use deltafeedback.Feedback.Notify.{Tm, format_admin_notification}
use deltafeedback.Feedback.Notify.Marked.{scan-format_admin_notification}
use deltafeedback.Feedback.Forms.{
  Setup, Readings, SubmitInput, SubmitError, ReplyInput, World, refuse, submission,
}
use deltafeedback.Feedback.Service.{replay_ttl, submit_new, submit_reply}
use deltafeedback.Feedback.Service.Submitted
use deltafeedback.Feedback.Service.Submit.{submit_new-Outcome}
use deltafeedback.Feedback.Service.Accept.{IsReady, sent_result, submit_new_ready}
use deltafeedback.Feedback.Service.Once.{submit_new_once}
use deltafeedback.Feedback.Service.Replied
use deltafeedback.Feedback.Service.Reply.{submit_reply-Outcome}
use deltafeedback.Tests.Sample.{toy_crypto, issuer, two_tickets}
use deltafeedback.Tests.Pow.{token, man, token_verified}

abbrev two_letters : List ℕ
two_letters = 0x41 ∷ 0x416 ∷ []

utf8_codepoint_count-encode_text_example :
    utf8_codepoint_count (encode_text two_letters) ≡ length two_letters
utf8_codepoint_count-encode_text_example =
    utf8_codepoint_count-encode_text two_letters (omega arith, (omega arith, tt))

pub eight_owned :
    (text : Bytes) (quote : ℕ) (w : Unit {0})
    → ◌≡◌ {A = Option ℕ} (some 10) none
    → ◌≡◌ {A = Option ℕ × Unit {0}} (some 8, w) (none, w)
eight_owned text quote w e = absurd (ground arith)

pub eight_ids :
    (text : Bytes) (quote i : ℕ) (w : Unit {0})
    → ◌≡◌ {A = Option ℕ} (some 8) (some i)
    → (i ≢ 0) × (i < 2 ^ 32)
eight_ids text quote i w e = ground arith

-- A sender of an owner 10 that numbers its messages by 8.
abbrev pub eight : MessageSender (Unit {0})
eight = record {
  send_to_owner = λ text quote w. (some 8, w);
  owner_contact_id = λ w. some 10;
  unowned = eight_owned;
  ids = eight_ids;
}

abbrev pub noon : ℤ → Tm
noon t = record { year = pos 2026; mon = 0; mday = 2; hour = 12; min = 0 }

abbrev pub setup : Setup (Unit {0})
setup = record {
  crypto = toy_crypto;
  gmtime = noon;
  issuer = issuer;
  limits = default_limits;
  sender = eight;
}

abbrev pub readings : Readings
readings = record {
  pow_now = pos 1200;
  replay_now = pos 1200;
  stamp_now = pos 1201;
  draws = λ k. k + 1;
}

abbrev pub form : SubmitInput
form = record {
  pow_token = token;
  pow_nonce = codes "n";
  name = codes "Bob";
  locale = codes "en";
  honeypot = [];
  message = codes "hello";
  fill_time_ms = pos 2000;
  visitor_ip = [];
}

abbrev pub world : World (Unit {0})
world = record { db = two_tickets; out = tt }

pub form_valid : report_ok (validate default_limits (submission form)) ≡ true
unfolding report_ok validate bytes_eq check_text has_disallowed_control_chars utf8_codepoint_count
form_valid = refl

validate-IsAcceptable_iff_example :
    (report_ok (validate default_limits (submission form)) ≡ true)
    ↔ IsAcceptable default_limits (submission form)
validate-IsAcceptable_iff_example = validate-IsAcceptable_iff default_limits (submission form)

scan-format_admin_notification_example :
    (after : Bytes) × (scan [] (
        format_admin_notification noon
          (make_ticket_id 1)
          []
          (pos 1201)
          (codes "en")
          (codes "Bob")
          (codes "see [ZZZZZZ]")
          false)
      ≡ some (record { before = []; id = make_ticket_id 1; after = after }))
scan-format_admin_notification_example =
    scan-format_admin_notification noon (make_ticket_id 1) [] (pos 1201) (codes "en") (codes "Bob")
      (codes "see [ZZZZZZ]") false (make_ticket_id-IsId 1)

submit_new-Outcome_example :
    Submitted.Outcome setup readings form world (submit_new setup readings form world)
submit_new-Outcome_example = submit_new-Outcome setup readings form world (omega arith, tt)

pub form-IsReady : IsReady setup readings form world
form-IsReady = record {
  challenge_id = man;
  verified = token_verified;
  unused = unfold has_challenge in refl;
  valid = form_valid;
  owner = 10;
  owned = refl;
  id_free = unfold make_ticket_id find_ticket bytes_eq in refl;
}

submit_new_ready_example :
    (submit_new setup readings form world).0
    ≡ Result.ok (sent_result setup readings form world (some 8))
submit_new_ready_example = submit_new_ready setup readings form world form-IsReady

kept : PurgedBy (add64 (pos 1200) replay_ttl) (purge (pos 1300))
unfolding add64
kept = omega arith

submit_new_once_example :
    submit_new setup readings form (record {
      db = use_all (purge (pos 1300) ∷ []) (submit_new setup readings form world).1.db;
      out = tt;
    })
    ≡ (
      Result.ok (refuse SubmitError.pow_replayed),
      record {
        db = use_all (purge (pos 1300) ∷ []) (submit_new setup readings form world).1.db;
        out = tt;
      },
    )
submit_new_once_example =
    submit_new_once setup readings readings form form world tt man (purge (pos 1300) ∷ [])
      token_verified token_verified (unfold has_challenge in refl) (kept, tt)

abbrev pub reply : ReplyInput
reply = record {
  ticket_id = codes "A3F2K9";
  read_token = codes "token";
  pow_token = token;
  pow_nonce = codes "n";
  body = codes "thanks";
  visitor_ip = [];
}

submit_reply-Outcome_example :
    Replied.Outcome setup readings reply world (submit_reply setup readings reply world)
submit_reply-Outcome_example = submit_reply-Outcome setup readings reply world (omega arith, tt)
