-- ===== src/Server/Handlers.antt =====
-- The handlers of the API in src/server/server.cpp. The answer of the rate limiter, the parsed JSON
-- and the values of headers and query parameters are arguments.
pub mod Read
pub mod Solved
pub mod Answers
use deltafeedback.Prelude.{
  ℕ, Bool, true, false, not, ◌&&◌, [], ◌∷◌, List, Option, none, some, Bytes, codes, bytes_eq,
  is_empty, length, ◌==◌, if◌then◌else◌, ℤ, pos, Result, Exec,
}
use deltafeedback.Pow.Crypto.{Crypto}
use deltafeedback.Pow.Compare.{difference}
use deltafeedback.Pow.Challenge.{Challenge, ChallengeIssuer, issue}
use deltafeedback.Db.Schema.{Database}
use deltafeedback.Db.Tickets.{Ticket, to_string, get}
use deltafeedback.Db.Messages.{Message, list}
use deltafeedback.Dc.Bot.Owner.{stoul}
use deltafeedback.Feedback.Random.{make_random}
use deltafeedback.Feedback.Forms.{
  Setup, Readings, SubmitError, SubmitResult, SubmitInput, ReplyError, ReplyInput, World,
}
use deltafeedback.Feedback.Service.{submit_new, submit_reply}
use deltafeedback.Server.Headers.{bearer}
use deltafeedback.Server.Responses.{
  challenge, submitted, thread, no_body, Outcome, map_submit_error, map_reply_error, Payload,
  Response, failure, rate_limited,
}

-- GET /api/captcha; `random_bytes` there is `make_random` once more.
unfoldable pub get_captcha : Crypto → ChallengeIssuer → ℤ → (ℕ → ℕ) → Bool → Response
get_captcha c p now draws allowed =
    if not allowed
    then rate_limited
    else record { status = 200; payload = challenge (issue c p now (make_random draws 16)) }

-- A JSON object: its members that are strings, and what `i()` gives for each member that is there, which
-- throws if that is not a number.
pub record Json : Type 0 where
  pub str : Bytes → Option Bytes
  pub int : Bytes → Option (Result ℤ)

abbrev text_of : Option Bytes → Bytes
text_of none = []
text_of (some s) = s

-- The member that is read, or 0 if it is not there.
abbrev pub fill_time : Option (Result ℤ) → Result ℤ
fill_time none = Result.ok (pos 0)
fill_time (some n) = n

-- The λ `str` of the handlers.
abbrev pub str : Json → Bytes → Bytes
str body k = text_of (body.str k)

abbrev pub submit_input : Json → ℤ → Bytes → SubmitInput
submit_input body filled ip = record {
  pow_token = str body (codes "pow_token");
  pow_nonce = str body (codes "pow_nonce");
  name = str body (codes "name");
  locale = str body (codes "locale");
  honeypot = str body (codes "honeypot");
  message = str body (codes "message");
  fill_time_ms = filled;
  visitor_ip = ip;
}

abbrev pub reply_input : Json → Bytes → Bytes → Bytes → ReplyInput
reply_input body id token ip = record {
  ticket_id = id;
  read_token = token;
  pow_token = str body (codes "pow_token");
  pow_nonce = str body (codes "pow_nonce");
  body = str body (codes "body");
  visitor_ip = ip;
}

abbrev is_submit_ok : SubmitError → Bool
is_submit_ok SubmitError.ok = true
is_submit_ok _ = false

-- The id and the token go out on `Ok` only.
unfoldable pub submit_response : SubmitResult → Response
unfolding map_submit_error
submit_response r =
    let outcome = map_submit_error r.error in
    record {
      status = outcome.status;
      payload =
          submitted outcome.code
            (if is_submit_ok r.error then some (r.ticket_id, r.read_token) else none);
    }

abbrev pub respond : {A S : Type 0} → (A → Response) → Result A × S → Result Response × S
respond f (Result.throw, s) = (Result.throw, s)
respond f (Result.ok a, s) = (Result.ok (f a), s)

-- From the reading of `fill_time_ms` on.
abbrev pub submit_parsed :
    {W : Type 0} → Setup W → Readings → Json → Bytes → Result ℤ → Exec (World W) Response
submit_parsed u r body ip Result.throw s = (Result.throw, s)
submit_parsed u r body ip (Result.ok filled) s =
    respond submit_response (submit_new u r (submit_input body filled ip) s)

-- POST /api/feedback; an exception is the web framework's to answer.
unfoldable pub post_feedback :
    {W : Type 0} → Setup W → Readings → Bool → Option Json → Bytes → Exec (World W) Response
post_feedback u r allowed body ip s =
    if not allowed then (Result.ok rate_limited, s) else elim body [
      | none ↦ (Result.ok (failure 400 (codes "bad_json")), s)
      | some body ↦ submit_parsed u r body ip (fill_time (body.int (codes "fill_time_ms"))) s
    ]

unfoldable pub reply_response : ReplyError → Response
unfolding map_reply_error
reply_response e =
    let outcome = map_reply_error e in
    record { status = outcome.status; payload = submitted outcome.code none }

-- From the parsing of the body on.
abbrev pub reply_parsed :
    {W : Type 0}
    → Setup W
    → Readings
    → Bytes
    → Bytes
    → Bytes
    → Option Json
    → Exec (World W) Response
reply_parsed u r token id ip none s = (Result.ok (failure 400 (codes "bad_json")), s)
reply_parsed u r token id ip (some body) s =
    respond reply_response (submit_reply u r (reply_input body id token ip) s)

-- POST /api/tickets/<id>.
unfoldable pub post_reply :
    {W : Type 0}
    → Setup W
    → Readings
    → Bool
    → Bytes
    → Option Json
    → Bytes
    → Bytes
    → Exec (World W) Response
post_reply u r allowed authorization body id ip s =
    let token = bearer authorization in
    if not allowed
    then (Result.ok rate_limited, s)
    else if is_empty token
    then (Result.ok (failure 401 (codes "missing_auth")), s)
    else reply_parsed u r token id ip body s

-- The comparison in the handler of GET: the lengths, then the common bytes.
unfoldable pub hash_differs : Bytes → Bytes → Bool
hash_differs h stored =
    not (difference h stored (if not (length h == length stored) then 1 else 0) == 0)

abbrev count_matches : Option ℕ → ℕ → Bool
count_matches none n = false
count_matches (some k) n = k == n

-- Whether the client has what there is.
unfoldable pub is_current : Bytes → Bytes → Bytes → List Message → Bool
is_current have_count have_status current_status msgs =
    if not (is_empty have_count) && not (is_empty have_status)
    then count_matches (stoul have_count) (length msgs) && bytes_eq have_status current_status
    else false

abbrev pub listed :
    Bytes → Bytes → Bytes → Result (List Message) × Database → Result Response × Database
listed have_count have_status current_status (Result.throw, db) = (Result.throw, db)
listed have_count have_status current_status (Result.ok msgs, db) = (
  Result.ok (
      if is_current have_count have_status current_status msgs
      then record { status = 304; payload = no_body }
      else record { status = 200; payload = thread current_status msgs }),
  db,
)

abbrev pub found :
    Crypto
    → Bytes
    → Bytes
    → Bytes
    → Bytes
    → Result (Option Ticket) × Database
    → Result Response × Database
found c token id have_count have_status (Result.throw, db) = (Result.throw, db)
found c token id have_count have_status (Result.ok none, db) =
    (Result.ok (failure 404 (codes "not_found")), db)
found c token id have_count have_status (Result.ok (some t), db) =
    if hash_differs (c.sha256 token) t.read_token_hash
    then (Result.ok (failure 403 (codes "bad_token")), db)
    else listed have_count have_status (to_string t.status) (list id db)

-- GET /api/tickets/<id>.
unfoldable pub get_ticket : Crypto → Bool → Bytes → Bytes → Bytes → Bytes → Exec Database Response
get_ticket c allowed authorization id have_count have_status db =
    let token = bearer authorization in
    if not allowed
    then (Result.ok rate_limited, db)
    else if is_empty token
    then (Result.ok (failure 401 (codes "missing_auth")), db)
    else found c token id have_count have_status (get id db)
