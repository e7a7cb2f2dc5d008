-- ===== src/System.antt =====
-- The running program: the requests to src/server, the messages to src/dc/bot.cpp, and the maintenance
-- of src/main.cpp, as steps of one state. Each handler is one step; two handlers are not interleaved.
pub mod Kept
pub mod Conversation
pub mod Protocol
pub mod Flood
use deltafeedback.Prelude.{
  ℕ, ◌*◌, Bool, [], ◌∷◌, List, Option, none, some, Bytes, ℤ, sub_ℕ, add64, Result,
}
use deltafeedback.Pow.Crypto.{Crypto}
use deltafeedback.Pow.Challenge.{ChallengeIssuer}
use deltafeedback.Db.Schema.{Database, empty_database}
use deltafeedback.Db.Replay.{purge_expired}
use deltafeedback.Db.Tickets.{purge_inactive_older_than}
use deltafeedback.Db.Reset.{reset_owner_in_db}
use deltafeedback.Dc.Sender.{DeltaChat, DcState, dc_sender}
use deltafeedback.Dc.Bot.{Effect, BotState, Incoming, on_incoming_msg}
use deltafeedback.Dc.Bot.Owner.{restore_owner}
use deltafeedback.Feedback.Validator.{Limits}
use deltafeedback.Feedback.Notify.{Tm}
use deltafeedback.Feedback.Forms.{Setup, Readings, World}
use deltafeedback.Server.Responses.{Response}
use deltafeedback.Server.Handlers.{Json, post_feedback, post_reply, get_ticket}

-- What `cmd_run` puts together, and the libraries.
pub record Config (D : Type 0) : Type 0 where
  pub crypto : Crypto
  pub gmtime : ℤ → Tm
  pub issuer : ChallengeIssuer
  pub limits : Limits
  pub lib : DeltaChat D

pub record SystemState (D : Type 0) : Type 0 where
  pub db : Database
  pub contact_id : ℕ
  pub dc : D
  pub effects : List Effect

-- The purge thread's two statements; `retention_days` is not negative, and `retention_days * 86400` is below 2^31.
unfoldable pub purge_hourly : ℕ → ℤ → Database → Database
purge_hourly retention_days now db =
    (purge_expired now
      (purge_inactive_older_than (add64 now (sub_ℕ 0 (retention_days * 86400))) db).1).1

module _ {D : Type 0} (c : Config D) where
  abbrev pub setup_of : Setup (DcState D)
  setup_of = record {
    crypto = c.crypto;
    gmtime = c.gmtime;
    issuer = c.issuer;
    limits = c.limits;
    sender = dc_sender c.lib;
  }

  -- What the service works on, and the bot.
  abbrev pub world_of : SystemState D → World (DcState D)
  world_of s = record { db = s.db; out = record { contact_id = s.contact_id; dc = s.dc } }

  abbrev pub bot_of : SystemState D → BotState
  bot_of s = record { db = s.db; contact_id = s.contact_id; effects = s.effects }

  abbrev pub with_world : SystemState D → World (DcState D) → SystemState D
  with_world s w = record s { db = w.db; contact_id = w.out.contact_id; dc = w.out.dc }

  abbrev pub with_bot : SystemState D → BotState → SystemState D
  with_bot s b = record s { db = b.db; contact_id = b.contact_id; effects = b.effects }

  -- A request, or a message to the bot.
  pub data Serves (s : SystemState D) : SystemState D → Type 0 where
    feedback :
        (r : Readings) (allowed : Bool) (body : Option Json) (ip : Bytes)
        → Serves s (with_world s (post_feedback setup_of r allowed body ip (world_of s)).1)
    reply :
        (r : Readings) (allowed : Bool) (authorization : Bytes) (body : Option Json) (id ip : Bytes)
        → Serves s
            (with_world s (post_reply setup_of r allowed authorization body id ip (world_of s)).1)
    poll :
        (allowed : Bool) (authorization id have_count have_status : Bytes)
        → Serves s (record s {
          db = (get_ticket c.crypto allowed authorization id have_count have_status s.db).1;
        })
    message : (now : ℤ) (m : Incoming) → Serves s (with_bot s (on_incoming_msg now m (bot_of s)).1)
    library : (d : D) → Serves s (record s { dc = d })

  -- One of these, or the hourly purge, a restart, or `--reset-admin` before a restart. A step is a whole
  -- handler: the threads of the server may run several at once, of which nothing is said.
  pub data Step (s : SystemState D) : SystemState D → Type 0 where
    serve : {t : SystemState D} → Serves s t → Step s t
    purge_step :
        (retention_days : ℕ) (now : ℤ)
        → Step s (record s { db = purge_hourly retention_days now s.db })
    restart : Step s (record s { contact_id = restore_owner s.db; effects = [] })
    reset_admin : Step s (record s {
      db = reset_owner_in_db s.db;
      contact_id = restore_owner (reset_owner_in_db s.db);
      effects = [];
    })

  -- The states that the program reaches from one with an empty database.
  pub data Reachable : SystemState D → Type 0 where
    start :
        (d : D) → Reachable (record { db = empty_database; contact_id = 0; dc = d; effects = [] })
    step : {s t : SystemState D} → Reachable s → Step s t → Reachable t
