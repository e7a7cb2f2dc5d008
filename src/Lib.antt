-- ===== src/Lib.antt =====
-- Verification of deltafeedback, a self-hosted contact form whose messages reach one admin over Delta
-- Chat.
--
-- The program. A visitor's browser fetches a proof-of-work challenge, sends the form with the solved
-- challenge, and gets a ticket id and a read token; the service checks the proof of work, the fields
-- and the replay store, stores the ticket and its first message, and notifies the admin. The bot reads
-- the admin's messages, finds the ticket each is about, stores replies and closes tickets. The visitor
-- replies under the read token while the ticket awaits the visitor. All state that outlives a request
-- is in one SQLite database.
--
-- The modules.
--   Pow      src/pow/challenge.cpp and the text encodings it uses: Base64, Decimal, Compare (ct_eq),
--            Digest (leading_zero_bits of src/pow/sha256.cpp), Challenge (issue and verify), and Hex
--            (to_hex of sha256.cpp, hex_decode of src/main.cpp). Crypto holds SHA-256 and HMAC-SHA-256,
--            which are OpenSSL's: functions to 32 bytes, of which no more is assumed.
--   Db       src/db. Schema is the tables of queries.h, a list of rows each; State, Replay, Tickets and
--            Messages are the repositories, each statement of queries.h as a function on the rows.
--            Reset is Bot::reset_owner_in_db. Invariant is about every statement that writes.
--            Statement and Connection are the classes of statement.cpp and database.cpp that own what
--            SQLite makes, over the parameters Sqlite and Connections.
--   Dc       src/dc. Parse is admin_parse.cpp, Route is admin_route.cpp, Sender is sender.h and
--            sender.cpp, and Bot is route_admin_msg, the case DC_EVENT_INCOMING_MSG and the
--            constructor of bot.cpp (Bot/Answer says what a message of the admin does, from its words);
--            Bot/Configure is configure_if_needed, set_displayname and wait_configure of src/main.cpp,
--            and Bot/Events is run_event_loop.
--   Feedback src/feedback. Validator is validator.cpp; Random, Notify and Service are service.cpp, and
--            Forms is the types of service.h. Service/Submitted and Service/Replied describe each answer of
--            submit_new and submit_reply.
--   Server   src/server/server.cpp. Headers is visitor_ip and bearer, Responses the answers and the maps
--            of errors, and Handlers the four handlers of the API. RateLimit is ratelimit.h and
--            ratelimit.cpp, and Files is mime_for and file_response.
--   App      src/app and the commands of src/main.cpp. Config is config.cpp, Account is the account
--            file (load_with_account, save_account, ensure_hmac_secret), and Commands is main and the
--            four commands.
--   System   src/main.cpp: cmd_run's parts and the reset as steps of one state, and what every state
--            that the program reaches keeps; Conversation goes through several components, and Flood
--            puts the two POST handlers behind their rate limiter. Protocol is a specification without
--            tables: what a visitor sees of a ticket, and how it may move; Protocol/Refines compares
--            the steps of the program with it.
--   Prelude  shared names: numbers, tests, lists, 64-bit integers, bits, byte strings, results.
--   Tests    runs at concrete inputs.
--
-- Conventions. A std::string is the list of its bytes. A size_t counter is a natural number; the values
-- of parse_i64, parse_uint, the casts to uint32_t and the additions of clock readings keep their
-- wrap-around. A function that throws returns a Result beside the state, so that what it stored before
-- the throw stays. The clock, the random generator, the calendar (gmtime_r), OpenSSL and the library of
-- Delta Chat are arguments. A file system is the parameter Disk, with what a read gives after a write
-- that was flushed, which a good stream alone does not promise (the flush comes with the destructor),
-- and where files are only served, the parameter Files.
-- The rate limiter's double is the parameter Double; bounds are about its instance `exact`, which
-- counts in fixed units and does not round. A failing SQLite call (a full disk) is modelled in
-- Db/Statement and Db/Connection only: in the repositories a statement throws only on a constraint of
-- the schema. A failing OpenSSL call is not modelled.
--
-- Loops are by recursion on the text or the rows. The one fuel is that of std::to_string, which does a
-- round for each digit and gets one more round than the number's value.
--
-- Base64's decoder and parse_i64 leave a signed overflow undefined in the source; the models take the
-- two's complement result, and the theorems are about inputs where it does not occur, or do not
-- depend on it.
--
-- Not modelled: Crow's routes and threads, and the mutexes. Each handler is one step, which ends before
-- another begins, and within it each call of a repository, with the sqlite3_changes or
-- sqlite3_last_insert_rowid it reads afterwards, is one step as well: what handlers do that run at once on
-- the shared connection is not covered. Nor are the texts of exceptions, those that the commands print,
-- and the web client.
pub mod Prelude
pub mod Pow
pub mod Db
pub mod Dc
pub mod Feedback
pub mod Server
pub mod App
pub mod System
pub mod Tests
