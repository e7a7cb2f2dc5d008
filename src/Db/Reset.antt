-- ===== src/Db/Reset.antt =====
-- `Bot::reset_owner_in_db` of src/dc/bot.cpp, which works on the tables alone.
use deltafeedback.Prelude.{[], codes}
use deltafeedback.Db.Schema.{Database}
use deltafeedback.Db.State.{erase}

-- The owner's key goes, then all tickets with their messages, then the replay rows.
unfoldable pub reset_owner_in_db : Database → Database
reset_owner_in_db db =
    let forgotten = erase (codes "owner_contact_id") db in
    let emptied = record forgotten { tickets = []; messages = [] } in
    record emptied { pow_replay = [] }
