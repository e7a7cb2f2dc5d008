-- ===== src/Db.antt =====
-- The SQLite database: src/db. Each table is the list of its rows in rowid order, and each query of
-- queries.h is the function on the tables that its SQL text says. An operation of a repository is an
-- action on the tables; it throws where SQLite refuses the statement, which then changes nothing.
pub mod Schema
pub mod State
pub mod Statement
pub mod Connection
pub mod Replay
pub mod Tickets
pub mod Messages
pub mod Reset
pub mod Invariant
