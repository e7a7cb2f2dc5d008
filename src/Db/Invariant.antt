-- ===== src/Db/Invariant.antt =====
-- What every statement that the program sends keeps true of the tables.
mod Keys
mod TicketKeys
mod MessageKeys
mod Statements
mod Preserve
pub use Keys.{IsConsistent, Ascending, GoodStatus, KnownSender, DistinctChallenges}
pub use Statements.{Statement, exec, exec_all, Allowed, Serving}
pub use Preserve.{exec-IsConsistent, exec_all-IsConsistent}
