-- ===== src/Tests.antt =====
-- Runs of the code at concrete inputs, and each theorem at one of them.
pub mod Sample
pub mod Pow
pub mod Db
pub mod Dc
pub mod Feedback
pub mod Server
pub mod System
pub mod Protocol
pub mod App
pub mod RateLimit
pub mod Files
pub mod Handles
pub mod Solved
