-- ===== src/Dc.antt =====
-- The Delta Chat side: src/dc.
pub mod Parse
pub mod Route
pub mod Sender
pub mod Bot
