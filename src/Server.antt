-- ===== src/Server.antt =====
-- The HTTP layer: src/server/server.cpp.
pub mod Headers
pub mod Responses
pub mod Handlers
pub mod RateLimit
pub mod Files
