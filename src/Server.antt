-- ===== src/Server.antt =====
-- src/server/: the server side.
pub mod Channel
pub mod Relay
pub mod Engine
pub mod Connection
