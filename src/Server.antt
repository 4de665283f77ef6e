-- ===== src/Server.antt =====
-- The server library: src/server/src/sockspp/server.
pub mod Params
pub mod Setup
pub mod Auth
pub mod Loop
