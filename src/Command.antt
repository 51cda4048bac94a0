-- ===== src/Command.antt =====
-- The commands of cmd/server and cmd/client. What they print is left out, but for the token.
pub mod Server
pub mod Tree
pub mod Client
