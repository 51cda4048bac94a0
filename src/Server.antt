-- ===== src/Server.antt =====
-- The package internal/server: authentication, rate limiting and the HTTP handlers.
pub mod RateLimit
pub mod Auth
pub mod Api
pub mod Archive
pub mod Static
pub mod Routes
pub mod Jobs
pub mod Start
