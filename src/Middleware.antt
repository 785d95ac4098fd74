-- ===== src/Middleware.antt =====
-- src/middleware.rs: what every request passes before it reaches a handler.
pub mod Auth
pub mod RateLimit
pub mod RequestId
