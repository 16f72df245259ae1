-- ===== src/Platform.antt =====
-- internal/platform: what the services share.
pub mod RateLimit
