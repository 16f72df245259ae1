-- ===== src/Identity.antt =====
-- internal/identity: the Identity context.
pub mod Users
pub mod Accounts
pub mod Tokens
