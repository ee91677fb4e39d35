-- ===== src/Auth.antt =====
-- apps/api/src/modules/auth: sessions.
pub mod Tokens
pub mod Login
