-- ===== src/Isolation.antt =====
-- packages/database: the guard that keeps a request's queries inside its tenant.
pub mod Values
pub mod Nested
pub mod Guard
