-- ===== src/Shared.antt =====
-- packages/shared.
pub mod Errors
pub mod Money
pub mod Time
