-- ===== src/Rbac.antt =====
-- packages/rbac.
pub mod Permissions
pub mod Roles
pub mod Modules
