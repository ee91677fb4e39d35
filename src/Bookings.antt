-- ===== src/Bookings.antt =====
-- apps/api/src/modules/bookings: free times, and the appointments that take them.
pub mod Availability
pub mod Settings
pub mod Service
pub mod Queries
