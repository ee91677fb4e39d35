-- ===== src/Events.antt =====
-- apps/api/src/modules/events: the outbox of domain events and the dispatcher that drains it.
pub mod Dispatcher
