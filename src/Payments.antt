-- ===== src/Payments.antt =====
-- packages/payments and apps/api/src/modules/payments/payments.service.ts: providers turn their
-- protocol into an intent, and one state machine applies it to the rows of one tenant.
pub mod Json
pub mod Intent
pub mod Service
pub mod Webhook
pub mod Payme
pub mod Click
