-- ===== src/Orders.antt =====
-- apps/api/src/modules/orders/orders.service.ts.
pub mod Stock
pub mod Status
