-- ===== src/Loyalty/History.antt =====
-- apps/api/src/modules/loyalty/loyalty.service.ts: operations one after another.
