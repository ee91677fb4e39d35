-- ===== src/Lib.antt =====
-- Verification library of BizBot OS, a multi-tenant back office for small businesses: orders, bookings,
-- payments, bonuses, and the rights of a team. Modelled are the parts that decide about money and rights.
--
-- The parts and their files:
--   Shared/Errors      packages/shared/src/errors.ts: `ErrorCode`, `ERROR_HTTP_STATUS`, `DomainError`.
--   Shared/Money       packages/shared/src/money.ts: `applyPercentage`, `distributeProportionally`.
--   Pricing            apps/api/src/modules/cart/pricing.service.ts: `PricingService.compute` and its steps.
--   Rbac/Permissions   packages/rbac/src/permissions.ts: `PERMISSIONS`.
--   Rbac/Roles         packages/rbac/src/roles.ts: `MATRIX`, `effectivePermissions`, `canAssignRole`.
--   Rbac/Modules       packages/rbac/src/modules.ts: `MODULE_DEFINITIONS`, `withDependencies`, `dependentsOf`.
--   Members            apps/api/src/modules/members/members.service.ts: `invite`, `changeRole`, `remove`.
--   Tenants            apps/api/src/modules/tenants/tenants.service.ts: `setModule`.
--   Statuses           packages/database/prisma/schema.prisma: the statuses of orders, bookings, payments.
--   Payments/Intent    packages/payments/src/provider.ts: `NormalizedIntent`, and the states of a payment.
--   Payments/Service   apps/api/src/modules/payments/payments.service.ts: `applyIntent`.
--   Payments/Webhook   the same file: `handleWebhook` and `applyIntentWithDedup`.
--   Payments/Payme     packages/payments/src/providers/payme.ts: the JSON-RPC adapter.
--   Payments/Click     packages/payments/src/providers/click.ts: the two-stage callback.
--   Loyalty            apps/api/src/modules/loyalty/loyalty.service.ts, and `spendLoyalty` of
--                      apps/api/src/modules/orders/orders.service.ts.
--   Orders/Stock       apps/api/src/modules/orders/orders.service.ts: `reserveStock` and `releaseStock`.
--   Orders/Status      the same file: `DEFAULT_PIPELINE` and `updateStatus`.
--   Shared/Time        packages/shared/src/time.ts: times of day, zones and ranges.
--   Bookings           apps/api/src/modules/bookings: availability.engine.ts in Availability, and of
--                      bookings.service.ts `create`, `updateStatus` and `cancelByCustomer` in Service,
--                      `getAvailability` in Queries.
--   Cart               apps/api/src/modules/cart/cart.service.ts: the lines, selections and promo codes,
--                      and `resolvePricing`, which calls Pricing.
--   Events             apps/api/src/modules/events/event-dispatcher.service.ts: `drain` and `process`.
--   Isolation          packages/database/src/tenant-guard.ts: the rewriting of queries.
--   Auth/Tokens        apps/api/src/modules/auth/token.service.ts: refresh tokens.
--   Auth/Login         apps/api/src/modules/auth/auth.service.ts: `register`, `login`, `changePassword`.
-- Common holds the library names, the tests and the lists that all of these share.
--
-- How they interact: the price of a cart uses the split of Shared/Money. The services of members and
-- tenants use the roles and the modules of Rbac. A callback goes from an adapter, which makes an intent
-- of it, through the pipeline of Payments/Webhook to the state machine of Payments/Service; an adapter
-- fills the record `Provider`, which the pipeline takes as an argument. The bookings service asks the
-- availability engine twice: for what it shows, and for whether an instant that a client posts is inside
-- working hours. The cart turns its rows into the input of Pricing. All services but the webhooks read
-- and write through the tenant guard.
--
-- How the model stands to the code: names are those of the source in this library's spelling. Tables
-- are lists of rows, an operation takes the rows and returns the new ones, and an error is a value. A
-- transaction that throws leaves the rows as they were; audit entries are written outside of it.
-- Several requests are a list of calls in the order in which they commit; overlapping ones are split
-- into the part before and the part after their reads. Ids are numbers, moments are milliseconds given
-- as arguments, texts are strings. Amounts are non-negative integers in minor units, and the source's
-- doubles are taken as exact, which they are below 2^53.
--
-- Bounds: the walk of `withDependencies` runs on four units of fuel, one more than the longest chain of
-- requirements has links; the decimals of Payments/Payme run on one unit more than the number. The grid
-- of Bookings/Availability runs on one unit for each minute of the window and one more, which is enough
-- since each step is at least one minute. The search of a filter for other tenants goes four levels deep
-- and the stamp on nested rows three, both as in the source.
--
-- Not modelled: the web applications, the HTTP layer, Telegram, texts, configuration, deployment, and the
-- database itself, of which the guard's client is a parameter. The signature checks of the adapters are
-- parameters, as are the lookups of users by their address, the offset of a time zone, the outcome of an
-- event handler, and the capitals of a text. Of the orders, checkout and the staff's orders are left out;
-- of the services, those of catalogs, customers, branches and analytics; of the adapters,
-- cash and mock. Of the events, several workers and crashes are left out.
pub mod Auth
pub mod Events
pub mod Cart
pub mod Isolation
pub mod Bookings
pub mod Common
pub mod Shared
pub mod Statuses
pub mod Pricing
pub mod Rbac
pub mod Members
pub mod Tenants
pub mod Payments
pub mod Loyalty
pub mod Orders
