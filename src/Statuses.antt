-- ===== src/Statuses.antt =====
-- packages/database/prisma/schema.prisma: the statuses of orders, bookings and their payment. The
-- places stand for the strings that the source compares: they differ exactly where these do.
use muzael.Common.{ℕ, Bool, List, any, ◌==◌}

pub data OrderStatus : Type 0 where
  new accepted preparing ready delivering completed cancelled : OrderStatus

pub data BookingStatus : Type 0 where
  pending confirmed arrived in_progress completed cancelled no_show : BookingStatus

pub data PaymentStatus : Type 0 where
  unpaid pending paid partially_refunded refunded failed : PaymentStatus

abbrev pub order_place : OrderStatus → ℕ
order_place OrderStatus.new = 0
order_place OrderStatus.accepted = 1
order_place OrderStatus.preparing = 2
order_place OrderStatus.ready = 3
order_place OrderStatus.delivering = 4
order_place OrderStatus.completed = 5
order_place OrderStatus.cancelled = 6

abbrev pub is_order_status : OrderStatus → OrderStatus → Bool
is_order_status a b = order_place a == order_place b

-- `allowed.includes(next)`.
abbrev pub includes_order : List OrderStatus → OrderStatus → Bool
includes_order allowed next = any (λ s. is_order_status s next) allowed

abbrev pub booking_place : BookingStatus → ℕ
booking_place BookingStatus.pending = 0
booking_place BookingStatus.confirmed = 1
booking_place BookingStatus.arrived = 2
booking_place BookingStatus.in_progress = 3
booking_place BookingStatus.completed = 4
booking_place BookingStatus.cancelled = 5
booking_place BookingStatus.no_show = 6

abbrev pub is_booking_status : BookingStatus → BookingStatus → Bool
is_booking_status a b = booking_place a == booking_place b

abbrev pub includes_booking : List BookingStatus → BookingStatus → Bool
includes_booking allowed next = any (λ s. is_booking_status s next) allowed
