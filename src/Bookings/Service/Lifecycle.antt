-- ===== src/Bookings/Service/Lifecycle.antt =====
-- apps/api/src/modules/bookings/bookings.service.ts: `updateStatus` and `cancelByCustomer`, and requests
-- to the service in the order in which they are served.
use muzael.Common.{ℕ, ◌+◌, ◌*◌, not, ◌&&◌, Option, some, List, [], ◌∷◌, ltb, ◌==◌, if◌then◌else◌}
use muzael.Shared.Errors.{
  Result, ok, ◌>>=◌, ◌>>◌, throw_if, not_found, booking_not_cancellable, invalid_status_transition,
}
use muzael.Shared.Time.{ms_per_minute}
use muzael.Statuses.{BookingStatus, includes_booking}
use muzael.Bookings.Settings.{booking_settings}
use muzael.Bookings.Service.{
  allowed_transitions, Booking, BookingEvent, booking_completed, booking_cancelled, Diary,
  CreateRequest, first, or_throw,
}
use muzael.Bookings.Service.Create.{Outcome, settle, create}

-- The `data` of the update.
abbrev pub with_status : ℕ → BookingStatus → Booking → Booking
with_status now next b = record b {
  status = next;
  version = b.version + 1;
  confirmed_at = elim next [ BookingStatus.confirmed ↦ some now | _ ↦ b.confirmed_at ];
  completed_at = elim next [ BookingStatus.completed ↦ some now | _ ↦ b.completed_at ];
  cancelled_at = elim next [
    | BookingStatus.cancelled ↦ some now
    | BookingStatus.no_show ↦ some now
    | _ ↦ b.cancelled_at
  ];
}

unfoldable pub put_booking : Booking → List Booking → List Booking
put_booking q [] = []
put_booking q (b ∷ bs) = let rest = put_booking q bs in if b.id == q.id then q ∷ bs else b ∷ rest

abbrev pub status_events : ℕ → BookingStatus → List BookingEvent → List BookingEvent
status_events id BookingStatus.completed events = booking_completed id ∷ events
status_events id BookingStatus.cancelled events = booking_cancelled id ∷ events
status_events id _ events = events

-- The writes of the transaction.
unfoldable pub write_booking_status : ℕ → BookingStatus → Booking → Diary → Diary
write_booking_status now next b d = record d {
  bookings = put_booking (with_status now next b) d.bookings;
  history = record { booking_id = b.id; from_status = some b.status; to_status = next } ∷ d.history;
  events = status_events b.id next d.events;
}

unfoldable pub find_booking : ℕ → List Booking → Option Booking
find_booking id bs = first (λ b. b.id == id) bs

unfoldable pub update_status : ℕ → ℕ → BookingStatus → Diary → Result Diary
update_status now id next d = do
  b ← or_throw not_found (find_booking id d.bookings)
  throw_if (not (includes_booking (allowed_transitions b.status) next)) invalid_status_transition
  ok (write_booking_status now next b d)

-- The customer's own cancellation, subject to the deadline of the tenant.
unfoldable pub cancel_by_customer : ℕ → ℕ → ℕ → Diary → Result Diary
cancel_by_customer now id customer_id d =
    let settings = booking_settings d.tenant.settings in
    do
      b ← or_throw not_found (first (λ b. b.id == id && b.customer_id == customer_id) d.bookings)
      throw_if (not (includes_booking (allowed_transitions b.status) BookingStatus.cancelled))
          booking_not_cancellable
      throw_if (ltb b.starts_at (now + settings.cancellation_deadline_minutes * ms_per_minute))
          booking_not_cancellable
      update_status now id BookingStatus.cancelled d

pub data BookingRequest : Type 0 where
  creation : CreateRequest → BookingRequest
  status_change : ℕ → ℕ → BookingStatus → BookingRequest
  cancellation : ℕ → ℕ → ℕ → BookingRequest

abbrev pub serve : BookingRequest → Diary → Outcome
serve (creation q) d = create q d
serve (status_change now id next) d = settle d (update_status now id next d)
serve (cancellation now id customer_id) d = settle d (cancel_by_customer now id customer_id d)

unfoldable pub serve_all : List BookingRequest → Diary → Diary
serve_all [] d = d
serve_all (q ∷ qs) d = serve_all qs (serve q d).diary
