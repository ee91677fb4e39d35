-- ===== src/Bookings/Service/Create.antt =====
-- apps/api/src/modules/bookings/bookings.service.ts: `create`. The transaction is one step: the lock on a
-- resource's day is what makes it one. The ids of new rows come with the request, and so does the clock,
-- which stands still for its length.
use muzael.Common.{
  ℕ, ◌+◌, ◌-◌, ◌*◌, max, Bool, not, ◌&&◌, Option, none, some, List, [], ◌∷◌, any, ltb, ◌==◌,
  if◌then◌else◌,
}
use muzael.Shared.Errors.{
  ErrorCode, Result, ok, err, ◌>>=◌, ◌>>◌, throw_if, not_found, validation_failed, booking_too_soon,
  booking_too_far, booking_outside_working_hours, booking_slot_taken,
}
use muzael.Shared.Time.{local_date, local_weekday, ms_per_minute, ms_per_day}
use muzael.Statuses.{BookingStatus}
use muzael.Bookings.Availability.{AvailabilityRequest, compute_availability, hours_for_weekday}
use muzael.Bookings.Settings.{booking_settings, Service, BookingResource, Tenant}
use muzael.Bookings.Service.{
  Booking, BookingCustomer, booking_created, Diary, is_held, CreateBookingInput, CreateRequest,
  first, or_throw, matches, resolve_resource,
}

-- The customer of a booking, or the phone number of one to be added.
pub data Booker : Type 0 where
  known : BookingCustomer → Booker
  unknown : ℕ → Booker

abbrev pub booker_by_phone : List BookingCustomer → Option ℕ → Result Booker
booker_by_phone cs none = err validation_failed
booker_by_phone cs (some phone) = elim (first (λ c. matches (some phone) c.phone) cs) [
  | none ↦ ok (unknown phone)
  | some c ↦ ok (known c)
]

abbrev pub known_booker : List BookingCustomer → ℕ → Result Booker
known_booker cs id = or_throw not_found (first (λ c. c.id == id) cs) >>= λ c. ok (known c)

abbrev pub booker_by_input : CreateBookingInput → List BookingCustomer → Result Booker
booker_by_input input cs = elim input.customer_id [
  | none ↦ booker_by_phone cs input.customer_phone
  | some id ↦ known_booker cs id
]

-- The lookups of `resolveCustomer`.
unfoldable pub resolve_customer :
    Option ℕ → CreateBookingInput → List BookingCustomer → Result Booker
resolve_customer none input cs = booker_by_input input cs
resolve_customer (some id) input cs = known_booker cs id

-- What is known when the checks on the time begin.
pub record Lookups : Type 0 where
  pub starts_at : ℕ
  pub service : Service
  pub resource : BookingResource
  pub booker : Booker

unfoldable pub look_up : CreateRequest → Diary → Result Lookups
look_up q d = do
  starts_at ← or_throw validation_failed q.input.starts_at
  service ← or_throw not_found (first (λ x. x.id == q.input.service_id && x.is_active) d.services)
  resource ← resolve_resource q.input d.resources
  booker ← resolve_customer q.actor_customer_id q.input d.customers
  ok (record { starts_at = starts_at; service = service; resource = resource; booker = booker })

abbrev pub add_booker : ℕ → Booker → Diary → Diary
add_booker new_id (known c) d = d
add_booker new_id (unknown phone) d = record d {
  customers =
      record { id = new_id; phone = some phone; booking_count = 0; last_activity_at = none }
      ∷ d.customers;
}

abbrev pub booker_id : ℕ → Booker → ℕ
booker_id new_id (known c) = c.id
booker_id new_id (unknown phone) = new_id

-- The request that `assertWithinWorkingHours` makes.
unfoldable pub working_hours_request : Tenant → Service → BookingResource → ℕ → AvailabilityRequest
working_hours_request tenant service resource starts_at =
    let weekday = local_weekday starts_at tenant.offset in
    record {
      date = local_date starts_at tenant.offset;
      offset = tenant.offset;
      now = 0;
      service_duration_minutes = service.duration_minutes;
      service_buffer_before_minutes = service.buffer_before_minutes;
      service_buffer_after_minutes = service.buffer_after_minutes;
      resource_buffer_before_minutes = resource.buffer_before_minutes;
      resource_buffer_after_minutes = resource.buffer_after_minutes;
      business_hours = hours_for_weekday tenant.working_hours weekday;
      branch_hours = hours_for_weekday resource.branch_working_hours weekday;
      resource_schedule = resource.schedules;
      blocked = [];
      slot_step_minutes = (booking_settings tenant.settings).slot_step_minutes;
      min_lead_time_minutes = 0;
      max_advance_days = 400_000;
    }

unfoldable pub within_working_hours : Tenant → Service → BookingResource → ℕ → Bool
within_working_hours tenant service resource starts_at =
    any (λ s. s.starts_at == starts_at)
      (compute_availability (working_hours_request tenant service resource starts_at))

-- The row that the transaction inserts.
unfoldable pub new_booking : CreateRequest → Lookups → Diary → Booking
new_booking q l d =
    let confirmed = (booking_settings d.tenant.settings).auto_confirm in
    let ends_at : ℕ = l.starts_at + l.service.duration_minutes * ms_per_minute in
    record {
      id = q.new_booking_id;
      customer_id = booker_id q.new_customer_id l.booker;
      service_id = l.service.id;
      resource_id = l.resource.id;
      branch_id = elim l.resource.branch_id [ none ↦ q.input.branch_id | some b ↦ some b ];
      status = if confirmed then BookingStatus.confirmed else BookingStatus.pending;
      starts_at = l.starts_at;
      ends_at = ends_at;
      block_starts_at =
          l.starts_at
          - max l.service.buffer_before_minutes l.resource.buffer_before_minutes * ms_per_minute;
      block_ends_at =
          ends_at
          + max l.service.buffer_after_minutes l.resource.buffer_after_minutes * ms_per_minute;
      duration_minutes = l.service.duration_minutes;
      price_snapshot = l.service.price;
      version = 0;
      confirmed_at = if confirmed then some q.now else none;
      completed_at = none;
      cancelled_at = none;
    }

-- The query of the re-check under the lock.
abbrev pub conflicts : Booking → Booking → Bool
conflicts new b =
    b.resource_id == new.resource_id
    && is_held b.status
    && ltb b.block_starts_at new.block_ends_at
    && ltb new.block_starts_at b.block_ends_at

abbrev pub count_booking : ℕ → ℕ → List BookingCustomer → List BookingCustomer
count_booking now id [] = []
count_booking now id (c ∷ cs) =
    if c.id == id
    then record c { booking_count = c.booking_count + 1; last_activity_at = some now } ∷ cs
    else c ∷ count_booking now id cs

-- The writes of the transaction.
unfoldable pub write_booking : ℕ → Booking → Diary → Diary
write_booking now b d = record d {
  bookings = b ∷ d.bookings;
  customers = count_booking now b.customer_id d.customers;
  history = record { booking_id = b.id; from_status = none; to_status = b.status } ∷ d.history;
  events = booking_created b.id ∷ d.events;
}

-- From the checks on the time to the end of the transaction.
unfoldable pub create_for : CreateRequest → Lookups → Diary → Result Diary
create_for q l d =
    let settings = booking_settings d.tenant.settings in
    let b = new_booking q l d in
    do
      throw_if (ltb l.starts_at (q.now + settings.min_lead_time_minutes * ms_per_minute))
          booking_too_soon
      throw_if (ltb (q.now + settings.max_advance_days * ms_per_day) l.starts_at) booking_too_far
      throw_if (not (within_working_hours d.tenant l.service l.resource l.starts_at))
          booking_outside_working_hours
      throw_if (any (conflicts b) d.bookings) booking_slot_taken
      ok (write_booking q.now b d)

-- The state that a request leaves and what it threw. A new customer stays when the booking fails.
pub record Outcome : Type 0 where
  pub diary : Diary
  pub thrown : Option ErrorCode

abbrev pub settle : Diary → Result Diary → Outcome
settle before (err e) = record { diary = before; thrown = some e }
settle before (ok after) = record { diary = after; thrown = none }

abbrev pub create_after : CreateRequest → Diary → Result Lookups → Outcome
create_after q d (err e) = record { diary = d; thrown = some e }
create_after q d (ok l) =
    let known_customer = add_booker q.new_customer_id l.booker d in
    settle known_customer (create_for q l known_customer)

unfoldable pub create : CreateRequest → Diary → Outcome
create q d = create_after q d (look_up q d)
