-- ===== src/Bookings/Service.antt =====
-- apps/api/src/modules/bookings/bookings.service.ts: the rows of appointments, the statuses that lead to
-- one another, and how a request's resource is found.
pub mod Create
pub mod Lifecycle
pub mod Occupancy
pub mod Accepted
pub mod Tests
use muzael.Common.{
  ℕ, ◌+◌, ◌-◌, ◌*◌, max, Bool, true, false, not, ◌&&◌, Option, none, some, List, [], ◌∷◌, any,
  filter, sort_by, contains, ltb, ◌==◌, if◌then◌else◌,
}
use muzael.Shared.Errors.{
  ErrorCode, Result, ok, err, ◌>>=◌, ◌>>◌, throw_if, not_found, validation_failed, booking_too_soon,
  booking_too_far, booking_outside_working_hours, booking_slot_taken, booking_not_cancellable,
  invalid_status_transition, resource_unavailable,
}
use muzael.Shared.Time.{local_date, local_weekday, ms_per_minute, ms_per_day}
use muzael.Statuses.{BookingStatus, includes_booking}
use muzael.Bookings.Availability.{
  AvailabilityRequest, AvailableSlot, compute_availability, hours_for_weekday,
}
use muzael.Bookings.Settings.{
  BookingSettings, booking_settings, Service, BookingResource, Tenant, or_else,
}

abbrev pub allowed_transitions : BookingStatus → List BookingStatus
allowed_transitions BookingStatus.pending = BookingStatus.confirmed ∷ BookingStatus.cancelled ∷ []
allowed_transitions BookingStatus.confirmed =
    BookingStatus.arrived ∷ BookingStatus.in_progress ∷ BookingStatus.completed
    ∷ BookingStatus.cancelled ∷ BookingStatus.no_show ∷ []
allowed_transitions BookingStatus.arrived =
    BookingStatus.in_progress ∷ BookingStatus.completed ∷ BookingStatus.cancelled
    ∷ BookingStatus.no_show ∷ []
allowed_transitions BookingStatus.in_progress =
    BookingStatus.completed ∷ BookingStatus.cancelled ∷ []
allowed_transitions BookingStatus.completed = []
allowed_transitions BookingStatus.cancelled = []
allowed_transitions BookingStatus.no_show = []

pub record Booking : Type 0 where
  pub id : ℕ
  pub customer_id : ℕ
  pub service_id : ℕ
  pub resource_id : ℕ
  pub branch_id : Option ℕ
  pub status : BookingStatus
  pub starts_at : ℕ
  pub ends_at : ℕ
  pub block_starts_at : ℕ
  pub block_ends_at : ℕ
  pub duration_minutes : ℕ
  pub price_snapshot : ℕ
  pub version : ℕ
  pub confirmed_at : Option ℕ
  pub completed_at : Option ℕ
  pub cancelled_at : Option ℕ

pub record BookingCustomer : Type 0 where
  pub id : ℕ
  pub phone : Option ℕ
  pub booking_count : ℕ
  pub last_activity_at : Option ℕ

pub record BookingStatusHistory : Type 0 where
  pub booking_id : ℕ
  pub from_status : Option BookingStatus
  pub to_status : BookingStatus

pub data BookingEvent : Type 0 where
  booking_created booking_completed booking_cancelled : ℕ → BookingEvent

pub record TimeOff : Type 0 where
  pub resource_id : ℕ
  pub starts_at : ℕ
  pub ends_at : ℕ

pub record Diary : Type 0 where
  pub tenant : Tenant
  pub services : List Service
  pub resources : List BookingResource
  pub time_off : List TimeOff
  pub customers : List BookingCustomer
  pub bookings : List Booking
  pub history : List BookingStatusHistory
  pub events : List BookingEvent

-- `status: { notIn: ['CANCELLED', 'NO_SHOW'] }`.
abbrev pub is_held : BookingStatus → Bool
is_held BookingStatus.cancelled = false
is_held BookingStatus.no_show = false
is_held _ = true

pub record CreateBookingInput : Type 0 where
  pub starts_at : Option ℕ
  pub service_id : ℕ
  pub resource_id : Option ℕ
  pub employee_id : Option ℕ
  pub branch_id : Option ℕ
  pub customer_id : Option ℕ
  pub customer_phone : Option ℕ

pub record CreateRequest : Type 0 where
  pub now : ℕ
  pub input : CreateBookingInput
  pub actor_customer_id : Option ℕ
  pub new_booking_id : ℕ
  pub new_customer_id : ℕ

abbrev pub first {ℓ} : {A : Type ℓ} → (A → Bool) → List A → Option A
first p [] = none
first p (x ∷ xs) = if p x then some x else first p xs

-- `findFirstOrThrow`.
abbrev pub or_throw {ℓ} : {A : Type ℓ} → ErrorCode → Option A → Result A
or_throw code none = err code
or_throw code (some x) = ok x

-- A filter of a query that is not set lets everything pass.
abbrev pub matches : Option ℕ → Option ℕ → Bool
matches none value = true
matches (some wanted) none = false
matches (some wanted) (some value) = value == wanted

-- The query of `resourcesForService`, without an id of a resource and with it.
abbrev pub can_perform : ℕ → BookingResource → Bool
can_perform service_id r = elim r.employee_id [
  | none ↦ true
  | some e ↦ contains r.employee_services service_id
]

unfoldable pub resources_for_service :
    ℕ → Option ℕ → Option ℕ → Option ℕ → List BookingResource → List BookingResource
resources_for_service service_id branch_id none employee_id rs =
    sort_by (λ r. r.name)
      (filter
        (λ r.
          r.is_active
          && matches branch_id r.branch_id
          && matches employee_id r.employee_id
          && can_perform service_id r)
        rs)
resources_for_service service_id branch_id (some id) employee_id rs =
    sort_by (λ r. r.name)
      (filter
        (λ r.
          r.is_active
          && r.id == id
          && matches branch_id r.branch_id
          && matches employee_id r.employee_id)
        rs)

abbrev pub head {ℓ} : {A : Type ℓ} → List A → Option A
head [] = none
head (x ∷ xs) = some x

abbrev pub resolve_any :
    CreateBookingInput → List BookingResource → Option ℕ → Result BookingResource
resolve_any input rs none =
    or_throw resource_unavailable
      (head (resources_for_service input.service_id input.branch_id none none rs))
resolve_any input rs (some employee) =
    or_throw not_found (first (λ r. matches (some employee) r.employee_id && r.is_active) rs)

abbrev pub resolve_by_id :
    CreateBookingInput → List BookingResource → Option ℕ → Result BookingResource
resolve_by_id input rs none = resolve_any input rs input.employee_id
resolve_by_id input rs (some id) = or_throw not_found (first (λ r. r.id == id && r.is_active) rs)

unfoldable pub resolve_resource : CreateBookingInput → List BookingResource → Result BookingResource
resolve_resource input rs = resolve_by_id input rs input.resource_id
