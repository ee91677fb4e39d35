-- ===== src/Bookings/Queries.antt =====
-- apps/api/src/modules/bookings/bookings.service.ts: `getAvailability`. `date` is the midnight of the day
-- in UTC. Of a resource and a service the answer keeps the ids.
pub mod Bookable
pub mod Merged
mod Tests
use muzael.Common.{
  ℕ, ◌+◌, ◌-◌, ◌*◌, Bool, true, false, ◌&&◌, Option, none, some, List, [], ◌∷◌, ◌++◌, map, filter,
  sort_by, ltb, ◌==◌, if◌then◌else◌,
}
use muzael.Shared.Errors.{Result, ok, err, ◌>>=◌, not_found}
use muzael.Shared.Time.{TimeOfDay, local_weekday, ms_per_minute, ms_per_day}
use muzael.Bookings.Availability.{
  BlockedRange, AvailabilityRequest, AvailableSlot, compute_availability, hours_for_weekday,
}
use muzael.Bookings.Settings.{booking_settings, Service, BookingResource}
use muzael.Bookings.Service.{
  Booking, TimeOff, Diary, is_held, first, or_throw, resources_for_service,
}

pub record AvailabilityQuery : Type 0 where
  pub service_id : ℕ
  pub date : ℕ
  pub branch_id : Option ℕ
  pub resource_id : Option ℕ
  pub employee_id : Option ℕ

abbrev pub window_start : ℕ → ℕ
window_start date = date - ms_per_day

-- The end of the day is taken as its last second.
abbrev pub window_end : ℕ → ℕ
window_end date = date + 86_399_000 + ms_per_day

-- The held bookings of the resource in the window.
abbrev pub is_near : ℕ → BookingResource → Booking → Bool
is_near date resource b =
    b.resource_id == resource.id
    && is_held b.status
    && ltb b.block_starts_at (window_end date)
    && ltb (window_start date) b.block_ends_at

abbrev pub is_off_near : ℕ → BookingResource → TimeOff → Bool
is_off_near date resource t =
    t.resource_id == resource.id
    && ltb t.starts_at (window_end date)
    && ltb (window_start date) t.ends_at

unfoldable pub blocked_by_bookings : ℕ → BookingResource → List Booking → List BlockedRange
blocked_by_bookings date resource bs =
    map (λ b. record { starts_at = b.block_starts_at; ends_at = b.block_ends_at })
      (filter (is_near date resource) bs)

unfoldable pub blocked_by_time_off : ℕ → BookingResource → List TimeOff → List BlockedRange
blocked_by_time_off date resource ts =
    map (λ t. record { starts_at = t.starts_at; ends_at = t.ends_at })
      (filter (is_off_near date resource) ts)

-- The weekday is that of noon in UTC.
abbrev pub query_weekday : ℕ → Diary → ℕ
query_weekday date d = local_weekday (date + 720 * ms_per_minute) d.tenant.offset

unfoldable pub availability_request :
    ℕ → ℕ → Service → BookingResource → Diary → AvailabilityRequest
availability_request now date service resource d =
    let settings = booking_settings d.tenant.settings in
    record {
      date = date;
      offset = d.tenant.offset;
      now = now;
      service_duration_minutes = service.duration_minutes;
      service_buffer_before_minutes = service.buffer_before_minutes;
      service_buffer_after_minutes = service.buffer_after_minutes;
      resource_buffer_before_minutes = resource.buffer_before_minutes;
      resource_buffer_after_minutes = resource.buffer_after_minutes;
      business_hours = hours_for_weekday d.tenant.working_hours (query_weekday date d);
      branch_hours = hours_for_weekday resource.branch_working_hours (query_weekday date d);
      resource_schedule = resource.schedules;
      blocked =
          blocked_by_bookings date resource d.bookings
          ++ blocked_by_time_off date resource d.time_off;
      slot_step_minutes = settings.slot_step_minutes;
      min_lead_time_minutes = settings.min_lead_time_minutes;
      max_advance_days = settings.max_advance_days;
    }

pub record ResourceSlots : Type 0 where
  pub resource_id : ℕ
  pub slots : List AvailableSlot

pub record MergedSlot : Type 0 where
  pub starts_at : ℕ
  pub label : TimeOfDay
  pub resource_ids : List ℕ

-- `byTime.get` and the push or the set.
unfoldable pub add_slot : ℕ → AvailableSlot → List MergedSlot → List MergedSlot
add_slot id s [] = record { starts_at = s.starts_at; label = s.label; resource_ids = id ∷ [] } ∷ []
add_slot id s (m ∷ ms) =
    let rest = add_slot id s ms in
    if m.starts_at == s.starts_at
    then record m { resource_ids = m.resource_ids ++ (id ∷ []) } ∷ ms
    else m ∷ rest

unfoldable pub add_slots : ℕ → List AvailableSlot → List MergedSlot → List MergedSlot
add_slots id [] ms = ms
add_slots id (s ∷ ss) ms = add_slots id ss (add_slot id s ms)

unfoldable pub add_resources : List ResourceSlots → List MergedSlot → List MergedSlot
add_resources [] ms = ms
add_resources (e ∷ es) ms = add_resources es (add_slots e.resource_id e.slots ms)

unfoldable pub merge_slots : List ResourceSlots → List MergedSlot
merge_slots per_resource = sort_by (λ m. m.starts_at) (add_resources per_resource [])

pub record AvailabilityView : Type 0 where
  pub resources : List ResourceSlots
  pub any_slots : List MergedSlot

abbrev pub resource_slots : ℕ → ℕ → Service → Diary → BookingResource → ResourceSlots
resource_slots now date service d resource = record {
  resource_id = resource.id;
  slots = compute_availability (availability_request now date service resource d);
}

-- Without a resource the answer has no slots either, like that of the early return.
unfoldable pub get_availability : ℕ → AvailabilityQuery → Diary → Result AvailabilityView
get_availability now q d = do
  service ← or_throw not_found (first (λ x. x.id == q.service_id && x.is_active) d.services)
  let resources =
      resources_for_service q.service_id q.branch_id q.resource_id q.employee_id d.resources
  let per_resource = map (resource_slots now q.date service d) resources
  ok (record { resources = per_resource; any_slots = merge_slots per_resource })
