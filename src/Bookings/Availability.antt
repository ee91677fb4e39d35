-- ===== src/Bookings/Availability.antt =====
-- apps/api/src/modules/bookings/availability.engine.ts: the times at which a service can be booked with
-- a resource on one day. `date` is the midnight of the day in UTC and `offset` the runtime's offset of the
-- request's time zone; instants below the buffers before 1970 have no counterpart. The loop over the grid
-- runs on fuel, one step for each minute of the window and one more.
pub mod Windows
pub mod Grid
pub mod Offers
mod Tests
use muzael.Common.{
  ℕ, zero, suc, ◌+◌, ◌-◌, ◌*◌, max, min, Bool, true, false, not, ◌&&◌, Option, none, some, List, [],
  ◌∷◌, ◌++◌, map, any, filter, sort_by, ◌==◌, ltb, if◌then◌else◌,
}
use muzael.Common.Int.{ℤ}
use muzael.Shared.Time.{
  TimeOfDay, TimeRange, minutes_from_time_of_day, time_of_day_from_minutes, zoned_time_to_utc,
  local_weekday, ranges_overlap, ms_per_minute, ms_per_day,
}

pub record ScheduleWindow : Type 0 where
  pub weekday : ℕ
  pub start_time : TimeOfDay
  pub end_time : TimeOfDay

pub record BlockedRange : Type 0 where
  pub starts_at : ℕ
  pub ends_at : ℕ

pub record AvailabilityRequest : Type 0 where
  pub date : ℕ
  pub offset : ℕ → ℤ
  pub now : ℕ
  pub service_duration_minutes : ℕ
  pub service_buffer_before_minutes : ℕ
  pub service_buffer_after_minutes : ℕ
  pub resource_buffer_before_minutes : ℕ
  pub resource_buffer_after_minutes : ℕ
  pub business_hours : List TimeRange
  pub branch_hours : List TimeRange
  pub resource_schedule : List ScheduleWindow
  pub blocked : List BlockedRange
  pub slot_step_minutes : ℕ
  pub min_lead_time_minutes : ℕ
  pub max_advance_days : ℕ

pub record AvailableSlot : Type 0 where
  pub starts_at : ℕ
  pub ends_at : ℕ
  pub block_starts_at : ℕ
  pub block_ends_at : ℕ
  pub label : TimeOfDay

abbrev pub start_minute : TimeRange → ℕ
start_minute r = minutes_from_time_of_day r.start

abbrev pub end_minute : TimeRange → ℕ
end_minute r = minutes_from_time_of_day r.end

-- The inner loop of `intersectRanges`.
unfoldable pub intersect_range : TimeRange → List TimeRange → List TimeRange
intersect_range a [] = []
intersect_range a (b ∷ bs) =
    let rest = intersect_range a bs in
    let start : ℕ = max (start_minute a) (start_minute b) in
    let end : ℕ = min (end_minute a) (end_minute b) in
    if ltb start end
    then record { start = time_of_day_from_minutes start; end = time_of_day_from_minutes end }
      ∷ rest
    else rest

-- The outer loop.
unfoldable pub intersect_all : List TimeRange → List TimeRange → List TimeRange
intersect_all [] bs = []
intersect_all (a ∷ xs) bs = intersect_range a bs ++ intersect_all xs bs

unfoldable pub intersect_ranges : List TimeRange → List TimeRange → List TimeRange
intersect_ranges xs bs = sort_by start_minute (intersect_all xs bs)

abbrev pub branch_windows : List TimeRange → List TimeRange → List TimeRange
branch_windows business [] = business
branch_windows business (h ∷ hs) = intersect_ranges business (h ∷ hs)

abbrev pub resource_windows : ℕ → List ScheduleWindow → List TimeRange
resource_windows weekday schedule =
    map (λ s. record { start = s.start_time; end = s.end_time })
      (filter (λ s. s.weekday == weekday) schedule)

abbrev pub noon : TimeOfDay
noon = record { hour = 12; minute = 0 }

-- An empty list of hours leaves no window at any of the early returns, since the intersection with it
-- is empty.
unfoldable pub working_windows : AvailabilityRequest → List TimeRange
working_windows r = intersect_ranges (branch_windows r.business_hours r.branch_hours) (
    resource_windows (local_weekday (zoned_time_to_utc r.date noon r.offset) r.offset)
      r.resource_schedule)

abbrev pub buffer_before : AvailabilityRequest → ℕ
buffer_before r = max r.service_buffer_before_minutes r.resource_buffer_before_minutes

abbrev pub buffer_after : AvailabilityRequest → ℕ
buffer_after r = max r.service_buffer_after_minutes r.resource_buffer_after_minutes

abbrev pub earliest_start : AvailabilityRequest → ℕ
earliest_start r = r.now + r.min_lead_time_minutes * ms_per_minute

abbrev pub latest_start : AvailabilityRequest → ℕ
latest_start r = r.now + r.max_advance_days * ms_per_day

unfoldable pub slot_at : AvailabilityRequest → ℕ → AvailableSlot
slot_at r minute =
    let starts_at : ℕ = zoned_time_to_utc r.date (time_of_day_from_minutes minute) r.offset in
    let ends_at : ℕ = starts_at + r.service_duration_minutes * ms_per_minute in
    record {
      starts_at = starts_at;
      ends_at = ends_at;
      block_starts_at = starts_at - buffer_before r * ms_per_minute;
      block_ends_at = ends_at + buffer_after r * ms_per_minute;
      label = time_of_day_from_minutes minute;
    }

abbrev pub collides : List BlockedRange → AvailableSlot → Bool
collides blocked s =
    any (λ b. ranges_overlap s.block_starts_at s.block_ends_at b.starts_at b.ends_at) blocked

-- The two `continue`s on the instant and the one on a collision.
abbrev pub is_bookable : AvailabilityRequest → AvailableSlot → Bool
is_bookable r s =
    not (ltb s.starts_at (earliest_start r))
    && not (ltb (latest_start r) s.starts_at)
    && not (collides r.blocked s)

-- The loop over the minutes of one window, from `minute` on.
unfoldable pub grid : ℕ → AvailabilityRequest → ℕ → ℕ → ℕ → List AvailableSlot
grid zero r window_start window_end minute = []
grid (suc fuel) r window_start window_end minute =
    let rest = grid fuel r window_start window_end (minute + r.slot_step_minutes) in
    let slot = slot_at r minute in
    if ltb window_end minute
    then []
    else if ltb minute (window_start + buffer_before r)
    then rest
    else if ltb window_end (minute + r.service_duration_minutes + buffer_after r)
    then []
    else if is_bookable r slot
    then slot ∷ rest
    else rest

unfoldable pub window_slots : AvailabilityRequest → TimeRange → List AvailableSlot
window_slots r w =
    grid (suc (suc (end_minute w) - start_minute w)) r (start_minute w) (end_minute w)
      (start_minute w)

unfoldable pub all_slots : AvailabilityRequest → List TimeRange → List AvailableSlot
all_slots r [] = []
all_slots r (w ∷ ws) = window_slots r w ++ all_slots r ws

-- The filter on the set `seen`: the first slot of each instant.
unfoldable pub first_of_each : List ℕ → List AvailableSlot → List AvailableSlot
first_of_each seen [] = []
first_of_each seen (s ∷ ss) =
    let skipped = first_of_each seen ss in
    let kept = s ∷ first_of_each (s.starts_at ∷ seen) ss in
    if any (λ t. t == s.starts_at) seen then skipped else kept

unfoldable pub compute_availability : AvailabilityRequest → List AvailableSlot
compute_availability r =
    sort_by (λ s. s.starts_at) (first_of_each [] (all_slots r (working_windows r)))

-- `hoursForWeekday`: the opening hours by weekday, where they are an object, and of the entries of the
-- day those that are ranges.
pub record DayHours : Type 0 where
  pub weekday : ℕ
  pub ranges : List (Option TimeRange)

unfoldable pub ranges_of : List (Option TimeRange) → List TimeRange
ranges_of [] = []
ranges_of (none ∷ rs) = ranges_of rs
ranges_of (some r ∷ rs) = r ∷ ranges_of rs

unfoldable pub day_of : ℕ → List DayHours → List TimeRange
day_of weekday [] = []
day_of weekday (d ∷ ds) = if d.weekday == weekday then ranges_of d.ranges else day_of weekday ds

abbrev pub hours_for_weekday : Option (List DayHours) → ℕ → List TimeRange
hours_for_weekday none weekday = []
hours_for_weekday (some days) weekday = day_of weekday days
