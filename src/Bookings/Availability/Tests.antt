-- ===== src/Bookings/Availability/Tests.antt =====
-- A barber who works from ten to two, with a break, on one Monday.
use muzael.Common.{
  ℕ, ◌+◌, ◌-◌, ◌*◌, ◌≡◌, refl, ◌↔◌, sort_by, insert_by, true, ◌&&◌, [], ◌∷◌, map, arith,
}
use muzael.Common.Int.{pos}
use muzael.Shared.Time.{
  TimeOfDay, TimeRange, minutes_from_time_of_day, time_of_day_from_minutes, zoned_time_to_utc,
  local_weekday, ms_per_day, ms_per_minute,
}
use muzael.Bookings.Availability.{
  AvailabilityRequest, intersect_range, intersect_all, intersect_ranges, working_windows, slot_at,
  grid, window_slots, all_slots, first_of_each, compute_availability,
}
use muzael.Bookings.Availability.Windows.{covers, intersect_ranges-covers}
use muzael.Bookings.Availability.Grid.{offers}
use muzael.Bookings.Availability.Offers.{IsFree, compute_availability_iff}

abbrev at_hour : ℕ → TimeOfDay
at_hour h = record { hour = h; minute = 0 }

abbrev range : ℕ → ℕ → TimeRange
range a b = record { start = at_hour a; end = at_hour b }

abbrev monday : ℕ
monday = 20094 * ms_per_day

-- The instant of a minute of that Monday in Tashkent.
abbrev instant : ℕ → ℕ
instant minute = monday + minute * ms_per_minute - 300 * ms_per_minute

abbrev sample : AvailabilityRequest
sample = record {
  date = monday;
  offset = λ i. pos 300;
  now = monday - ms_per_day;
  service_duration_minutes = 45;
  service_buffer_before_minutes = 0;
  service_buffer_after_minutes = 15;
  resource_buffer_before_minutes = 0;
  resource_buffer_after_minutes = 5;
  business_hours = range 9 22 ∷ [];
  branch_hours = [];
  resource_schedule =
      record { weekday = 1; start_time = at_hour 10; end_time = at_hour 12 }
      ∷ record { weekday = 1; start_time = at_hour 13; end_time = at_hour 14 }
      ∷ record { weekday = 2; start_time = at_hour 15; end_time = at_hour 20 }
      ∷ [];
  blocked = record { starts_at = instant 660; ends_at = instant 690 } ∷ [];
  slot_step_minutes = 30;
  min_lead_time_minutes = 60;
  max_advance_days = 30;
}

slots_test : map (λ s. s.starts_at) (compute_availability sample) ≡ instant 600 ∷ instant 780 ∷ []
unfolding sort_by insert_by minutes_from_time_of_day time_of_day_from_minutes zoned_time_to_utc
    local_weekday intersect_range intersect_all intersect_ranges working_windows slot_at grid
    window_slots all_slots first_of_each compute_availability
slots_test = refl

intersect_ranges-covers_example :
    covers (intersect_ranges (range 9 13 ∷ range 14 22 ∷ []) (range 10 15 ∷ [])) 780
    ≡ (covers (range 9 13 ∷ range 14 22 ∷ []) 780 && covers (range 10 15 ∷ []) 780)
unfolding minutes_from_time_of_day
intersect_ranges-covers_example =
    intersect_ranges-covers (range 9 13 ∷ range 14 22 ∷ []) (range 10 15 ∷ []) 780
      (omega arith, (omega arith, tt))

compute_availability_iff_example :
    (offers (compute_availability sample) (instant 780) ≡ true) ↔ IsFree sample (instant 780)
compute_availability_iff_example = compute_availability_iff sample (instant 780) (omega arith)
