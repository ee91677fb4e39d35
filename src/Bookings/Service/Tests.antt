-- ===== src/Bookings/Service/Tests.antt =====
-- A barber, a haircut, and two customers who want the same hour.
use muzael.Common.{
  ℕ, ◌+◌, ◌-◌, ◌*◌, ◌≡◌, refl, true, false, none, some, List, [], ◌∷◌, map, arith, sort_by,
  insert_by,
}
use muzael.Common.Int.{pos}
use muzael.Shared.Time.{
  minutes_from_time_of_day, time_of_day_from_minutes, zoned_time_to_utc, local_weekday, local_date,
  ms_per_day, ms_per_minute,
}
use muzael.Bookings.Availability.{
  DayHours, ranges_of, day_of, intersect_range, intersect_all, intersect_ranges, working_windows,
  slot_at, grid, window_slots, all_slots, first_of_each, compute_availability,
}
use muzael.Bookings.Settings.{Tenant, Service, BookingResource}
use muzael.Bookings.Service.{
  BookingCustomer, Diary, CreateRequest, resources_for_service, resolve_resource,
}
use muzael.Bookings.Service.Create.{
  resolve_customer, look_up, working_hours_request, within_working_hours, new_booking,
  write_booking, create_for, create,
}
use muzael.Bookings.Service.Lifecycle.{
  BookingRequest, creation, cancellation, put_booking, write_booking_status, find_booking,
  update_status, cancel_by_customer, serve_all,
}
use muzael.Bookings.Service.Occupancy.{NoDoubleBooking, serve_all-NoDoubleBooking}

abbrev pub nine_to_six : DayHours
nine_to_six = record {
  weekday = 1;
  ranges =
      some
        (record { start = record { hour = 9; minute = 0 }; end = record { hour = 18; minute = 0 } })
      ∷ [];
}

abbrev pub tenant : Tenant
tenant = record {
  offset = λ i. pos 300;
  working_hours = some (nine_to_six ∷ []);
  settings = record {
    slot_step_minutes = some 30;
    min_lead_time_minutes = none;
    max_advance_days = none;
    auto_confirm = some false;
    cancellation_deadline_minutes = none;
    reminder_offsets_minutes = none;
  };
}

abbrev pub haircut : Service
haircut = record {
  id = 1;
  is_active = true;
  duration_minutes = 45;
  buffer_before_minutes = 0;
  buffer_after_minutes = 15;
  price = 50_000;
}

abbrev pub barber : BookingResource
barber = record {
  id = 7;
  name = 0;
  is_active = true;
  branch_id = none;
  employee_id = some 3;
  employee_services = 1 ∷ [];
  buffer_before_minutes = 0;
  buffer_after_minutes = 0;
  schedules =
      record {
        weekday = 1;
        start_time = record { hour = 10; minute = 0 };
        end_time = record { hour = 16; minute = 0 };
      }
      ∷ [];
  branch_working_hours = none;
}

abbrev customer : ℕ → BookingCustomer
customer id = record { id = id; phone = none; booking_count = 0; last_activity_at = none }

abbrev pub diary : Diary
diary = record {
  tenant = tenant;
  services = haircut ∷ [];
  resources = barber ∷ [];
  time_off = [];
  customers = customer 1 ∷ customer 2 ∷ [];
  bookings = [];
  history = [];
  events = [];
}

abbrev pub monday : ℕ
monday = 20094 * ms_per_day

-- Noon of that Monday in Tashkent.
abbrev pub noon_there : ℕ
noon_there = monday + 420 * ms_per_minute

abbrev pub request : ℕ → ℕ → ℕ → CreateRequest
request starts_at customer_id id = record {
  now = monday - ms_per_day;
  input = record {
    starts_at = some starts_at;
    service_id = 1;
    resource_id = none;
    employee_id = none;
    branch_id = none;
    customer_id = none;
    customer_phone = none;
  };
  actor_customer_id = some customer_id;
  new_booking_id = id;
  new_customer_id = 99;
}

-- Two want noon, the first cancels, and the second tries again.
abbrev requests : List BookingRequest
requests =
    creation (request noon_there 1 11)
    ∷ creation (request noon_there 2 12)
    ∷ cancellation (monday - ms_per_day) 11 1
    ∷ creation (request noon_there 2 13)
    ∷ []

bookings_test : map (λ b. b.id) (serve_all requests diary).bookings ≡ 13 ∷ 11 ∷ []
unfolding sort_by insert_by minutes_from_time_of_day time_of_day_from_minutes zoned_time_to_utc
    local_weekday local_date ranges_of day_of intersect_range intersect_all intersect_ranges
    working_windows slot_at grid window_slots all_slots first_of_each compute_availability
    resources_for_service resolve_resource resolve_customer look_up working_hours_request
    within_working_hours new_booking write_booking create_for create put_booking
    write_booking_status find_booking update_status cancel_by_customer serve_all
bookings_test = refl

serve_all-NoDoubleBooking_example : NoDoubleBooking (serve_all requests diary)
serve_all-NoDoubleBooking_example =
    serve_all-NoDoubleBooking requests diary (λ resource t. omega arith)
