-- ===== src/Bookings/Queries/Tests.antt =====
-- What is offered on one Monday, and a booking of it.
use muzael.Common.{ℕ, ◌+◌, ◌≡◌, refl, true, none, List, [], ◌∷◌, arith, sort_by, insert_by}
use muzael.Shared.Errors.{ok}
use muzael.Shared.Time.{
  minutes_from_time_of_day, time_of_day_from_minutes, zoned_time_to_utc, local_weekday, local_date,
}
use muzael.Bookings.Availability.{
  AvailableSlot, ranges_of, day_of, intersect_range, intersect_all, intersect_ranges,
  working_windows, slot_at, grid, window_slots, all_slots, first_of_each, compute_availability,
}
use muzael.Bookings.Availability.Grid.{offers}
use muzael.Bookings.Service.{CreateRequest}
use muzael.Bookings.Service.Create.{Lookups, known, new_booking, write_booking, create_for}
use muzael.Bookings.Service.Tests.{haircut, barber, diary, monday, noon_there, request}
use muzael.Bookings.Queries.{
  ResourceSlots, merge_slots, add_slot, add_slots, add_resources, blocked_by_bookings,
  blocked_by_time_off, availability_request,
}
use muzael.Bookings.Queries.Merged.{lists}
use muzael.Bookings.Queries.Bookable.{offered-create_for}

abbrev slot : ℕ → AvailableSlot
slot t = record {
  starts_at = t;
  ends_at = t + 10;
  block_starts_at = t;
  block_ends_at = t + 10;
  label = record { hour = 9; minute = 0 };
}

abbrev two_resources : List ResourceSlots
two_resources =
    record { resource_id = 1; slots = slot 30 ∷ slot 10 ∷ [] }
    ∷ record { resource_id = 2; slots = slot 10 ∷ [] }
    ∷ []

merge_test : lists 2 10 (merge_slots two_resources) ≡ true
unfolding merge_slots add_slot add_slots add_resources sort_by insert_by
merge_test = refl

abbrev wish : CreateRequest
wish = request noon_there 1 11

abbrev wish_lookups : Lookups
wish_lookups = record {
  starts_at = noon_there;
  service = haircut;
  resource = barber;
  booker = known (record { id = 1; phone = none; booking_count = 0; last_activity_at = none });
}

offered_test :
    offers
      (compute_availability (availability_request wish.now monday haircut barber diary))
      noon_there
    ≡ true
unfolding sort_by insert_by minutes_from_time_of_day time_of_day_from_minutes zoned_time_to_utc
    local_weekday ranges_of day_of intersect_range intersect_all intersect_ranges working_windows
    slot_at grid window_slots all_slots first_of_each compute_availability blocked_by_bookings
    blocked_by_time_off availability_request
offered_test = refl

offered-create_for_example :
    create_for wish wish_lookups diary
    ≡ ok (write_booking wish.now (new_booking wish wish_lookups diary) diary)
unfolding local_date local_weekday new_booking
offered-create_for_example =
    offered-create_for wish wish_lookups diary monday refl refl (omega arith) (omega arith)
      (omega arith) (omega arith) offered_test
