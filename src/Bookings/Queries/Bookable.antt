-- ===== src/Bookings/Queries/Bookable.antt =====
-- apps/api/src/modules/bookings/bookings.service.ts: from a time that `getAvailability` offers to the
-- booking that `create` makes of it.
use muzael.Common.{
  ℕ, ◌+◌, ◌*◌, ◌≤◌, ◌≡◌, refl, sym, ap, ◌∙◌, subst, inl, inr, true, false, List, [], ◌∷◌, ◌++◌,
  arith, any, All, Any,
}
use muzael.Shared.Errors.{ok}
use muzael.Shared.Time.{
  TimeRange, time_of_day_from_minutes, zoned_time_to_utc, local_date, local_weekday, ms_per_day,
}
use muzael.Bookings.Availability.{AvailabilityRequest, compute_availability, working_windows}
use muzael.Bookings.Availability.Grid.{offers}
use muzael.Bookings.Availability.Offers.{Misses, IsInWindow, IsFree, compute_availability_iff}
use muzael.Bookings.Settings.{booking_settings}
use muzael.Bookings.Service.{Booking, Diary, CreateRequest}
use muzael.Bookings.Service.Create.{
  Lookups, working_hours_request, within_working_hours, new_booking, conflicts, write_booking,
  create_for,
}
use muzael.Bookings.Queries.{
  window_start, window_end, blocked_by_bookings, blocked_by_time_off, query_weekday,
  availability_request,
}

module _ {A : Type 0} (P : A → Type 0) where
  All-append : (xs ys : List A) → All P (xs ++ ys) → All P xs
  All-append [] ys h = tt
  All-append (x ∷ xs) ys h = (h.0, All-append xs ys h.1)

Any-map :
    {A : Type 0} (P Q : A → Type 0) (xs : List A) → ((x : A) → P x → Q x) → Any P xs → Any Q xs
Any-map P Q [] f h = h
Any-map P Q (x ∷ xs) f (inl h) = inl (f x h)
Any-map P Q (x ∷ xs) f (inr h) = inr (Any-map P Q xs f h)

-- The setting of one offer: a diary, the service, the resource, the customer, and the clock.
module _ (q : CreateRequest) (l : Lookups) (d : Diary) (date : ℕ) where
  abbrev offer_request : AvailabilityRequest
  offer_request = availability_request q.now date l.service l.resource d

  abbrev hours_request : AvailabilityRequest
  hours_request = working_hours_request d.tenant l.service l.resource l.starts_at

  -- The offer's day and weekday are those that the writer finds at the instant.
  SameDay : Type 0
  SameDay =
      (local_date l.starts_at d.tenant.offset ≡ date)
      × (local_weekday l.starts_at d.tenant.offset ≡ query_weekday date d)

  same_windows : SameDay → working_windows hours_request ≡ working_windows offer_request
  unfolding working_windows availability_request working_hours_request SameDay
  same_windows same = rw same.0 (rw same.1 refl)

  move_window :
      SameDay
      → (t : ℕ) (w : TimeRange) → IsInWindow offer_request t w
      → IsInWindow hours_request t w
  unfolding availability_request working_hours_request SameDay
  move_window same t w i = record {
    minute = i.minute;
    steps = i.steps;
    on_grid = i.on_grid;
    starts_inside = i.starts_inside;
    ends_inside = i.ends_inside;
    at =
        ap (λ x. zoned_time_to_utc x (time_of_day_from_minutes i.minute) d.tenant.offset) same.0
        ∙ i.at;
  }

  hours_request-IsFree :
      SameDay
      → l.starts_at ≤ 400_000 * ms_per_day
      → IsFree offer_request l.starts_at
      → IsFree hours_request l.starts_at
  unfolding availability_request working_hours_request
  hours_request-IsFree same soon free = record {
    not_too_soon = omega arith;
    not_too_far = soon;
    no_collision = tt;
    in_window =
        subst (λ ws. Any (IsInWindow hours_request l.starts_at) ws) (sym (same_windows same))
          (Any-map (IsInWindow offer_request l.starts_at) (IsInWindow hours_request l.starts_at)
            (working_windows offer_request) (move_window same l.starts_at) free.in_window);
  }

  abbrev block_start : ℕ
  block_start = (new_booking q l d).block_starts_at

  abbrev block_end : ℕ
  block_end = (new_booking q l d).block_ends_at

  Misses-conflicts :
      (bs : List Booking)
      → window_start date ≤ block_start
      → block_end ≤ window_end date
      → All (Misses offer_request l.starts_at) (blocked_by_bookings date l.resource bs)
      → any (conflicts (new_booking q l d)) bs ≡ false
  unfolding blocked_by_bookings new_booking availability_request
  Misses-conflicts [] start end h = refl
  Misses-conflicts (b ∷ bs) start end h = ground (arith, Misses-conflicts bs start end)

  offered-within_working_hours :
      SameDay
      → 1 ≤ offer_request.slot_step_minutes
      → l.starts_at ≤ 400_000 * ms_per_day
      → IsFree offer_request l.starts_at
      → within_working_hours d.tenant l.service l.resource l.starts_at ≡ true
  unfolding within_working_hours availability_request working_hours_request
  offered-within_working_hours same positive soon free =
      (compute_availability_iff hours_request l.starts_at positive).1
        (hours_request-IsFree same soon free)

-- What `getAvailability` offers for a resource can be booked: where an instant is offered, `create` for
-- that resource and service at that moment makes the booking. The conditions: the writer finds the day
-- and the weekday of the query at the instant, the step of the grid is not zero, the block lies inside the
-- window of the query, and the horizon ends within 400,000 days of 1970.
pub offered-create_for :
    (q : CreateRequest) (l : Lookups) (d : Diary) (date : ℕ)
    → local_date l.starts_at d.tenant.offset ≡ date
    → local_weekday l.starts_at d.tenant.offset ≡ query_weekday date d
    → 1 ≤ (booking_settings d.tenant.settings).slot_step_minutes
    → window_start date ≤ (new_booking q l d).block_starts_at
    → (new_booking q l d).block_ends_at ≤ window_end date
    → q.now + (booking_settings d.tenant.settings).max_advance_days * ms_per_day
      ≤ 400_000 * ms_per_day
    → offers
        (compute_availability (availability_request q.now date l.service l.resource d))
        l.starts_at
      ≡ true
    → create_for q l d ≡ ok (write_booking q.now (new_booking q l d) d)
unfolding availability_request create_for SameDay
offered-create_for q l d date same_date same_weekday positive start end horizon offered =
    let r = availability_request q.now date l.service l.resource d in
    let free : IsFree r l.starts_at = (compute_availability_iff r l.starts_at positive).0 offered in
    let soon = free.not_too_soon in
    let far = free.not_too_far in
    let same : SameDay q l d date = (same_date, same_weekday) in
    let hours = offered-within_working_hours q l d date same positive (omega arith) free in
    let apart = Misses-conflicts q l d date d.bookings start end (
      All-append (Misses r l.starts_at) (blocked_by_bookings date l.resource d.bookings)
        (blocked_by_time_off date l.resource d.time_off) free.no_collision) in
    ground (arith, hours, apart)
