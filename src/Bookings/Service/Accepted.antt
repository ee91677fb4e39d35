-- ===== src/Bookings/Service/Accepted.antt =====
-- apps/api/src/modules/bookings/bookings.service.ts: what a request came through when a booking is made.
use muzael.Common.{◌+◌, ◌*◌, ◌≤◌, ◌≡◌, true, false, not, arith, any, ltb}
use muzael.Shared.Errors.{
  Result, ok, ◌>>=◌, throw_if, throw_if-eq-ok, booking_too_soon, booking_too_far,
  booking_outside_working_hours, booking_slot_taken,
}
use muzael.Shared.Time.{ms_per_minute, ms_per_day}
use muzael.Bookings.Settings.{booking_settings}
use muzael.Bookings.Service.{Diary, CreateRequest}
use muzael.Bookings.Service.Create.{
  Lookups, within_working_hours, new_booking, conflicts, write_booking, create_for,
}

-- The four checks passed, and the rest is the writes.
pub record IsAccepted (q : CreateRequest) (l : Lookups) (d after : Diary) : Type 0 where
  pub not_too_soon :
      q.now + (booking_settings d.tenant.settings).min_lead_time_minutes * ms_per_minute
      ≤ l.starts_at
  pub not_too_far :
      l.starts_at ≤ q.now + (booking_settings d.tenant.settings).max_advance_days * ms_per_day
  pub in_hours : within_working_hours d.tenant l.service l.resource l.starts_at ≡ true
  pub no_conflict : any (conflicts (new_booking q l d)) d.bookings ≡ false
  pub written : write_booking q.now (new_booking q l d) d ≡ after

pub create_for-IsAccepted :
    (q : CreateRequest) (l : Lookups) (d after : Diary)
    → create_for q l d ≡ ok after
    → IsAccepted q l d after
unfolding create_for
create_for-IsAccepted q l d after h =
    let settings = booking_settings d.tenant.settings in
    let b = new_booking q l d in
    let end : Result Diary = ok (write_booking q.now b d) in
    let taken : Result Diary =
      throw_if (any (conflicts b) d.bookings) booking_slot_taken >>= λ _. end in
    let hours : Result Diary =
      throw_if (not (within_working_hours d.tenant l.service l.resource l.starts_at))
        booking_outside_working_hours
      >>= λ _. taken in
    let horizon : Result Diary =
      throw_if (ltb (q.now + settings.max_advance_days * ms_per_day) l.starts_at) booking_too_far
      >>= λ _. hours in
    let soon =
      throw_if-eq-ok (ltb l.starts_at (q.now + settings.min_lead_time_minutes * ms_per_minute))
        booking_too_soon horizon h in
    let far =
      throw_if-eq-ok (ltb (q.now + settings.max_advance_days * ms_per_day) l.starts_at)
        booking_too_far hours soon.1 in
    let outside =
      throw_if-eq-ok (not (within_working_hours d.tenant l.service l.resource l.starts_at))
        booking_outside_working_hours taken far.1 in
    let free = throw_if-eq-ok (any (conflicts b) d.bookings) booking_slot_taken end outside.1 in
    let result : ok (write_booking q.now b d) ≡ ok after = free.1 in
    record {
      not_too_soon = ground (arith, soon.0);
      not_too_far = ground (arith, far.0);
      in_hours = ground (arith, outside.0);
      no_conflict = free.0;
      written = cc;
    }
