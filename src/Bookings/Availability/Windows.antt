-- ===== src/Bookings/Availability/Windows.antt =====
-- apps/api/src/modules/bookings/availability.engine.ts: which minutes of the day an intersection covers.
use muzael.Common.{
  ℕ, ◌<◌, ◌≡◌, refl, ◌∙◌, min, max, Bool, ◌&&◌, List, [], ◌∷◌, arith, any, any-append, any-sort_by,
  All, ltb, leb,
}
use muzael.Shared.Time.{TimeRange, minutes_from_time_of_day, time_of_day_from_minutes}
use muzael.Shared.Time.Zones.{minutes-time_of_day}
use muzael.Bookings.Availability.{
  start_minute, end_minute, intersect_range, intersect_all, intersect_ranges,
}

-- The minute lies in the range.
abbrev pub holds_minute : ℕ → TimeRange → Bool
holds_minute m r = leb (start_minute r) m && ltb m (end_minute r)

-- Some range holds the minute.
abbrev pub covers : List TimeRange → ℕ → Bool
covers rs m = any (holds_minute m) rs

below_day : (n : ℕ) → n < 1440 → minutes_from_time_of_day (time_of_day_from_minutes n) ≡ n
below_day n h = omega (arith, minutes-time_of_day n)

intersect_range-covers :
    (a : TimeRange) (bs : List TimeRange) (m : ℕ)
    → end_minute a < 1440
    → covers (intersect_range a bs) m ≡ (holds_minute m a && covers bs m)
unfolding intersect_range
intersect_range-covers a [] m h = ground arith
intersect_range-covers a (b ∷ bs) m h = ground (
  arith,
  intersect_range-covers a bs m h,
  minutes-time_of_day (max (start_minute a) (start_minute b)),
  minutes-time_of_day (min (end_minute a) (end_minute b)),
)

intersect_all-covers :
    (xs bs : List TimeRange) (m : ℕ)
    → All (λ a. end_minute a < 1440) xs
    → covers (intersect_all xs bs) m ≡ (covers xs m && covers bs m)
unfolding intersect_all
intersect_all-covers [] bs m h = refl
intersect_all-covers (a ∷ xs) bs m h =
    any-append (holds_minute m) (intersect_range a bs) (intersect_all xs bs)
    ∙ ground (arith, intersect_range-covers a bs m h.0, intersect_all-covers xs bs m h.1)

-- Where no range of the first list ends at midnight or later, the intersection of two lists covers a
-- minute exactly when both lists do.
pub intersect_ranges-covers :
    (xs bs : List TimeRange) (m : ℕ)
    → All (λ a. end_minute a < 1440) xs
    → covers (intersect_ranges xs bs) m ≡ (covers xs m && covers bs m)
unfolding intersect_ranges
intersect_ranges-covers xs bs m h =
    any-sort_by (holds_minute m) start_minute (intersect_all xs bs) ∙ intersect_all-covers xs bs m h
