-- ===== src/Shared/Time.antt =====
-- packages/shared/src/time.ts: times of day, ranges of them, and instants. A time of day is the pair of
-- numbers that its text "HH:mm" holds; texts for which the source throws have no counterpart. An instant
-- is a number of milliseconds since 1970, and a calendar date is the instant of its midnight in UTC. The
-- runtime's offset of a time zone at an instant is a parameter, in minutes east of UTC.
pub mod Zones
mod Tests
use muzael.Common.{ℕ, ◌+◌, ◌-◌, ◌*◌, ◌/◌, ◌%◌, Bool, ◌&&◌, ltb}
use muzael.Common.Int.{ℤ, pos_part, neg_part}

pub record TimeOfDay : Type 0 where
  pub hour : ℕ
  pub minute : ℕ

pub record TimeRange : Type 0 where
  pub start : TimeOfDay
  pub end : TimeOfDay

unfoldable pub minutes_from_time_of_day : TimeOfDay → ℕ
minutes_from_time_of_day t = t.hour * 60 + t.minute

unfoldable pub time_of_day_from_minutes : ℕ → TimeOfDay
time_of_day_from_minutes minutes = record {
  hour = (minutes % 1440) / 60;
  minute = (minutes % 1440) % 60;
}

abbrev pub ms_per_minute : ℕ
ms_per_minute = 60_000

abbrev pub ms_per_day : ℕ
ms_per_day = 86_400_000

-- `new Date(instant.getTime() + offset * 60000)`, and the same with a minus.
abbrev pub plus_offset : ℕ → ℤ → ℕ
plus_offset instant offset =
    instant + pos_part offset * ms_per_minute - neg_part offset * ms_per_minute

abbrev pub minus_offset : ℕ → ℤ → ℕ
minus_offset instant offset =
    instant + neg_part offset * ms_per_minute - pos_part offset * ms_per_minute

-- `getUTCDay`: the first of January 1970 was a Thursday.
abbrev pub utc_day : ℕ → ℕ
utc_day instant = (instant / ms_per_day + 4) % 7

unfoldable pub local_date : ℕ → (ℕ → ℤ) → ℕ
local_date instant offset =
    let local = plus_offset instant (offset instant) in (local / ms_per_day) * ms_per_day

unfoldable pub local_weekday : ℕ → (ℕ → ℤ) → ℕ
local_weekday instant offset = utc_day (plus_offset instant (offset instant))

-- The two passes of `zonedTimeToUtc`.
abbrev pub first_guess : ℕ → (ℕ → ℤ) → ℕ
first_guess naive offset = minus_offset naive (offset naive)

abbrev pub settled : ℕ → (ℕ → ℤ) → ℕ
settled naive offset = minus_offset naive (offset (first_guess naive offset))

unfoldable pub zoned_time_to_utc : ℕ → TimeOfDay → (ℕ → ℤ) → ℕ
zoned_time_to_utc date time offset =
    settled (date + minutes_from_time_of_day time * ms_per_minute) offset

abbrev pub ranges_overlap : ℕ → ℕ → ℕ → ℕ → Bool
ranges_overlap a_start a_end b_start b_end = ltb a_start b_end && ltb b_start a_end
