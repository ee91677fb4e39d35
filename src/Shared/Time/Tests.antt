-- ===== src/Shared/Time/Tests.antt =====
-- Dates and times in Tashkent, five hours east of UTC.
use muzael.Common.{ℕ, ◌*◌, ◌≡◌, refl}
use muzael.Common.Int.{ℤ, pos}
use muzael.Shared.Time.{
  TimeOfDay, minutes_from_time_of_day, zoned_time_to_utc, local_date, local_weekday, ms_per_day,
}

abbrev tashkent : ℕ → ℤ
tashkent instant = pos 300

-- The 6th of January 2025, a Monday.
abbrev monday : ℕ
monday = 20094 * ms_per_day

abbrev half_past_two : TimeOfDay
half_past_two = record { hour = 14; minute = 30 }

weekday_test : local_weekday monday tashkent ≡ 1
unfolding local_weekday
weekday_test = refl

date_test : local_date (zoned_time_to_utc monday half_past_two tashkent) tashkent ≡ monday
unfolding local_date zoned_time_to_utc minutes_from_time_of_day
date_test = refl
