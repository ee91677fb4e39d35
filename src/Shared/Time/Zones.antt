-- ===== src/Shared/Time/Zones.antt =====
-- packages/shared/src/time.ts: times of day and minutes of the day.
use muzael.Common.{ℕ, ◌%◌, ◌≡◌, arith}
use muzael.Shared.Time.{minutes_from_time_of_day, time_of_day_from_minutes}

-- A minute of the day survives being written as "HH:mm" and read again; midnight at the end of the day
-- and anything later do not.
pub minutes-time_of_day :
    (minutes : ℕ) → minutes_from_time_of_day (time_of_day_from_minutes minutes) ≡ minutes % 1440
unfolding minutes_from_time_of_day time_of_day_from_minutes
minutes-time_of_day minutes = omega arith
