-- ===== src/Bookings/Settings.antt =====
-- apps/api/src/modules/bookings/bookings.service.ts: a tenant's settings for bookings, and the rows that
-- a booking refers to. A name stands for its place in the database's order of names.
use muzael.Common.{ℕ, Bool, true, Option, none, some, List, [], ◌∷◌}
use muzael.Common.Int.{ℤ}
use muzael.Bookings.Availability.{ScheduleWindow, DayHours}

pub record BookingSettings : Type 0 where
  pub slot_step_minutes : ℕ
  pub min_lead_time_minutes : ℕ
  pub max_advance_days : ℕ
  pub auto_confirm : Bool
  pub cancellation_deadline_minutes : ℕ
  pub reminder_offsets_minutes : List ℕ

-- `Partial<BookingSettings>`: what the tenant has stored.
pub record PartialBookingSettings : Type 0 where
  pub slot_step_minutes : Option ℕ
  pub min_lead_time_minutes : Option ℕ
  pub max_advance_days : Option ℕ
  pub auto_confirm : Option Bool
  pub cancellation_deadline_minutes : Option ℕ
  pub reminder_offsets_minutes : Option (List ℕ)

-- `value ?? default`.
abbrev pub or_else {ℓ} : {A : Type ℓ} → Option A → A → A
or_else none default = default
or_else (some value) default = value

abbrev pub booking_settings : PartialBookingSettings → BookingSettings
booking_settings value = record {
  slot_step_minutes = or_else value.slot_step_minutes 15;
  min_lead_time_minutes = or_else value.min_lead_time_minutes 60;
  max_advance_days = or_else value.max_advance_days 30;
  auto_confirm = or_else value.auto_confirm true;
  cancellation_deadline_minutes = or_else value.cancellation_deadline_minutes 120;
  reminder_offsets_minutes = or_else value.reminder_offsets_minutes (1440 ∷ 120 ∷ []);
}

pub record Service : Type 0 where
  pub id : ℕ
  pub is_active : Bool
  pub duration_minutes : ℕ
  pub buffer_before_minutes : ℕ
  pub buffer_after_minutes : ℕ
  pub price : ℕ

-- A person with the services that they perform, or a thing where `employee_id` is missing. The hours of
-- the branch are those of the branch it belongs to.
pub record BookingResource : Type 0 where
  pub id : ℕ
  pub name : ℕ
  pub is_active : Bool
  pub branch_id : Option ℕ
  pub employee_id : Option ℕ
  pub employee_services : List ℕ
  pub buffer_before_minutes : ℕ
  pub buffer_after_minutes : ℕ
  pub schedules : List ScheduleWindow
  pub branch_working_hours : Option (List DayHours)

-- The tenant with its settings. `offset` is the runtime's offset of its time zone at an instant.
pub record Tenant : Type 0 where
  pub offset : ℕ → ℤ
  pub working_hours : Option (List DayHours)
  pub settings : PartialBookingSettings
