-- ===== src/Bookings/Availability/Grid.antt =====
-- apps/api/src/modules/bookings/availability.engine.ts: the loop over the grid of one window.
use muzael.Common.{
  ℕ, zero, suc, ◌+◌, ◌*◌, ◌<◌, ◌≤◌, ◌≡◌, subst, ◌⊎◌, inl, inr, Bool, true, List, arith, any, ◌==◌,
  Bool-cases,
}
use muzael.Bookings.Availability.{
  AvailabilityRequest, AvailableSlot, buffer_before, buffer_after, slot_at, is_bookable, grid,
}

abbrev pub offers : List AvailableSlot → ℕ → Bool
offers slots t = any (λ s. s.starts_at == t) slots

-- The loop's own view of one window.
pub record Fits (r : AvailabilityRequest) (first last m t : ℕ) : Type 0 where
  pub starts_inside : first + buffer_before r ≤ m
  pub ends_inside : m + r.service_duration_minutes + buffer_after r ≤ last
  pub at : (slot_at r m).starts_at ≡ t
  pub bookable : is_bookable r (slot_at r m) ≡ true

later_start :
    (r : AvailabilityRequest) (first last m step k t : ℕ)
    → Fits r first last (m + suc k * step) t
    → Fits r first last (m + step + k * step) t
later_start r first last m step k t f =
    let same : m + suc k * step ≡ m + step + k * step = omega arith in
    subst (λ x. Fits r first last x t) same f

first_start :
    (r : AvailabilityRequest) (first last m step t : ℕ)
    → Fits r first last (m + 0 * step) t
    → Fits r first last m t
first_start r first last m step t f =
    let same : m + 0 * step ≡ m = omega arith in subst (λ x. Fits r first last x t) same f

-- Enough fuel finds every start that fits.
pub grid_complete :
    (fuel k : ℕ) (r : AvailabilityRequest) (first last m t : ℕ)
    → 1 ≤ r.slot_step_minutes
    → last < m + fuel
    → Fits r first last (m + k * r.slot_step_minutes) t
    → offers (grid fuel r first last m) t ≡ true
unfolding grid
grid_complete zero k r first last m t positive enough f =
    let inside = f.ends_inside in absurd (omega arith)
grid_complete (suc fuel) zero r first last m t positive enough f =
    let fits = first_start r first last m r.slot_step_minutes t f in
    let starts = fits.starts_inside in
    let ends = fits.ends_inside in let at = fits.at in let free = fits.bookable in ground arith
grid_complete (suc fuel) (suc k) r first last m t positive enough f =
    let fits = later_start r first last m r.slot_step_minutes k t f in
    let ends = fits.ends_inside in
    let ih =
      grid_complete fuel k r first last (m + r.slot_step_minutes) t positive (omega arith) fits in
    ground (arith, ih)

-- An offer of the loop is this start or one of the rest.
grid_step :
    (fuel : ℕ) (r : AvailabilityRequest) (first last m t : ℕ)
    → offers (grid (suc fuel) r first last m) t ≡ true
    → (offers (grid fuel r first last (m + r.slot_step_minutes)) t ≡ true) ⊎ Fits r first last m t
unfolding grid
grid_step fuel r first last m t h =
    elim (Bool-cases (offers (grid fuel r first last (m + r.slot_step_minutes)) t)) [
      | inl later ↦ inl later
      | inr not_later ↦ inr (record {
        starts_inside = ground arith;
        ends_inside = ground arith;
        at = ground arith;
        bookable = ground arith;
      })
    ]

-- The start behind an offer.
pub grid_sound :
    (fuel : ℕ) (r : AvailabilityRequest) (first last m t : ℕ)
    → offers (grid fuel r first last m) t ≡ true
    → (k : ℕ) × Fits r first last (m + k * r.slot_step_minutes) t
unfolding grid
grid_sound zero r first last m t h = cc
grid_sound (suc fuel) r first last m t h = elim (grid_step fuel r first last m t h) [
  | inl later ↦
      let found = grid_sound fuel r first last (m + r.slot_step_minutes) t later in
      let same : m + r.slot_step_minutes + found.0 * r.slot_step_minutes
          ≡ m + suc found.0 * r.slot_step_minutes =
        omega arith in
      (suc found.0, subst (λ x. Fits r first last x t) same found.1)
  | inr fits ↦
      let same : m ≡ m + 0 * r.slot_step_minutes = omega arith in
      (0, subst (λ x. Fits r first last x t) same fits)
]
