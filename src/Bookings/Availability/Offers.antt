-- ===== src/Bookings/Availability/Offers.antt =====
-- apps/api/src/modules/bookings/availability.engine.ts: which instants are offered.
use muzael.Common.{
  ℕ, suc, ◌+◌, ◌-◌, ◌*◌, ◌≤◌, ◌≡◌, refl, sym, ◌∙◌, subst, ◌↔◌, ◌⊎◌, inl, inr, true, false, not,
  ◌&&◌, List, [], ◌∷◌, arith, any-append, any-sort_by, All, Any, contains, ◌==◌, Bool-cases,
  Nat-cases,
}
use muzael.Shared.Time.{TimeRange, time_of_day_from_minutes, zoned_time_to_utc, ms_per_minute}
use muzael.Bookings.Availability.{
  BlockedRange, AvailabilityRequest, AvailableSlot, start_minute, end_minute, working_windows,
  buffer_before, buffer_after, earliest_start, latest_start, slot_at, collides, is_bookable,
  window_slots, all_slots, first_of_each, compute_availability,
}
use muzael.Bookings.Availability.Grid.{offers, Fits, grid_complete, grid_sound}

-- The appointment at `t`, buffers included, ends before the blocked range or starts after it.
abbrev pub Misses : AvailabilityRequest → ℕ → BlockedRange → Type 0
Misses r t b =
    (t + r.service_duration_minutes * ms_per_minute + buffer_after r * ms_per_minute ≤ b.starts_at)
    ⊎ (b.ends_at ≤ t - buffer_before r * ms_per_minute)

-- `t` is the instant of a minute on the grid of the window, and the appointment with its buffers lies
-- inside the window.
pub record IsInWindow (r : AvailabilityRequest) (t : ℕ) (w : TimeRange) : Type 0 where
  pub minute : ℕ
  pub steps : ℕ
  pub on_grid : minute ≡ start_minute w + steps * r.slot_step_minutes
  pub starts_inside : start_minute w + buffer_before r ≤ minute
  pub ends_inside : minute + r.service_duration_minutes + buffer_after r ≤ end_minute w
  pub at : zoned_time_to_utc r.date (time_of_day_from_minutes minute) r.offset ≡ t

-- What makes an instant free, without the grid's loop, its fuel and its order.
pub record IsFree (r : AvailabilityRequest) (t : ℕ) : Type 0 where
  pub not_too_soon : earliest_start r ≤ t
  pub not_too_far : t ≤ latest_start r
  pub no_collision : All (Misses r t) r.blocked
  pub in_window : Any (IsInWindow r t) (working_windows r)

-- The declarative conditions on one instant.
record Bookable (r : AvailabilityRequest) (t : ℕ) : Type 0 where
  not_too_soon : earliest_start r ≤ t
  not_too_far : t ≤ latest_start r
  no_collision : All (Misses r t) r.blocked

collides-Misses :
    (r : AvailabilityRequest) (m t : ℕ) (bs : List BlockedRange)
    → (slot_at r m).starts_at ≡ t
    → (collides bs (slot_at r m) ≡ false) ↔ All (Misses r t) bs
unfolding slot_at
collides-Misses r m t [] at = (λ _. tt, λ _. refl)
collides-Misses r m t (b ∷ bs) at = ground (arith, collides-Misses r m t bs at)

is_bookable-Bookable :
    (r : AvailabilityRequest) (m t : ℕ)
    → (slot_at r m).starts_at ≡ t
    → (is_bookable r (slot_at r m) ≡ true) ↔ Bookable r t
is_bookable-Bookable r m t at = ground (arith, collides-Misses r m t r.blocked at)

window_slots_sound :
    (r : AvailabilityRequest) (w : TimeRange) (t : ℕ)
    → offers (window_slots r w) t ≡ true
    → IsInWindow r t w × Bookable r t
unfolding window_slots slot_at
window_slots_sound r w t h =
    let start : ℕ = start_minute w in
    let found = grid_sound (suc (suc (end_minute w) - start)) r start (end_minute w) start t h in
    let minute : ℕ = start + found.0 * r.slot_step_minutes in
    let fits = found.1 in
    (
      record {
        minute = minute;
        steps = found.0;
        on_grid = refl;
        starts_inside = fits.starts_inside;
        ends_inside = fits.ends_inside;
        at = fits.at;
      },
      (is_bookable-Bookable r minute t fits.at).0 fits.bookable,
    )

window_slots_complete :
    (r : AvailabilityRequest) (w : TimeRange) (t : ℕ)
    → 1 ≤ r.slot_step_minutes
    → IsInWindow r t w
    → Bookable r t
    → offers (window_slots r w) t ≡ true
unfolding window_slots slot_at
window_slots_complete r w t positive i free =
    let start : ℕ = start_minute w in
    let fits : Fits r start (end_minute w) i.minute t = record {
      starts_inside = i.starts_inside;
      ends_inside = i.ends_inside;
      at = i.at;
      bookable = (is_bookable-Bookable r i.minute t i.at).1 free;
    } in
    grid_complete (suc (suc (end_minute w) - start)) i.steps r start (end_minute w) start t positive
      (omega arith) (subst (λ x. Fits r start (end_minute w) x t) i.on_grid fits)

all_slots_sound :
    (r : AvailabilityRequest) (ws : List TimeRange) (t : ℕ)
    → offers (all_slots r ws) t ≡ true
    → Any (IsInWindow r t) ws × Bookable r t
unfolding all_slots
all_slots_sound r [] t h = cc
all_slots_sound r (w ∷ ws) t h =
    let parts = sym (any-append (λ s. s.starts_at == t) (window_slots r w) (all_slots r ws)) ∙ h in
    elim (Bool-cases (offers (window_slots r w) t)) [
      | inl here ↦ let found = window_slots_sound r w t here in (inl found.0, found.1)
      | inr not_here ↦ let found = all_slots_sound r ws t (ground arith) in (inr found.0, found.1)
    ]

all_slots_complete :
    (r : AvailabilityRequest) (ws : List TimeRange) (t : ℕ)
    → 1 ≤ r.slot_step_minutes
    → Any (IsInWindow r t) ws
    → Bookable r t
    → offers (all_slots r ws) t ≡ true
unfolding all_slots
all_slots_complete r [] t positive h free = absurd h
all_slots_complete r (w ∷ ws) t positive (inl i) free =
    let found = window_slots_complete r w t positive i free in
    any-append (λ s. s.starts_at == t) (window_slots r w) (all_slots r ws) ∙ ground arith
all_slots_complete r (w ∷ ws) t positive (inr is) free =
    let found = all_slots_complete r ws t positive is free in
    any-append (λ s. s.starts_at == t) (window_slots r w) (all_slots r ws) ∙ ground arith

offers-first_of_each :
    (seen : List ℕ) (slots : List AvailableSlot) (t : ℕ)
    → offers (first_of_each seen slots) t ≡ (offers slots t && not (contains seen t))
unfolding first_of_each
offers-first_of_each seen [] t = refl
offers-first_of_each seen (s ∷ ss) t = elim (Nat-cases s.starts_at t) [
  | inl same ↦
      subst
        (λ u. offers (first_of_each seen (s ∷ ss)) u ≡ (offers (s ∷ ss) u && not (contains seen u)))
        same
        (ground (
          arith,
          offers-first_of_each seen ss s.starts_at,
          offers-first_of_each (s.starts_at ∷ seen) ss s.starts_at,
        ))
  | inr other ↦
      ground (arith, offers-first_of_each seen ss t, offers-first_of_each (s.starts_at ∷ seen) ss t)
]

offers-compute_availability :
    (r : AvailabilityRequest) (t : ℕ)
    → offers (compute_availability r) t ≡ offers (all_slots r (working_windows r)) t
unfolding compute_availability
offers-compute_availability r t =
    any-sort_by (λ s. s.starts_at == t) (λ s. s.starts_at)
      (first_of_each [] (all_slots r (working_windows r)))
    ∙ offers-first_of_each [] (all_slots r (working_windows r)) t
    ∙ ground arith

-- Where the step of the grid is not zero, an instant is offered exactly when it is free: a minute on the
-- grid of a working window, the buffers inside that window, the block clear of everything that is
-- blocked, neither too soon nor too far ahead.
pub compute_availability_iff :
    (r : AvailabilityRequest) (t : ℕ)
    → 1 ≤ r.slot_step_minutes
    → (offers (compute_availability r) t ≡ true) ↔ IsFree r t
compute_availability_iff r t positive = (
  λ h.
      let found =
        all_slots_sound r (working_windows r) t (sym (offers-compute_availability r t) ∙ h) in
      let free = found.1 in
      record {
        not_too_soon = free.not_too_soon;
        not_too_far = free.not_too_far;
        no_collision = free.no_collision;
        in_window = found.0;
      },
  λ f.
      offers-compute_availability r t
      ∙ all_slots_complete r (working_windows r) t positive f.in_window (record {
        not_too_soon = f.not_too_soon;
        not_too_far = f.not_too_far;
        no_collision = f.no_collision;
      }),
)
