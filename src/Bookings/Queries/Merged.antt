-- ===== src/Bookings/Queries/Merged.antt =====
-- apps/api/src/modules/bookings/bookings.service.ts: what `mergeSlots` lists.
use muzael.Common.{
  ℕ, ◌≡◌, ◌∙◌, Bool, ◌&&◌, ◌||◌, List, [], ◌∷◌, arith, any, any-append, any-sort_by, contains, ◌==◌,
}
use muzael.Bookings.Availability.{AvailableSlot}
use muzael.Bookings.Availability.Grid.{offers}
use muzael.Bookings.Queries.{
  ResourceSlots, MergedSlot, add_slot, add_slots, add_resources, merge_slots,
}

-- The resource is listed at the instant.
abbrev pub lists : ℕ → ℕ → List MergedSlot → Bool
lists id t ms = any (λ m. m.starts_at == t && contains m.resource_ids id) ms

lists-add_slot :
    (other id t : ℕ) (s : AvailableSlot) (ms : List MergedSlot)
    → lists id t (add_slot other s ms) ≡ (lists id t ms || (other == id && s.starts_at == t))
unfolding add_slot
lists-add_slot other id t s [] = ground arith
lists-add_slot other id t s (m ∷ ms) =
    ground
      (arith, lists-add_slot other id t s ms, any-append (λ x. x == id) m.resource_ids (other ∷ []))

lists-add_slots :
    (other id t : ℕ) (ss : List AvailableSlot) (ms : List MergedSlot)
    → lists id t (add_slots other ss ms) ≡ (lists id t ms || (other == id && offers ss t))
unfolding add_slots
lists-add_slots other id t [] ms = ground arith
lists-add_slots other id t (s ∷ ss) ms =
    ground
      (arith, lists-add_slots other id t ss (add_slot other s ms), lists-add_slot other id t s ms)

lists-add_resources :
    (id t : ℕ) (es : List ResourceSlots) (ms : List MergedSlot)
    → lists id t (add_resources es ms)
      ≡ (lists id t ms || any (λ e. e.resource_id == id && offers e.slots t) es)
unfolding add_resources
lists-add_resources id t [] ms = ground arith
lists-add_resources id t (e ∷ es) ms = ground (
  arith,
  lists-add_resources id t es (add_slots e.resource_id e.slots ms),
  lists-add_slots e.resource_id id t e.slots ms,
)

-- The merged view lists a resource at an instant exactly when one of the entries of that resource offers
-- the instant.
pub merge_slots-lists :
    (id t : ℕ) (es : List ResourceSlots)
    → lists id t (merge_slots es) ≡ any (λ e. e.resource_id == id && offers e.slots t) es
unfolding merge_slots
merge_slots-lists id t es =
    any-sort_by (λ m. m.starts_at == t && contains m.resource_ids id) (λ m. m.starts_at)
      (add_resources es [])
    ∙ lists-add_resources id t es []
