-- ===== src/Shared/Money/Split.antt =====
-- packages/shared/src/money.ts: `distributeProportionally` as a whole.
use muzael.Common.{
  ℕ, zero, suc, ◌+◌, ◌-◌, ◌*◌, ◌/◌, ◌≤◌, ◌<◌, ◌≡◌, refl, List, [], ◌∷◌, map, arith, length, get_or,
  sum_by, sum, All, length-map, ◌==◌, ◌||◌, Bool-cases, inl, inr, ◌∙◌,
}
use native.Mathlib.Nat.{zero-add}
use muzael.Shared.Money.{sort_entries, entries_from, distribute_proportionally}
use muzael.Shared.Money.Order.{
  sum_by-sort_entries, All-sort_entries, Descending-sort_entries, entries_from-bounds,
}
use muzael.Shared.Money.HandOut.{
  fractions, pending, floored_fractions, Bounds, sum-hand_out, hand_out-le, floored_room,
  length-hand_out, mul_reflects-le,
}

abbrev zeros : List ℕ → List ℕ
zeros ws = map (λ _. 0) ws

sum-zeros : (ws : List ℕ) → sum (zeros ws) ≡ 0
sum-zeros [] = refl
sum-zeros (w ∷ ws) = omega (arith, sum-zeros ws)

get_or-zeros : (ws : List ℕ) (j : ℕ) → get_or (zeros ws) j 0 ≡ 0
get_or-zeros [] j = refl
get_or-zeros (w ∷ ws) zero = refl
get_or-zeros (w ∷ ws) (suc j) = get_or-zeros ws j

abbrev floored : ℕ → List ℕ → List ℕ
floored total ws = map (λ w. (total * w) / sum ws) ws

bounds :
    (total : ℕ) (ws : List ℕ)
    → 0 < sum ws
    → All
        (Bounds (sum ws) (length (floored total ws)))
        (sort_entries (entries_from 0 total (sum ws) ws))
bounds total ws pos = rw (length-map (λ w. (total * w) / sum ws) ws) (
    All-sort_entries (Bounds (sum ws) (length ws)) _
      (rw zero-add at (entries_from-bounds 0 total (sum ws) ws pos)))

room :
    (total : ℕ) (ws : List ℕ)
    → 0 < sum ws
    → total ≤ sum ws
    → (j : ℕ)
    → get_or (floored total ws) j 0
        + sum_by (pending j) (sort_entries (entries_from 0 total (sum ws) ws))
      ≤ get_or ws j 0
room total ws pos le j =
    rw (sum_by-sort_entries (pending j) (entries_from 0 total (sum ws) ws))
      (rw zero-add at (floored_room 0 total (sum ws) ws pos le j))

-- The remainder is what the dropped fractions amount to.
remainder-fractions :
    (total : ℕ) (ws : List ℕ)
    → 0 < sum ws
    → let floored = map (λ w. (total * w) / sum ws) ws in
      (sum floored ≤ total)
      × ((total - sum floored) * sum ws
          ≤ fractions (sort_entries (entries_from 0 total (sum ws) ws)))
remainder-fractions total ws pos =
    let accounted = floored_fractions 0 total (sum ws) ws in
    let same = sum_by-sort_entries (λ e. e.frac) (entries_from 0 total (sum ws) ws) in
    let fits : sum (map (λ w. (total * w) / sum ws) ws) ≤ total =
      mul_reflects-le (sum ws) _ total pos (omega arith) in
    (fits, grind (arith, accounted, same, fits))

pub sum-distribute_proportionally :
    (total : ℕ) (weights : List ℕ)
    → (sum weights ≡ 0 → total ≡ 0)
    → sum (distribute_proportionally total weights) ≡ total
unfolding distribute_proportionally
sum-distribute_proportionally total weights weighed =
    elim (Bool-cases (sum weights == 0 || total == 0)) [
      | inl trivial ↦ rw trivial (ground (arith, sum-zeros weights))
      | inr proper ↦
          let pos : 0 < sum weights = ground arith in
          let (fits, enough) = remainder-fractions total weights pos in
          rw proper
            (omega (arith, sum-hand_out (sum weights) _ _ _ pos (bounds total weights pos) enough))
    ]

pub distribute_proportionally-le :
    (total : ℕ) (weights : List ℕ)
    → total ≤ sum weights
    → (j : ℕ) → get_or (distribute_proportionally total weights) j 0 ≤ get_or weights j 0
unfolding distribute_proportionally
distribute_proportionally-le total weights le j =
    elim (Bool-cases (sum weights == 0 || total == 0)) [
      | inl trivial ↦ rw trivial (omega (arith, get_or-zeros weights j))
      | inr proper ↦
          let pos : 0 < sum weights = ground arith in
          let (fits, enough) = remainder-fractions total weights pos in
          rw proper (
            hand_out-le (sum weights) _ _ _ weights pos
              (Descending-sort_entries (entries_from 0 total (sum weights) weights))
              (bounds total weights pos) enough (room total weights pos le) j)
    ]

-- There is one part for each weight.
pub length-distribute_proportionally :
    (total : ℕ) (weights : List ℕ)
    → length (distribute_proportionally total weights) ≡ length weights
unfolding distribute_proportionally
length-distribute_proportionally total weights =
    elim (Bool-cases (sum weights == 0 || total == 0)) [
      | inl trivial ↦ rw trivial (length-map (λ _. 0) weights)
      | inr proper ↦ rw proper (
          length-hand_out (sort_entries (entries_from 0 total (sum weights) weights))
            (total - sum (floored total weights)) (floored total weights)
          ∙ length-map (λ w. (total * w) / sum weights) weights)
    ]
