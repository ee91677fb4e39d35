-- ===== src/Shared/Money/HandOut.antt =====
-- packages/shared/src/money.ts: the loop of `distributeProportionally` that hands the remainder out.
use muzael.Common.{
  ℕ, zero, suc, ◌+◌, ◌*◌, ◌/◌, ◌%◌, ◌≤◌, ◌<◌, ◌≡◌, refl, List, [], ◌∷◌, map, arith, length, get_or,
  sum_by, sum, All, increment, length-increment, sum-increment, hit, hit-le, hit-ne, ap, ◌∙◌,
  get_or-increment, if◌then◌else◌, ◌==◌,
}
use native.Mathlib.Nat.{div-add-mod}
use muzael.Shared.Money.{Entry, entries_from, hand_out}
use native.Mathlib.Decide.{dec_lt}
use muzael.Shared.Money.Order.{All-le_trans, Descending}

abbrev pub fractions : List Entry → ℕ
fractions = sum_by (λ e. e.frac)

-- Rounding down and what it drops account for the whole total.
pub floored_fractions :
    (k total weight_sum : ℕ) (ws : List ℕ)
    → weight_sum * sum (map (λ w. (total * w) / weight_sum) ws)
        + fractions (entries_from k total weight_sum ws)
      ≡ total * sum ws
unfolding entries_from
floored_fractions k total weight_sum [] = omega arith
floored_fractions k total weight_sum (w ∷ ws) =
    omega (arith, floored_fractions (suc k) total weight_sum ws, div-add-mod (total * w) weight_sum)

-- What an entry may still add at `j`: one unit, if its fraction is positive.
abbrev pub pending : ℕ → Entry → ℕ
pending j e = if e.frac == 0 then 0 else hit e.i j

fractions_of_zero : (es : List Entry) → All (λ y. y.frac ≤ 0) es → fractions es ≡ 0
fractions_of_zero [] h = refl
fractions_of_zero (e ∷ es) (p, h) = omega (arith, fractions_of_zero es h)

-- While units are left, the next entry has a positive fraction.
next_positive :
    (weight_sum remainder : ℕ) (e : Entry) (es : List Entry)
    → 0 < weight_sum
    → Descending (e ∷ es)
    → suc remainder * weight_sum ≤ fractions (e ∷ es)
    → 0 < e.frac
next_positive weight_sum remainder e es pos (h, d) enough = elim (dec_lt 0 e.frac) [
  | yes p ↦ p
  | no p ↦ absurd (omega (arith, fractions_of_zero es (All-le_trans e.frac 0 es (omega arith) h)))
]

abbrev pub Bounds : ℕ → ℕ → Entry → Type 0
Bounds weight_sum n e = (e.frac < weight_sum) × (e.i < n)

Bounds-increment :
    (weight_sum : ℕ) (result : List ℕ) (i : ℕ) (es : List Entry)
    → All (Bounds weight_sum (length result)) es
    → All (Bounds weight_sum (length (increment result i))) es
Bounds-increment weight_sum result i es h = rw (length-increment result i) h

-- The remainder is handed out in full.
pub sum-hand_out :
    (weight_sum remainder : ℕ) (es : List Entry) (result : List ℕ)
    → 0 < weight_sum
    → All (Bounds weight_sum (length result)) es
    → remainder * weight_sum ≤ fractions es
    → sum (hand_out es remainder result) ≡ sum result + remainder
unfolding hand_out
sum-hand_out weight_sum zero [] result pos b enough = omega arith
sum-hand_out weight_sum (suc remainder) [] result pos b enough = absurd (omega arith)
sum-hand_out weight_sum zero (e ∷ es) result pos b enough = omega arith
sum-hand_out weight_sum (suc remainder) (e ∷ es) result pos ((f, i), b) enough = omega (
  arith,
  sum-hand_out weight_sum remainder es (increment result e.i) pos
      (Bounds-increment weight_sum result e.i es b) (omega arith),
  sum-increment result e.i i,
)

-- No part passes its weight: only entries with a positive fraction are raised, each once.
pub hand_out-le :
    (weight_sum remainder : ℕ) (es : List Entry) (result ws : List ℕ)
    → 0 < weight_sum
    → Descending es
    → All (Bounds weight_sum (length result)) es
    → remainder * weight_sum ≤ fractions es
    → ((j : ℕ) → get_or result j 0 + sum_by (pending j) es ≤ get_or ws j 0)
    → (j : ℕ) → get_or (hand_out es remainder result) j 0 ≤ get_or ws j 0
unfolding hand_out
hand_out-le weight_sum remainder [] result ws pos d b enough room j = omega (arith, room j)
hand_out-le weight_sum zero (e ∷ es) result ws pos d b enough room j = omega (arith, room j)
hand_out-le weight_sum (suc remainder) (e ∷ es) result ws pos d ((f, i), b) enough room j =
    let positive = next_positive weight_sum remainder e es pos d enough in
    hand_out-le weight_sum remainder es (increment result e.i) ws pos d.1
      (Bounds-increment weight_sum result e.i es b) (omega arith)
      (λ k. ground (arith, room k, get_or-increment result e.i k i)) j

pub mul_reflects-le : (k a b : ℕ) → 0 < k → k * a ≤ k * b → a ≤ b
mul_reflects-le k a b pos h = grind arith

mul_reflects-lt : (k a b : ℕ) → k * a < k * b → a < b
mul_reflects-lt k a b h = grind arith

-- Rounding up stays within the weight, so a first entry for each index has room.
div-pending :
    (total weight_sum w : ℕ)
    → 0 < weight_sum
    → total ≤ weight_sum
    → (total * w) / weight_sum + (if (total * w) % weight_sum == 0 then 0 else 1) ≤ w
div-pending total weight_sum w pos le =
    let fits : total * w ≤ weight_sum * w = grind arith in
    let exact = div-add-mod (total * w) weight_sum in
    ground (
      arith,
      mul_reflects-le weight_sum ((total * w) / weight_sum) w pos (omega arith),
      mul_reflects-lt weight_sum ((total * w) / weight_sum) w,
      fits,
      exact,
    )

pending-elsewhere :
    (k j total weight_sum : ℕ) (ws : List ℕ)
    → j < k
    → sum_by (pending j) (entries_from k total weight_sum ws) ≡ 0
unfolding entries_from
pending-elsewhere k j total weight_sum [] h = refl
pending-elsewhere k j total weight_sum (w ∷ ws) h =
    ground (arith, pending-elsewhere (suc k) j total weight_sum ws, hit-ne k j)

pub floored_room :
    (k total weight_sum : ℕ) (ws : List ℕ)
    → 0 < weight_sum
    → total ≤ weight_sum
    → (j : ℕ)
    → get_or (map (λ w. (total * w) / weight_sum) ws) j 0
        + sum_by (pending (k + j)) (entries_from k total weight_sum ws)
      ≤ get_or ws j 0
unfolding entries_from
floored_room k total weight_sum [] pos le j = omega arith
floored_room k total weight_sum (w ∷ ws) pos le zero = ground (
  arith,
  div-pending total weight_sum w pos le,
  pending-elsewhere (suc k) (k + 0) total weight_sum ws,
  hit-le k (k + 0),
)
floored_room k total weight_sum (w ∷ ws) pos le (suc j) = ground (
  arith,
  floored_room (suc k) total weight_sum ws pos le j,
  hit-ne k (k + suc j),
  ap (λ n. sum_by (pending n) (entries_from (suc k) total weight_sum ws))
      (let e : k + suc j ≡ suc k + j = omega arith in e),
)

pub length-hand_out :
    (es : List Entry) (remainder : ℕ) (result : List ℕ)
    → length (hand_out es remainder result) ≡ length result
unfolding hand_out
length-hand_out [] remainder result = refl
length-hand_out (e ∷ es) zero result = refl
length-hand_out (e ∷ es) (suc remainder) result =
    length-hand_out es remainder (increment result e.i) ∙ length-increment result e.i
