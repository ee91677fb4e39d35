-- ===== src/Shared/Money.antt =====
-- packages/shared/src/money.ts: percentages, and the largest-remainder split of a discount.
-- Amounts are non-negative integers in minor units. The source divides in doubles; the model
-- divides exactly, so the two agree while the products stay below 2^53.
mod Order
mod HandOut
pub mod Split
use muzael.Common.{
  ℕ, zero, suc, ◌+◌, ◌-◌, ◌*◌, ◌/◌, ◌%◌, Bool, ◌||◌, ◌&&◌, List, [], ◌∷◌, map, ltb, leb, ◌==◌,
  if◌then◌else◌, sum, increment,
}

-- `Math.round((amount * percent) / 100)`: half rounds up.
unfoldable pub apply_percentage : ℕ → ℕ → ℕ
apply_percentage amount percent = (amount * percent + 50) / 100

-- An entry of `order`: an index and the fraction that rounding down drops, over `weightSum`.
pub record Entry : Type 0 where
  pub i : ℕ
  pub frac : ℕ

-- The comparator `b.frac - a.frac || a.i - b.i`, as "a stands before b".
abbrev pub before : Entry → Entry → Bool
before a b = ltb b.frac a.frac || (b.frac == a.frac && leb a.i b.i)

unfoldable pub insert_entry : Entry → List Entry → List Entry
insert_entry e [] = e ∷ []
insert_entry e (x ∷ xs) = if before e x then e ∷ x ∷ xs else x ∷ insert_entry e xs

-- `sort`: the comparator is a total order, so its result is the one sorted permutation.
unfoldable pub sort_entries : List Entry → List Entry
sort_entries [] = []
sort_entries (e ∷ es) = insert_entry e (sort_entries es)

-- `exact.map((v, i) => ({ i, frac: v - Math.floor(v) }))`, counting from an index.
unfoldable pub entries_from : ℕ → ℕ → ℕ → List ℕ → List Entry
entries_from k total weight_sum [] = []
entries_from k total weight_sum (w ∷ ws) =
    record { i = k; frac = (total * w) % weight_sum } ∷ entries_from (suc k) total weight_sum ws

-- The loop that hands the remainder out, one unit an entry.
unfoldable pub hand_out : List Entry → ℕ → List ℕ → List ℕ
hand_out [] remainder result = result
hand_out (e ∷ es) zero result = result
hand_out (e ∷ es) (suc remainder) result = hand_out es remainder (increment result e.i)

unfoldable pub distribute_proportionally : ℕ → List ℕ → List ℕ
unfolding entries_from sort_entries insert_entry hand_out
distribute_proportionally total weights =
    let weight_sum = sum weights in
    let floored = map (λ w. (total * w) / weight_sum) weights in
    if weight_sum == 0 || total == 0
    then map (λ _. 0) weights
    else hand_out (sort_entries (entries_from 0 total weight_sum weights)) (total - sum floored)
        floored
