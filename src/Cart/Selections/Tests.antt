-- ===== src/Cart/Selections/Tests.antt =====
-- A selection with an option twice, in two orders.
use muzael.Common.{ℕ, ◌≡◌, refl, ◌↔◌, true, false, [], ◌∷◌, sort_by, insert_by}
use muzael.Cart.Selections.{every_same, same_modifier_set}
use muzael.Cart.Selections.Same.{times, same_modifier_set_iff}

order_test : same_modifier_set (3 ∷ 1 ∷ 3 ∷ []) (1 ∷ 3 ∷ 3 ∷ []) ≡ true
unfolding same_modifier_set every_same sort_by insert_by
order_test = refl

times_test : same_modifier_set (3 ∷ 1 ∷ 3 ∷ []) (1 ∷ 1 ∷ 3 ∷ []) ≡ false
unfolding same_modifier_set every_same sort_by insert_by
times_test = refl

same_modifier_set_iff_example :
    (same_modifier_set (3 ∷ 1 ∷ 3 ∷ []) (1 ∷ 3 ∷ 3 ∷ []) ≡ true)
    ↔ ((o : ℕ) → times o (3 ∷ 1 ∷ 3 ∷ []) ≡ times o (1 ∷ 3 ∷ 3 ∷ []))
same_modifier_set_iff_example = same_modifier_set_iff (3 ∷ 1 ∷ 3 ∷ []) (1 ∷ 3 ∷ 3 ∷ [])
