-- ===== src/Cart/Selections.antt =====
-- apps/api/src/modules/cart/cart.service.ts: sets of modifier options. Option ids are numbers, in the
-- order of their texts.
pub mod Same
mod Tests
use muzael.Common.{
  ℕ, Bool, true, false, not, ◌&&◌, ◌||◌, List, [], ◌∷◌, any, all, sum_by, contains, sort_by, length,
  leb, ltb, ◌==◌, if◌then◌else◌,
}

-- `sortedA.every((v, i) => v === sortedB[i])`, for arrays of one length.
unfoldable pub every_same : List ℕ → List ℕ → Bool
every_same [] ys = true
every_same (x ∷ xs) [] = false
every_same (x ∷ xs) (y ∷ ys) = x == y && every_same xs ys

unfoldable pub same_modifier_set : List ℕ → List ℕ → Bool
same_modifier_set xs ys =
    if length xs == length ys then every_same (sort_by (λ x. x) xs) (sort_by (λ y. y) ys) else false

pub record ModifierGroup : Type 0 where
  pub id : ℕ
  pub min_select : ℕ
  pub max_select : ℕ
  pub options : List ℕ

-- How many of the group's options are in the set of the selected ids.
abbrev pub chosen : List ℕ → List ℕ → ℕ
chosen options selected = sum_by (λ o. if contains selected o then 1 else 0) options

abbrev pub is_known : List ModifierGroup → ℕ → Bool
is_known groups id = any (λ g. contains g.options id) groups

abbrev pub within_limits : List ℕ → ModifierGroup → Bool
within_limits selected g =
    leb g.min_select (chosen g.options selected) && leb (chosen g.options selected) g.max_select

-- `assertModifierSelection` does not throw.
abbrev pub is_valid_selection : List ModifierGroup → List ℕ → Bool
is_valid_selection groups selected =
    all (is_known groups) selected && all (within_limits selected) groups
