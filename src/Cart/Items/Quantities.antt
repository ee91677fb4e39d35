-- ===== src/Cart/Items/Quantities.antt =====
-- apps/api/src/modules/cart/cart.service.ts: how much of a selection a cart holds.
use muzael.Common.{
  ℕ, ◌+◌, ◌≡◌, refl, sym, ◌∙◌, subst, true, not, ◌&&◌, Option, none, some, List, [], ◌∷◌, ◌++◌,
  arith, sum_by, sum_by-append, ltb, ◌==◌, if◌then◌else◌, Bool-cases, Option-cases, inl, inr,
}
use muzael.Shared.Errors.{
  Result, ok, ◌>>=◌, throw_if, >>=-eq-ok, throw_if-eq-ok, product_unavailable,
  modifier_selection_invalid, insufficient_stock, conflict,
}
use muzael.Cart.Selections.{same_modifier_set, is_valid_selection}
use muzael.Cart.Selections.Same.{same_modifier_set_iff}
use muzael.Cart.Items.{
  CartProduct, CartItem, CartRow, AddItemInput, find_product, has_variant, available, same_variant,
  is_same_line, has_duplicate, new_item, merge_item, merge_or_append, assert_stock, add_item,
}

-- The quantity of a product with a variant and options on one line, and in a cart.
abbrev pub on_line : ℕ → Option ℕ → List ℕ → CartItem → ℕ
on_line product variant options item =
    if is_same_line product variant options item then item.quantity else 0

abbrev pub in_cart : ℕ → Option ℕ → List ℕ → List CartItem → ℕ
in_cart product variant options items = sum_by (on_line product variant options) items

-- What an addition adds to a selection.
abbrev pub added : ℕ → Option ℕ → List ℕ → AddItemInput → ℕ
added product variant options input =
    if input.product_id == product
      && same_variant input.variant_id variant
      && same_modifier_set input.modifier_option_ids options
    then input.quantity
    else 0

-- A line of the same selection as the addition counts towards the same selections.
same_modifier_set_swap :
    (xs ys zs : List ℕ)
    → same_modifier_set xs ys ≡ true
    → same_modifier_set xs zs ≡ same_modifier_set ys zs
same_modifier_set_swap xs ys zs h =
    let same = (same_modifier_set_iff xs ys).0 h in
    elim (Bool-cases (same_modifier_set xs zs)) [
      | inl yes_x ↦
          let counts = (same_modifier_set_iff xs zs).0 yes_x in
          yes_x ∙ sym ((same_modifier_set_iff ys zs).1 (λ o. sym (same o) ∙ counts o))
      | inr no_x ↦ elim (Bool-cases (same_modifier_set ys zs)) [
        | inl yes_y ↦
            let counts = (same_modifier_set_iff ys zs).0 yes_y in
            let yes_x = (same_modifier_set_iff xs zs).1 (λ o. same o ∙ counts o) in
            absurd (ground arith)
        | inr no_y ↦ no_x ∙ sym no_y
      ]
    ]

merge_item-in_cart :
    (input : AddItemInput) (product : ℕ) (variant : Option ℕ) (options : List ℕ)
    (items merged : List CartItem)
    → merge_item input items ≡ some merged
    → in_cart product variant options merged
      ≡ in_cart product variant options items + added product variant options input
unfolding merge_item
merge_item-in_cart input product variant options [] merged h = cc
merge_item-in_cart input product variant options (item ∷ items) merged h =
    elim (Bool-cases
      (is_same_line input.product_id input.variant_id input.modifier_option_ids item)) [
        | inl same ↦
            let is_some : some (record item { quantity = item.quantity + input.quantity } ∷ items)
                ≡ some merged =
              ground arith in
            let result : record item { quantity = item.quantity + input.quantity } ∷ items
                ≡ merged =
              cc in
            let options_swap =
              same_modifier_set_swap item.option_ids input.modifier_option_ids options in
            subst
              (λ x.
                in_cart product variant options x
                ≡ in_cart product variant options (item ∷ items)
                  + added product variant options input)
              result (ground (arith, options_swap))
        | inr differ ↦ elim (Option-cases (merge_item input items)) [
          | inl nothing ↦ ground (arith, nothing)
          | inr something ↦
              let ih =
                merge_item-in_cart input product variant options items something.0 something.1 in
              let is_some : some (item ∷ something.0) ≡ some merged = ground (arith, something.1) in
              let result : item ∷ something.0 ≡ merged = cc in
              subst
                (λ x.
                  in_cart product variant options x
                  ≡ in_cart product variant options (item ∷ items)
                    + added product variant options input)
                result (omega (arith, ih))
        ]
      ]

merge_or_append-in_cart :
    (id : ℕ) (input : AddItemInput) (product : ℕ) (variant : Option ℕ) (options : List ℕ)
    (items after : List CartItem) (merged : Option (List CartItem))
    → merge_item input items ≡ merged
    → merge_or_append id input items merged ≡ ok after
    → in_cart product variant options after
      ≡ in_cart product variant options items + added product variant options input
merge_or_append-in_cart id input product variant options items after (some merged) e h =
    let result : merged ≡ after = cc in
    subst
      (λ x.
        in_cart product variant options x
        ≡ in_cart product variant options items + added product variant options input)
      result (merge_item-in_cart input product variant options items merged e)
merge_or_append-in_cart id input product variant options items after none e h =
    let appended =
      throw_if-eq-ok (has_duplicate input.modifier_option_ids) conflict
        (ok (items ++ (new_item id input ∷ []))) h in
    let is_ok : ok (items ++ (new_item id input ∷ [])) ≡ ok after = appended.1 in
    let result : items ++ (new_item id input ∷ []) ≡ after = cc in
    subst
      (λ x.
        in_cart product variant options x
        ≡ in_cart product variant options items + added product variant options input)
      result
      (sum_by-append (on_line product variant options) items (new_item id input ∷ []) ∙ omega arith)

-- What an addition that returns came through.
record IsAdded (products : List CartProduct) (new_id : ℕ) (input : AddItemInput)
    (cart after : CartRow) : Type 0 where
  items : List CartItem
  merged : merge_or_append new_id input cart.items (merge_item input cart.items) ≡ ok items
  result : record cart { items = items } ≡ after

add_item-IsAdded :
    (products : List CartProduct) (new_id : ℕ) (input : AddItemInput) (cart after : CartRow)
    → add_item products new_id input cart ≡ ok after
    → IsAdded products new_id input cart after
unfolding add_item
add_item-IsAdded products new_id input cart after h =
    let lookup =
      find_product (λ p. p.id == input.product_id && p.is_active && not p.is_archived) products in
    let write : Result CartRow =
      merge_or_append new_id input cart.items (merge_item input cart.items) >>= λ items.
      ok (record cart { items = items }) in
    let stock : CartProduct → Result CartRow =
      λ p. assert_stock p input.variant_id input.quantity >>= λ _. write in
    let selection : CartProduct → Result CartRow = λ p.
      throw_if (not (is_valid_selection p.modifier_groups input.modifier_option_ids))
        modifier_selection_invalid
      >>= λ _. stock p in
    let variant : CartProduct → Result CartRow = λ p.
      throw_if (not (has_variant p.variants input.variant_id)) product_unavailable >>= λ _.
      selection p in
    let found = >>=-eq-ok lookup variant h in
    let p = found.0 in
    let has =
      throw_if-eq-ok (not (has_variant p.variants input.variant_id)) product_unavailable
        (selection p) found.2 in
    let chosen =
      throw_if-eq-ok (not (is_valid_selection p.modifier_groups input.modifier_option_ids))
        modifier_selection_invalid (stock p) has.1 in
    let enough =
      throw_if-eq-ok (p.track_inventory && ltb (available p input.variant_id) input.quantity)
        insufficient_stock write chosen.1 in
    let written =
      >>=-eq-ok (merge_or_append new_id input cart.items (merge_item input cart.items))
        (λ items. ok (record cart { items = items })) enough.1 in
    let is_ok : ok (record cart { items = written.0 }) ≡ ok after = written.2 in
    record { items = written.0; merged = written.1; result = cc }

-- An addition that returns adds its quantity to its selection, in whatever order the options were given,
-- and leaves the quantity of every other selection as it was.
pub add_item-in_cart :
    (products : List CartProduct) (new_id : ℕ) (input : AddItemInput) (cart after : CartRow)
    (product : ℕ) (variant : Option ℕ) (options : List ℕ)
    → add_item products new_id input cart ≡ ok after
    → in_cart product variant options after.items
      ≡ in_cart product variant options cart.items + added product variant options input
add_item-in_cart products new_id input cart after product variant options h =
    let a = add_item-IsAdded products new_id input cart after h in
    subst
      (λ x.
        in_cart product variant options x.items
        ≡ in_cart product variant options cart.items + added product variant options input)
      a.result
      (merge_or_append-in_cart new_id input product variant options cart.items a.items
        (merge_item input cart.items) refl a.merged)
