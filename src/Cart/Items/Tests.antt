-- ===== src/Cart/Items/Tests.antt =====
-- A pizza with a size and toppings, added twice with the toppings in another order.
use muzael.Common.{ℕ, ◌+◌, ◌≡◌, refl, true, false, none, List, [], ◌∷◌, sort_by, insert_by}
use muzael.Shared.Errors.{ok, err, modifier_selection_invalid, insufficient_stock}
use muzael.Cart.Selections.{every_same, same_modifier_set}
use muzael.Cart.Items.{
  CartProduct, CartItem, CartRow, AddItemInput, merge_item, add_item, update_item,
}
use muzael.Cart.Items.Quantities.{in_cart, added, add_item-in_cart}

abbrev pizza : CartProduct
pizza = record {
  id = 1;
  is_active = true;
  is_archived = false;
  price = 60_000;
  track_inventory = true;
  stock_quantity = 5;
  variants = [];
  modifier_groups =
      record { id = 1; min_select = 1; max_select = 1; options = 10 ∷ 11 ∷ [] }
      ∷ record { id = 2; min_select = 0; max_select = 2; options = 20 ∷ 21 ∷ 22 ∷ [] }
      ∷ [];
}

abbrev wish : ℕ → List ℕ → AddItemInput
wish quantity options = record {
  product_id = 1;
  variant_id = none;
  quantity = quantity;
  modifier_option_ids = options;
}

abbrev line : ℕ → List ℕ → CartItem
line quantity options = record {
  id = 7;
  product_id = 1;
  variant_id = none;
  quantity = quantity;
  option_ids = options;
}

abbrev cart : List CartItem → CartRow
cart items = record { id = 1; customer_id = 1; promo_code = none; items = items }

abbrev before : CartRow
before = cart (line 2 (10 ∷ 20 ∷ 21 ∷ []) ∷ [])

abbrev after : CartRow
after = cart (line 5 (10 ∷ 20 ∷ 21 ∷ []) ∷ [])

merge_test : add_item (pizza ∷ []) 8 (wish 3 (21 ∷ 10 ∷ 20 ∷ [])) before ≡ ok after
unfolding add_item merge_item same_modifier_set every_same sort_by insert_by
merge_test = refl

no_size_test : add_item (pizza ∷ []) 8 (wish 3 (21 ∷ [])) before ≡ err modifier_selection_invalid
unfolding add_item
no_size_test = refl

-- The check on an addition does not see what the line already holds; the one on a change of the line does.
over_stock_test : update_item (pizza ∷ []) 7 6 after ≡ err insufficient_stock
unfolding update_item
over_stock_test = refl

add_item-in_cart_example :
    in_cart 1 none (20 ∷ 10 ∷ 21 ∷ []) after.items
    ≡ in_cart 1 none (20 ∷ 10 ∷ 21 ∷ []) before.items
      + added 1 none (20 ∷ 10 ∷ 21 ∷ []) (wish 3 (21 ∷ 10 ∷ 20 ∷ []))
add_item-in_cart_example =
    add_item-in_cart (pizza ∷ []) 8 (wish 3 (21 ∷ 10 ∷ 20 ∷ [])) before after 1 none
      (20 ∷ 10 ∷ 21 ∷ []) merge_test
