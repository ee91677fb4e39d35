-- ===== src/Cart/Items.antt =====
-- apps/api/src/modules/cart/cart.service.ts: the lines of a cart. The ids of new rows are given
-- with the call, which runs inside its tenant. That an option stands once on a line is the unique
-- index of the database, whose violation the error filter answers as a conflict.
pub mod Quantities
mod Tests
use muzael.Common.{
  ℕ, ◌+◌, Bool, true, false, not, ◌&&◌, ◌||◌, Option, none, some, List, [], ◌∷◌, ◌++◌, any, filter,
  contains, ltb, ◌==◌, if◌then◌else◌,
}
use muzael.Common.Int.{ℤ}
use muzael.Shared.Errors.{
  Result, ok, err, ◌>>=◌, ◌>>◌, throw_if, not_found, product_unavailable,
  modifier_selection_invalid, insufficient_stock, conflict,
}
use muzael.Cart.Selections.{same_modifier_set, ModifierGroup, is_valid_selection}

pub record ProductVariant : Type 0 where
  pub id : ℕ
  pub is_active : Bool
  pub price_modifier : ℤ
  pub stock_quantity : ℕ

pub record CartProduct : Type 0 where
  pub id : ℕ
  pub is_active : Bool
  pub is_archived : Bool
  pub price : ℕ
  pub track_inventory : Bool
  pub stock_quantity : ℕ
  pub variants : List ProductVariant
  pub modifier_groups : List ModifierGroup

pub record CartItem : Type 0 where
  pub id : ℕ
  pub product_id : ℕ
  pub variant_id : Option ℕ
  pub quantity : ℕ
  pub option_ids : List ℕ

pub record CartRow : Type 0 where
  pub id : ℕ
  pub customer_id : ℕ
  pub promo_code : Option ℕ
  pub items : List CartItem

pub record AddItemInput : Type 0 where
  pub product_id : ℕ
  pub variant_id : Option ℕ
  pub quantity : ℕ
  pub modifier_option_ids : List ℕ

abbrev pub find_product : (CartProduct → Bool) → List CartProduct → Result CartProduct
find_product p [] = err product_unavailable
find_product p (x ∷ xs) = if p x then ok x else find_product p xs

abbrev pub has_variant : List ProductVariant → Option ℕ → Bool
has_variant variants none = true
has_variant variants (some id) = any (λ v. v.id == id && v.is_active) variants

-- `find(...)?.stockQuantity ?? 0`.
abbrev pub variant_stock : List ProductVariant → ℕ → ℕ
variant_stock [] id = 0
variant_stock (v ∷ vs) id = if v.id == id then v.stock_quantity else variant_stock vs id

abbrev pub available : CartProduct → Option ℕ → ℕ
available p none = p.stock_quantity
available p (some id) = variant_stock p.variants id

abbrev pub assert_stock : CartProduct → Option ℕ → ℕ → Result (Unit {0})
assert_stock p variant quantity =
    throw_if (p.track_inventory && ltb (available p variant) quantity) insufficient_stock

abbrev pub same_variant : Option ℕ → Option ℕ → Bool
same_variant none none = true
same_variant (some a) (some b) = a == b
same_variant _ _ = false

abbrev pub is_same_line : ℕ → Option ℕ → List ℕ → CartItem → Bool
is_same_line product variant options item =
    item.product_id == product
    && same_variant item.variant_id variant
    && same_modifier_set item.option_ids options

abbrev pub has_duplicate : List ℕ → Bool
has_duplicate [] = false
has_duplicate (x ∷ xs) = contains xs x || has_duplicate xs

abbrev pub new_item : ℕ → AddItemInput → CartItem
new_item id input = record {
  id = id;
  product_id = input.product_id;
  variant_id = input.variant_id;
  quantity = input.quantity;
  option_ids = input.modifier_option_ids;
}

-- The new row, behind the others since the rows are in the order of their creation.
abbrev pub append_item : ℕ → AddItemInput → List CartItem → Result (List CartItem)
append_item id input items =
    throw_if (has_duplicate input.modifier_option_ids) conflict
    >> ok (items ++ (new_item id input ∷ []))

-- The update of the first line with the same selection, where there is one.
unfoldable pub merge_item : AddItemInput → List CartItem → Option (List CartItem)
merge_item input [] = none
merge_item input (item ∷ items) =
    let rest = merge_item input items in
    if is_same_line input.product_id input.variant_id input.modifier_option_ids item
    then some (record item { quantity = item.quantity + input.quantity } ∷ items)
    else elim rest [ none ↦ none | some merged ↦ some (item ∷ merged) ]

abbrev pub merge_or_append :
    ℕ → AddItemInput → List CartItem → Option (List CartItem) → Result (List CartItem)
merge_or_append id input items (some merged) = ok merged
merge_or_append id input items none = append_item id input items

unfoldable pub add_item : List CartProduct → ℕ → AddItemInput → CartRow → Result CartRow
add_item products new_id input cart = do
  product ←
      find_product (λ p. p.id == input.product_id && p.is_active && not p.is_archived) products
  throw_if (not (has_variant product.variants input.variant_id)) product_unavailable
  throw_if (not (is_valid_selection product.modifier_groups input.modifier_option_ids))
      modifier_selection_invalid
  _ ← assert_stock product input.variant_id input.quantity
  items ← merge_or_append new_id input cart.items (merge_item input cart.items)
  ok (record cart { items = items })

abbrev pub find_item : ℕ → List CartItem → Result CartItem
find_item id [] = err not_found
find_item id (x ∷ xs) = if x.id == id then ok x else find_item id xs

abbrev pub delete_item : ℕ → List CartItem → List CartItem
delete_item id items = filter (λ i. not (i.id == id)) items

abbrev pub set_quantity : ℕ → ℕ → List CartItem → List CartItem
set_quantity id quantity [] = []
set_quantity id quantity (x ∷ xs) =
    let rest = set_quantity id quantity xs in
    if x.id == id then record x { quantity = quantity } ∷ xs else x ∷ rest

abbrev pub find_product_row : ℕ → List CartProduct → Result CartProduct
find_product_row id [] = err not_found
find_product_row id (x ∷ xs) = if x.id == id then ok x else find_product_row id xs

abbrev pub change_quantity : List CartProduct → CartItem → ℕ → CartRow → Result CartRow
change_quantity products item quantity cart = do
  product ← find_product_row item.product_id products
  _ ← assert_stock product item.variant_id quantity
  ok (record cart { items = set_quantity item.id quantity cart.items })

unfoldable pub update_item : List CartProduct → ℕ → ℕ → CartRow → Result CartRow
update_item products id quantity cart = do
  item ← find_item id cart.items
  if quantity == 0
      then ok (record cart { items = delete_item id cart.items })
      else change_quantity products item quantity cart

unfoldable pub remove_item : ℕ → CartRow → Result CartRow
remove_item id cart = do
  _ ← find_item id cart.items
  ok (record cart { items = delete_item id cart.items })

abbrev pub clear : CartRow → CartRow
clear cart = record cart { items = []; promo_code = none }

-- `getOrCreate`.
unfoldable pub get_or_create : ℕ → ℕ → List CartRow → CartRow
get_or_create new_id customer [] = record {
  id = new_id;
  customer_id = customer;
  promo_code = none;
  items = [];
}
get_or_create new_id customer (c ∷ cs) =
    if c.customer_id == customer then c else get_or_create new_id customer cs

unfoldable pub put_cart : CartRow → List CartRow → List CartRow
put_cart cart [] = cart ∷ []
put_cart cart (c ∷ cs) =
    let rest = put_cart cart cs in if c.customer_id == cart.customer_id then cart ∷ cs else c ∷ rest
