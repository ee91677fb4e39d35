-- ===== src/Orders/Stock.antt =====
-- apps/api/src/modules/orders/orders.service.ts: `reserveStock` for the lines of an order, and
-- `releaseStock` when it is cancelled. A stock is a non-negative number.
pub mod Products
pub mod RoundTrip
mod Tests
use muzael.Common.{
  ℕ, ◌+◌, ◌-◌, Bool, true, false, ◌&&◌, not, Option, none, some, List, [], ◌∷◌, filter, ◌==◌, leb,
  ltb, if◌then◌else◌,
}
use muzael.Common.Int.{ℤ, pos, negsuc, pos_part, neg_part, neg}
use muzael.Shared.Errors.{Result, ok, err, ◌>>=◌, insufficient_stock}

pub record Product : Type 0 where
  pub id : ℕ
  pub track_inventory : Bool
  pub stock_quantity : ℕ
  pub low_stock_threshold : Option ℕ

pub record ProductVariant : Type 0 where
  pub id : ℕ
  pub stock_quantity : ℕ

pub data MovementType : Type 0 where
  sale return : MovementType

pub record InventoryTransaction : Type 0 where
  pub product_id : ℕ
  pub variant_id : Option ℕ
  pub order_id : ℕ
  pub kind : MovementType
  pub quantity : ℤ
  pub quantity_after : ℕ

pub record CartLine : Type 0 where
  pub product_id : ℕ
  pub variant_id : Option ℕ
  pub quantity : ℕ

-- The rows, and the events of low stock with the product and what is left of it.
pub record Inventory : Type 0 where
  pub products : List Product
  pub variants : List ProductVariant
  pub movements : List InventoryTransaction
  pub low : List (ℕ × ℕ)

pub find_product : ℕ → List Product → Option Product
find_product id [] = none
find_product id (p ∷ ps) = if p.id == id then some p else find_product id ps

pub set_product_stock : ℕ → ℕ → List Product → List Product
set_product_stock id after [] = []
set_product_stock id after (p ∷ ps) =
    if p.id == id
    then record p { stock_quantity = after } ∷ ps
    else p ∷ set_product_stock id after ps

-- `variant?.stockQuantity ?? 0`.
pub variant_stock : ℕ → List ProductVariant → ℕ
variant_stock id [] = 0
variant_stock id (v ∷ vs) = if v.id == id then v.stock_quantity else variant_stock id vs

pub set_variant_stock : ℕ → ℕ → List ProductVariant → List ProductVariant
set_variant_stock id after [] = []
set_variant_stock id after (v ∷ vs) =
    if v.id == id
    then record v { stock_quantity = after } ∷ vs
    else v ∷ set_variant_stock id after vs

abbrev pub moving : MovementType → ℕ → CartLine → ℕ → InventoryTransaction
moving kind order line after = record {
  product_id = line.product_id;
  variant_id = line.variant_id;
  order_id = order;
  kind = kind;
  quantity = neg (pos line.quantity);
  quantity_after = after;
}

abbrev pub is_low : Option ℕ → ℕ → Bool
is_low none after = false
is_low (some threshold) after = leb after threshold

-- The branch of a line without a variant.
abbrev pub reserve_product : ℕ → Product → CartLine → Inventory → Result Inventory
reserve_product order p line s =
    if ltb p.stock_quantity line.quantity
    then err insufficient_stock
    else ok (record s {
      products = set_product_stock p.id (p.stock_quantity - line.quantity) s.products;
      movements = moving sale order line (p.stock_quantity - line.quantity) ∷ s.movements;
      low =
          if is_low p.low_stock_threshold (p.stock_quantity - line.quantity)
          then (p.id, p.stock_quantity - line.quantity) ∷ s.low
          else s.low;
    })

-- The branch of a line with a variant, whose stock was read.
abbrev pub reserve_variant : ℕ → ℕ → ℕ → CartLine → Inventory → Result Inventory
reserve_variant order variant stock line s =
    if ltb stock line.quantity
    then err insufficient_stock
    else ok (record s {
      variants = set_variant_stock variant (stock - line.quantity) s.variants;
      movements = moving sale order line (stock - line.quantity) ∷ s.movements;
    })

abbrev pub reserve_tracked : ℕ → Product → Option ℕ → CartLine → Inventory → Result Inventory
reserve_tracked order p none line s = reserve_product order p line s
reserve_tracked order p (some variant) line s =
    reserve_variant order variant (variant_stock variant s.variants) line s

abbrev pub reserve_found : ℕ → Option Product → CartLine → Inventory → Result Inventory
reserve_found order none line s = ok s
reserve_found order (some p) line s =
    if p.track_inventory then reserve_tracked order p line.variant_id line s else ok s

-- `reserveStock`, one line after another.
unfoldable pub reserve_line : ℕ → CartLine → Inventory → Result Inventory
reserve_line order line s = reserve_found order (find_product line.product_id s.products) line s

pub reserve_stock : ℕ → List CartLine → Inventory → Result Inventory
reserve_stock order [] s = ok s
reserve_stock order (line ∷ lines) s = reserve_line order line s >>= reserve_stock order lines

abbrev pub is_sale : MovementType → Bool
is_sale sale = true
is_sale return = false

-- `where: { orderId, type: 'SALE' }`.
abbrev pub is_sale_of : ℕ → InventoryTransaction → Bool
is_sale_of order m = is_sale m.kind && (m.order_id == order)

-- `Math.abs`.
abbrev pub abs : ℤ → ℕ
abs a = pos_part a + neg_part a

abbrev pub product_stock_of : Option Product → ℕ
product_stock_of none = 0
product_stock_of (some p) = p.stock_quantity

abbrev pub product_stock : ℕ → List Product → ℕ
product_stock id ps = product_stock_of (find_product id ps)

abbrev pub returned : InventoryTransaction → ℕ → InventoryTransaction
returned m after = record m {
  kind = return;
  quantity = pos (abs m.quantity);
  quantity_after = after;
}

abbrev pub release_to : Option ℕ → InventoryTransaction → Inventory → Inventory
release_to none m s =
    let after = product_stock m.product_id s.products + abs m.quantity in
    record s {
      products = set_product_stock m.product_id after s.products;
      movements = returned m after ∷ s.movements;
    }
release_to (some variant) m s =
    let after = variant_stock variant s.variants + abs m.quantity in
    record s {
      variants = set_variant_stock variant after s.variants;
      movements = returned m after ∷ s.movements;
    }

pub release_each : List InventoryTransaction → Inventory → Inventory
release_each [] s = s
release_each (m ∷ ms) s = release_each ms (release_to m.variant_id m s)

-- `releaseStock`. A movement's rows are there, since foreign keys name them.
unfoldable pub release_stock : ℕ → Inventory → Inventory
release_stock order s = release_each (filter (is_sale_of order) s.movements) s
