-- ===== src/Orders/Stock/Products.antt =====
-- apps/api/src/modules/orders/orders.service.ts: the stock of a product, reserved and released.
use muzael.Common.{
  ℕ, ◌+◌, ◌-◌, ◌≤◌, ◌≡◌, refl, ◌∙◌, subst, Bool, true, false, ◌&&◌, Option, none, some, List, [],
  ◌∷◌, sum_by, arith, ◌==◌, ltb, if◌then◌else◌, Bool-cases, inl, inr,
}
use muzael.Common.Int.{pos, neg}
use muzael.Shared.Errors.{ok}
use muzael.Orders.Stock.{
  Product, InventoryTransaction, sale, CartLine, Inventory, find_product, set_product_stock,
  set_variant_stock, moving, is_low, reserve_product, reserve_variant, is_sale_of, abs,
  product_stock,
}

abbrev pub is_some : Option Product → Bool
is_some none = false
is_some (some p) = true

abbrev pub is_plain : Option ℕ → Bool
is_plain none = true
is_plain (some variant) = false

-- What a movement took of a product itself, for an order.
abbrev pub taken : ℕ → ℕ → InventoryTransaction → ℕ
taken p order m =
    if is_sale_of order m && (is_plain m.variant_id && (m.product_id == p))
    then abs m.quantity
    else 0

abbrev pub sold : ℕ → ℕ → List InventoryTransaction → ℕ
sold p order ms = sum_by (taken p order) ms

pub find-set :
    (id after : ℕ) (ps : List Product) (q : ℕ)
    → find_product q (set_product_stock id after ps) ≡ elim (find_product q ps) [
      | none ↦ none
      | some p ↦ if id == q then some (record p { stock_quantity = after }) else some p
    ]
unfolding find_product set_product_stock
find-set id after [] q = refl
find-set id after (p ∷ ps) q = ground (arith, find-set id after ps q)

find_product-id :
    (id : ℕ) (ps : List Product) (p : Product) → find_product id ps ≡ some p → p.id ≡ id
unfolding find_product
find_product-id id [] p h = cc
find_product-id id (x ∷ ps) p h = ground (arith, find_product-id id ps p)

-- A step that moves units of a product between its stock and the sales of an order.
pub record Kept (p order : ℕ) (s s' : Inventory) : Type 0 where
  pub there : is_some (find_product p s'.products) ≡ is_some (find_product p s.products)
  pub levels :
      product_stock p s.products + sold p order s.movements
      ≡ product_stock p s'.products + sold p order s'.movements
  pub absent :
      is_some (find_product p s.products) ≡ false
      → sold p order s'.movements ≡ sold p order s.movements

pub Kept-refl : (p order : ℕ) (s : Inventory) → Kept p order s s
Kept-refl p order s = record { there = refl; levels = refl; absent = λ _. refl }

pub Kept-trans :
    (p order : ℕ) (s t u : Inventory) → Kept p order s t → Kept p order t u → Kept p order s u
Kept-trans p order s t u a b = record {
  there = b.there ∙ a.there;
  levels = a.levels ∙ b.levels;
  absent = λ gone. b.absent (a.there ∙ gone) ∙ a.absent gone;
}

abbrev reserved : ℕ → Product → CartLine → Inventory → Inventory
reserved order p line s = record s {
  products = set_product_stock p.id (p.stock_quantity - line.quantity) s.products;
  movements = moving sale order line (p.stock_quantity - line.quantity) ∷ s.movements;
  low =
      if is_low p.low_stock_threshold (p.stock_quantity - line.quantity)
      then (p.id, p.stock_quantity - line.quantity) ∷ s.low
      else s.low;
}

abbrev reserved_variant : ℕ → ℕ → ℕ → CartLine → Inventory → Inventory
reserved_variant order variant stock line s = record s {
  variants = set_variant_stock variant (stock - line.quantity) s.variants;
  movements = moving sale order line (stock - line.quantity) ∷ s.movements;
}

pub ok_path : (s t : Inventory) → ok s ≡ ok t → s ≡ t
ok_path s t h = cc

abs-neg : (n : ℕ) → abs (neg (pos n)) ≡ n
unfolding neg
abs-neg n = ground arith

reserved-Kept :
    (q order : ℕ) (p : Product) (line : CartLine) (s : Inventory)
    → find_product line.product_id s.products ≡ some p
    → line.variant_id ≡ none
    → line.quantity ≤ p.stock_quantity
    → Kept q order s (reserved order p line s)
reserved-Kept q order p line s f plain enough =
    let own : p.id ≡ line.product_id = find_product-id line.product_id s.products p f in
    let after = find-set p.id (p.stock_quantity - line.quantity) s.products q in
    let size = abs-neg line.quantity in
    elim (Bool-cases (p.id == q)) [
      | inl e ↦
          let is_q : line.product_id ≡ q = ground (arith, own, e) in
          let here : find_product q s.products ≡ some p = rw is_q at f in
          record {
            there = ground (arith, after, here);
            levels = ground (arith, after, here, own, plain, enough, size);
            absent = λ gone. ground (arith, here);
          }
      | inr away ↦ record {
        there = ground (arith, after, away);
        levels = ground (arith, after, own, away);
        absent = λ gone. ground (arith, own, away);
      }
    ]

reserved_variant-Kept :
    (q order variant stock : ℕ) (line : CartLine) (s : Inventory)
    → line.variant_id ≡ some variant
    → Kept q order s (reserved_variant order variant stock line s)
reserved_variant-Kept q order variant stock line s v = record {
  there = refl;
  levels = ground (arith, v);
  absent = λ gone. ground (arith, v);
}

pub reserve_product-Kept :
    (q order : ℕ) (p : Product) (line : CartLine) (s s' : Inventory)
    → find_product line.product_id s.products ≡ some p
    → line.variant_id ≡ none
    → reserve_product order p line s ≡ ok s'
    → Kept q order s s'
reserve_product-Kept q order p line s s' f plain h =
    elim (Bool-cases (ltb p.stock_quantity line.quantity)) [
      | inl short ↦ absurd (let k = rw short at h in cc)
      | inr enough ↦
          let built : reserved order p line s ≡ s' = ok_path _ _ (rw enough at h) in
          subst (Kept q order s) built (reserved-Kept q order p line s f plain (ground arith))
    ]

pub reserve_variant-Kept :
    (q order variant stock : ℕ) (line : CartLine) (s s' : Inventory)
    → line.variant_id ≡ some variant
    → reserve_variant order variant stock line s ≡ ok s'
    → Kept q order s s'
reserve_variant-Kept q order variant stock line s s' v h =
    elim (Bool-cases (ltb stock line.quantity)) [
      | inl short ↦ absurd (let k = rw short at h in cc)
      | inr enough ↦
          let built : reserved_variant order variant stock line s ≡ s' =
            ok_path _ _ (rw enough at h) in
          subst (Kept q order s) built (reserved_variant-Kept q order variant stock line s v)
    ]
