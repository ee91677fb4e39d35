-- ===== src/Orders/Stock/RoundTrip.antt =====
-- apps/api/src/modules/orders/orders.service.ts: `releaseStock` after `reserveStock`.
use muzael.Common.{
  ℕ, ◌≡◌, refl, subst, ◌&&◌, Option, none, some, List, [], ◌∷◌, ◌==◌, if◌then◌else◌, Option-cases,
  Bool-cases, inl, inr,
}
use muzael.Shared.Errors.{ok, >>=-eq-ok}
use muzael.Orders.Stock.{
  Product, InventoryTransaction, CartLine, Inventory, find_product, variant_stock, reserve_line,
  reserve_tracked, reserve_stock, abs,
}
use muzael.Orders.Stock.Products.{
  is_plain, Kept, Kept-refl, Kept-trans, ok_path, reserve_product-Kept, reserve_variant-Kept,
}

tracked-Kept :
    (q order : ℕ) (p : Product) (variant : Option ℕ) (line : CartLine) (s s' : Inventory)
    → find_product line.product_id s.products ≡ some p
    → line.variant_id ≡ variant
    → reserve_tracked order p variant line s ≡ ok s'
    → Kept q order s s'
tracked-Kept q order p none line s s' f plain h = reserve_product-Kept q order p line s s' f plain h
tracked-Kept q order p (some v) line s s' f e h =
    reserve_variant-Kept q order v (variant_stock v s.variants) line s s' e h

reserve_line-Kept :
    (q order : ℕ) (line : CartLine) (s s' : Inventory)
    → reserve_line order line s ≡ ok s'
    → Kept q order s s'
unfolding reserve_line
reserve_line-Kept q order line s s' h =
    elim (Option-cases (find_product line.product_id s.products)) [
      | inl missing ↦ subst (Kept q order s) (ok_path s s' (rw missing at h)) (Kept-refl q order s)
      | inr (p, f) ↦ elim (Bool-cases p.track_inventory) [
        | inl tracked ↦
            tracked-Kept q order p line.variant_id line s s' f refl (rw (f, tracked) at h)
        | inr free ↦ subst (Kept q order s) (ok_path s s' (rw (f, free) at h)) (Kept-refl q order s)
      ]
    ]

-- What a reservation takes from the stock of a product is what its sales record.
pub reserve_stock-Kept :
    (q order : ℕ) (lines : List CartLine) (s s' : Inventory)
    → reserve_stock order lines s ≡ ok s'
    → Kept q order s s'
unfolding reserve_stock
reserve_stock-Kept q order [] s s' h = subst (Kept q order s) (ok_path s s' h) (Kept-refl q order s)
reserve_stock-Kept q order (line ∷ lines) s s' h =
    let (t, first, rest) = >>=-eq-ok (reserve_line order line s) _ h in
    Kept-trans q order s t s' (reserve_line-Kept q order line s t first)
      (reserve_stock-Kept q order lines t s' rest)

-- What releasing a movement gives back to a product.
abbrev back : ℕ → InventoryTransaction → ℕ
back p m = if is_plain m.variant_id && (m.product_id == p) then abs m.quantity else 0
