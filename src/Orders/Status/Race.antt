-- ===== src/Orders/Status/Race.antt =====
-- apps/api/src/modules/orders/orders.service.ts: two calls of `updateStatus` that overlap. The order is
-- read and its status is checked before the transaction starts, so two requests may both pass the
-- check before either writes, and both then write from the order that they read.
use muzael.Common.{
  ℕ, ◌+◌, ◌≡◌, refl, Bool, true, false, ◌||◌, some, List, [], ◌∷◌, arith, ◌==◌, if◌then◌else◌,
}
use muzael.Shared.Errors.{ok}
use muzael.Statuses.{OrderStatus, includes_order}
use muzael.Orders.Status.{
  default_pipeline, Order, Customer, Shop, find_order, add_spent, write_status, update_status,
}

-- What is recorded as spent by a customer, and whether the customer is there.
abbrev pub spent_by : ℕ → List Customer → ℕ
spent_by id [] = 0
spent_by id (c ∷ cs) = if c.id == id then c.total_spent else spent_by id cs

abbrev pub is_customer : ℕ → List Customer → Bool
is_customer id [] = false
is_customer id (c ∷ cs) = (c.id == id) || is_customer id cs

spent_by-add_spent :
    (id total : ℕ) (cs : List Customer)
    → is_customer id cs ≡ true
    → (spent_by id (add_spent id total cs) ≡ spent_by id cs + total)
      × (is_customer id (add_spent id total cs) ≡ true)
unfolding add_spent
spent_by-add_spent id total [] h = cc
spent_by-add_spent id total (c ∷ cs) h = ground (arith, spent_by-add_spent id total cs)

-- Two overlapping completions of an order both pass the check of the status that they read, and its
-- total is then added twice to what the customer spent.
pub overlapping_completions :
    (now later id : ℕ) (o : Order) (s : Shop)
    → find_order id s.orders ≡ some o
    → includes_order (default_pipeline o.status) OrderStatus.completed ≡ true
    → is_customer o.customer_id s.customers ≡ true
    → (update_status now id OrderStatus.completed s
        ≡ ok (write_status now OrderStatus.completed o s))
      × (spent_by o.customer_id
            (write_status later OrderStatus.completed o
              (write_status now OrderStatus.completed o s)).customers
          ≡ spent_by o.customer_id s.customers + o.total + o.total)
unfolding update_status write_status
overlapping_completions now later id o s f allowed known =
    let (once, still) = spent_by-add_spent o.customer_id o.total s.customers known in
    let twice =
      (spent_by-add_spent o.customer_id o.total (add_spent o.customer_id o.total s.customers)
        still).0 in
    (rw f (rw allowed refl), omega (arith, once, twice))
