-- ===== src/Orders/Status.antt =====
-- apps/api/src/modules/orders/orders.service.ts: `updateStatus` and the pipeline that it follows.
pub mod Once
pub mod Race
mod Tests
use muzael.Common.{
  ℕ, ◌+◌, Bool, true, false, not, Option, none, some, List, [], ◌∷◌, ◌==◌, if◌then◌else◌,
}
use muzael.Shared.Errors.{
  Result, ok, err, ◌>>=◌, ◌>>◌, throw_if, not_found, invalid_status_transition,
}
use muzael.Statuses.{OrderStatus, includes_order}
use muzael.Orders.Stock.{Inventory, release_stock}

abbrev pub default_pipeline : OrderStatus → List OrderStatus
default_pipeline OrderStatus.new = OrderStatus.accepted ∷ OrderStatus.cancelled ∷ []
default_pipeline OrderStatus.accepted =
    OrderStatus.preparing ∷ OrderStatus.ready ∷ OrderStatus.delivering ∷ OrderStatus.completed
    ∷ OrderStatus.cancelled ∷ []
default_pipeline OrderStatus.preparing =
    OrderStatus.ready ∷ OrderStatus.delivering ∷ OrderStatus.completed ∷ OrderStatus.cancelled ∷ []
default_pipeline OrderStatus.ready =
    OrderStatus.delivering ∷ OrderStatus.completed ∷ OrderStatus.cancelled ∷ []
default_pipeline OrderStatus.delivering = OrderStatus.completed ∷ OrderStatus.cancelled ∷ []
default_pipeline OrderStatus.completed = []
default_pipeline OrderStatus.cancelled = []

pub record Order : Type 0 where
  pub id : ℕ
  pub customer_id : ℕ
  pub status : OrderStatus
  pub total : ℕ
  pub version : ℕ
  pub accepted_at : Option ℕ
  pub completed_at : Option ℕ
  pub cancelled_at : Option ℕ

pub record OrderStatusHistory : Type 0 where
  pub order_id : ℕ
  pub from_status : OrderStatus
  pub to_status : OrderStatus

pub record Customer : Type 0 where
  pub id : ℕ
  pub total_spent : ℕ

pub data OrderEvent : Type 0 where
  order_cancelled order_completed : ℕ → OrderEvent
  order_status_changed : ℕ → OrderStatus → OrderStatus → OrderEvent

pub record Shop : Type 0 where
  pub orders : List Order
  pub customers : List Customer
  pub inventory : Inventory
  pub history : List OrderStatusHistory
  pub events : List OrderEvent

pub find_order : ℕ → List Order → Option Order
find_order id [] = none
find_order id (o ∷ os) = if o.id == id then some o else find_order id os

pub put_order : Order → List Order → List Order
put_order q [] = []
put_order q (o ∷ os) = if o.id == q.id then q ∷ os else o ∷ put_order q os

-- `totalSpent: { increment }`.
pub add_spent : ℕ → ℕ → List Customer → List Customer
add_spent id total [] = []
add_spent id total (c ∷ cs) =
    if c.id == id
    then record c { total_spent = c.total_spent + total } ∷ cs
    else c ∷ add_spent id total cs

-- The `data` of the update.
abbrev pub changed : ℕ → OrderStatus → Order → Order
changed now next o = record o {
  status = next;
  version = o.version + 1;
  accepted_at = elim next [ OrderStatus.accepted ↦ some now | _ ↦ o.accepted_at ];
  completed_at = elim next [ OrderStatus.completed ↦ some now | _ ↦ o.completed_at ];
  cancelled_at = elim next [ OrderStatus.cancelled ↦ some now | _ ↦ o.cancelled_at ];
}

-- The branches on the new status.
abbrev pub consequences : OrderStatus → Order → Shop → Shop
consequences OrderStatus.cancelled o s = record s {
  inventory = release_stock o.id s.inventory;
  events = order_cancelled o.id ∷ s.events;
}
consequences OrderStatus.completed o s = record s {
  customers = add_spent o.customer_id o.total s.customers;
  events = order_completed o.id ∷ s.events;
}
consequences _ o s = s

abbrev pub announced : Order → OrderStatus → Shop → Shop
announced o next s = record s { events = order_status_changed o.id o.status next ∷ s.events }

-- The writes of the transaction.
unfoldable pub write_status : ℕ → OrderStatus → Order → Shop → Shop
write_status now next o s = announced o next (
    consequences next o (record s {
      orders = put_order (changed now next o) s.orders;
      history = record { order_id = o.id; from_status = o.status; to_status = next } ∷ s.history;
    }))

abbrev pub found : Option Order → Result Order
found none = err not_found
found (some o) = ok o

pub update_status : ℕ → ℕ → OrderStatus → Shop → Result Shop
update_status now id next s = do
  o ← found (find_order id s.orders)
  throw_if (not (includes_order (default_pipeline o.status) next)) invalid_status_transition
  ok (write_status now next o s)

-- Requests for new statuses, in the order in which they are served.
pub record StatusRequest : Type 0 where
  pub now : ℕ
  pub order_id : ℕ
  pub next : OrderStatus

abbrev pub or_unchanged : Result Shop → Shop → Shop
or_unchanged (ok s') s = s'
or_unchanged (err _) s = s

pub update_all : List StatusRequest → Shop → Shop
update_all [] s = s
update_all (r ∷ rs) s = update_all rs (or_unchanged (update_status r.now r.order_id r.next s) s)
