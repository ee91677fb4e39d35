-- ===== src/Orders/Status/Tests.antt =====
-- An order that is accepted, completed, and then asked to be cancelled.
use muzael.Common.{◌≡◌, ◌+◌, refl, List, [], ◌∷◌, none, some}
use muzael.Statuses.{OrderStatus}
use muzael.Orders.Status.{
  Order, Shop, find_order, StatusRequest, update_all, update_status, write_status,
}
use muzael.Orders.Status.Race.{spent_by, overlapping_completions}
use muzael.Shared.Errors.{ok}
use muzael.Orders.Status.Once.{IsTold, update_all-IsTold}

abbrev order : Order
order = record {
  id = 5;
  customer_id = 4;
  status = OrderStatus.new;
  total = 90000;
  version = 0;
  accepted_at = none;
  completed_at = none;
  cancelled_at = none;
}

abbrev shop : Shop
shop = record {
  orders = order ∷ [];
  customers = record { id = 4; total_spent = 0 } ∷ [];
  inventory = record { products = []; variants = []; movements = []; low = [] };
  history = [];
  events = [];
}

shop-IsTold : IsTold 5 shop
unfolding find_order
shop-IsTold = record { order = order; at = refl; completions = refl; cancellations = refl }

abbrev requests : List StatusRequest
requests =
    record { now = 1; order_id = 5; next = OrderStatus.accepted }
    ∷ record { now = 2; order_id = 5; next = OrderStatus.completed }
    ∷ record { now = 3; order_id = 5; next = OrderStatus.cancelled }
    ∷ []

update_all-IsTold_example : IsTold 5 (update_all requests shop)
update_all-IsTold_example = update_all-IsTold requests 5 shop shop-IsTold

abbrev accepted_order : Order
accepted_order = record order { status = OrderStatus.accepted }

abbrev accepted_shop : Shop
accepted_shop = record shop { orders = accepted_order ∷ [] }

found_accepted : find_order 5 accepted_shop.orders ≡ some accepted_order
unfolding find_order
found_accepted = refl

overlapping_completions_example :
    (update_status 1 5 OrderStatus.completed accepted_shop
      ≡ ok (write_status 1 OrderStatus.completed accepted_order accepted_shop))
    × (spent_by 4
          (write_status 2 OrderStatus.completed accepted_order
            (write_status 1 OrderStatus.completed accepted_order accepted_shop)).customers
        ≡ 0 + 90000 + 90000)
overlapping_completions_example =
    overlapping_completions 1 2 5 accepted_order accepted_shop found_accepted refl refl
