-- ===== src/Orders/Stock/Tests.antt =====
-- Two lines of one product, with a variant of another in between.
use muzael.Common.{true, List, [], ◌∷◌, none, some}
use muzael.Orders.Stock.{sale, CartLine, Inventory, moving}

abbrev inventory : Inventory
inventory = record {
  products =
      record { id = 1; track_inventory = true; stock_quantity = 10; low_stock_threshold = some 5 }
      ∷ record { id = 2; track_inventory = true; stock_quantity = 0; low_stock_threshold = none }
      ∷ [];
  variants = record { id = 21; stock_quantity = 4 } ∷ [];
  movements = [];
  low = [];
}

abbrev first : CartLine
first = record { product_id = 1; variant_id = none; quantity = 3 }

abbrev second : CartLine
second = record { product_id = 2; variant_id = some 21; quantity = 4 }

abbrev third : CartLine
third = record { product_id = 1; variant_id = none; quantity = 2 }

abbrev lines : List CartLine
lines = first ∷ second ∷ third ∷ []

abbrev reserved : Inventory
reserved = record {
  products =
      record { id = 1; track_inventory = true; stock_quantity = 5; low_stock_threshold = some 5 }
      ∷ record { id = 2; track_inventory = true; stock_quantity = 0; low_stock_threshold = none }
      ∷ [];
  variants = record { id = 21; stock_quantity = 0 } ∷ [];
  movements = moving sale 9 third 5 ∷ moving sale 9 second 0 ∷ moving sale 9 first 7 ∷ [];
  low = (1, 5) ∷ [];
}
