-- ===== src/Pricing/Tests.antt =====
-- A priced order, and the theorems at it: two lines of 35 000 and 12 500 so'm with a variant and a
-- modifier, a 10 % code capped at 9 000, 5 000 bonuses, and a paid delivery.
use muzael.Common.{◌≡◌, refl, true, none, some, [], ◌∷◌, ◌-◌, ◌↔◌}
use muzael.Common.Int.{pos, negsuc, ◌+ℤ◌}
use muzael.Shared.Errors.{ok, err, validation_failed}
use muzael.Shared.Money.{apply_percentage, distribute_proportionally}
use muzael.Pricing.{
  PricingLineInput, PromoRule, PricingInput, PricingResult, percentage, delivery, compute,
  price_lines, price_line, promo_discount, loyalty_discount, settle, apply_shares, delivery_fee,
  loyalty_earn,
}
use muzael.Pricing.Limits.{OptionalPromo, LoyaltyRespected, compute-limits}
use muzael.Pricing.Outcome.{IsAccepted, compute_iff, goods}

abbrev plov : PricingLineInput
plov = record {
  product_id = 1;
  variant_id = some 7;
  quantity = 2;
  unit_price = 30000;
  variant_price_modifier = pos 5000;
  modifiers = record { option_id = 4; price = 2000 } ∷ [];
}

abbrev tea : PricingLineInput
tea = record {
  product_id = 2;
  variant_id = none;
  quantity = 1;
  unit_price = 12500;
  variant_price_modifier = negsuc 499;
  modifiers = [];
}

abbrev welcome : PromoRule
welcome = record {
  id = 1;
  kind = percentage;
  value = 10;
  min_order_total = 50000;
  max_discount = some 9000;
}

abbrev order : PricingInput
order = record {
  lines = plov ∷ tea ∷ [];
  fulfillment_type = delivery;
  promo = some welcome;
  delivery_rule = record {
    enabled = true;
    flat_fee = 15000;
    free_above = some 200000;
    min_order_total = 30000;
  };
  loyalty = record { enabled = true; rate = 3; min_order_total = 10000; max_redeem_percent = 50 };
  requested_loyalty_spend = 5000;
  available_loyalty_balance = 7000;
}

priced_order : (r : PricingResult) × (compute order ≡ ok r) × (r.total ≡ 87400)
unfolding compute price_lines price_line ◌+ℤ◌ promo_discount loyalty_discount settle apply_shares
    delivery_fee loyalty_earn apply_percentage distribute_proportionally
priced_order = (_, refl, refl)

-- A variant that drives the price below zero is refused, and so is an empty line.
refused_lines :
    (price_line (record plov { variant_price_modifier = negsuc 30000 }) ≡ err validation_failed)
    × (price_line (record plov { quantity = 0 }) ≡ err validation_failed)
unfolding price_line ◌+ℤ◌
refused_lines = (refl, refl)

odd_split : distribute_proportionally 100 (1 ∷ 1 ∷ 1 ∷ []) ≡ 34 ∷ 33 ∷ 33 ∷ []
unfolding distribute_proportionally
odd_split = refl

compute-limits_example :
    let r = priced_order.0 in
    OptionalPromo order.promo r.subtotal r.promo_discount
    × LoyaltyRespected order (r.subtotal - r.promo_discount) r.loyalty_discount
compute-limits_example = compute-limits order priced_order.0 priced_order.1

compute_iff_example :
    ((r : PricingResult) × (compute order ≡ ok r) × (r.subtotal ≡ goods order.lines))
    ↔ IsAccepted order
compute_iff_example = compute_iff order
