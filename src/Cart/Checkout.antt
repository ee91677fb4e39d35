-- ===== src/Cart/Checkout.antt =====
-- apps/api/src/modules/cart/cart.service.ts: `resolvePricing` and `summary`. The lines come with the rows
-- that the query joins to them; settings that are not set take the defaults of the source.
use muzael.Common.{ℕ, Bool, true, false, Option, none, some, List, [], ◌∷◌, map}
use muzael.Common.Int.{ℤ, pos}
use muzael.Shared.Errors.{Result, ok, ◌>>=◌}
use muzael.Pricing.{
  PricedModifier, PricingLineInput, PromoRule, FulfillmentType, PricingInput, PricingResult,
  compute,
}
use muzael.Cart.Promo.{PromoCode, PromoUsage, resolve_promo}

pub record CartLine : Type 0 where
  pub product_id : ℕ
  pub variant_id : Option ℕ
  pub quantity : ℕ
  pub product_price : ℕ
  pub variant_price_modifier : Option ℤ
  pub modifiers : List PricedModifier

-- `deliverySettings` and `loyaltySettings` as stored. A threshold of null is one that is not set.
pub record DeliverySettings : Type 0 where
  pub enabled : Option Bool
  pub flat_fee : Option ℕ
  pub free_above : Option ℕ
  pub min_order_total : Option ℕ

pub record LoyaltySettings : Type 0 where
  pub enabled : Option Bool
  pub rate : Option ℕ
  pub min_order_total : Option ℕ
  pub max_redeem_percent : Option ℕ

-- The database as `resolvePricing` reads it.
pub record Catalog : Type 0 where
  pub delivery : DeliverySettings
  pub loyalty : LoyaltySettings
  pub promos : List PromoCode
  pub usages : List PromoUsage
  pub balance : Option ℕ

pub record PricingRequest : Type 0 where
  pub now : ℕ
  pub lines : List CartLine
  pub customer_id : ℕ
  pub promo_code : Option ℕ
  pub fulfillment_type : FulfillmentType
  pub loyalty_spend : ℕ

abbrev pub default {ℓ} : {A : Type ℓ} → A → Option A → A
default d none = d
default d (some x) = x

abbrev pub pricing_line : CartLine → PricingLineInput
pricing_line item = record {
  product_id = item.product_id;
  variant_id = item.variant_id;
  quantity = item.quantity;
  unit_price = item.product_price;
  variant_price_modifier = default (pos 0) item.variant_price_modifier;
  modifiers = item.modifiers;
}

abbrev pub resolved_promo :
    (ℕ → ℕ) → PricingRequest → Catalog → Option ℕ → Result (Option PromoRule)
resolved_promo to_upper_case q c none = ok none
resolved_promo to_upper_case q c (some code) =
    resolve_promo to_upper_case q.now c.promos c.usages code q.customer_id >>= λ p. ok (some p)

abbrev pub pricing_input : PricingRequest → Catalog → Option PromoRule → PricingInput
pricing_input q c promo = record {
  lines = map pricing_line q.lines;
  fulfillment_type = q.fulfillment_type;
  promo = promo;
  delivery_rule = record {
    enabled = default true c.delivery.enabled;
    flat_fee = default 0 c.delivery.flat_fee;
    free_above = c.delivery.free_above;
    min_order_total = default 0 c.delivery.min_order_total;
  };
  loyalty = record {
    enabled = default false c.loyalty.enabled;
    rate = default 0 c.loyalty.rate;
    min_order_total = default 0 c.loyalty.min_order_total;
    max_redeem_percent = default 50 c.loyalty.max_redeem_percent;
  };
  requested_loyalty_spend = q.loyalty_spend;
  available_loyalty_balance = default 0 c.balance;
}

unfoldable pub resolve_pricing : (ℕ → ℕ) → PricingRequest → Catalog → Result PricingResult
resolve_pricing to_upper_case q c = do
  promo ← resolved_promo to_upper_case q c q.promo_code
  compute (pricing_input q c promo)

-- The prices of `summary`: none for an empty cart.
unfoldable pub summary_pricing :
    (ℕ → ℕ) → PricingRequest → Catalog → List CartLine → Result (Option PricingResult)
summary_pricing to_upper_case q c [] = ok none
summary_pricing to_upper_case q c (l ∷ ls) =
    resolve_pricing to_upper_case (record q { lines = l ∷ ls }) c >>= λ p. ok (some p)
