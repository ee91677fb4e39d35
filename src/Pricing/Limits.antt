-- ===== src/Pricing/Limits.antt =====
-- apps/api/src/modules/cart/pricing.service.ts: discounts, bonuses and the fee of a returned price.
use muzael.Common.{
  ℕ, ◌-◌, ◌≤◌, ◌≡◌, true, false, Option, none, some, arith, ltb, Bool-cases, inl, inr, ◌⊎◌,
}
use muzael.Shared.Errors.{ok}
use muzael.Shared.Money.{apply_percentage}
use muzael.Pricing.{
  PricingInput, PricingResult, PromoRule, PromoType, promo_discount, loyalty_discount, delivery_fee,
  is_delivery, settle, compute, discount_by_type, percentage, fixed, buy_x_get_y, free_delivery,
}
use muzael.Pricing.Total.{compute-Computed, subtotal_of}

-- A promo code takes nothing off below its minimum, and never more than its own cap.
abbrev pub PromoRespected : PromoRule → ℕ → ℕ → Type 0
PromoRespected promo subtotal d =
    (promo.min_order_total ≤ subtotal) × ((most : ℕ) → promo.max_discount ≡ some most → d ≤ most)

abbrev pub OptionalPromo : Option PromoRule → ℕ → ℕ → Type 0
OptionalPromo none subtotal d = d ≡ 0
OptionalPromo (some promo) subtotal d = PromoRespected promo subtotal d

by_type-max :
    (kind : PromoType) (promo : PromoRule) (subtotal most : ℕ) {d : ℕ}
    → promo.max_discount ≡ some most
    → discount_by_type kind promo subtotal ≡ ok d
    → d ≤ most
by_type-max percentage promo subtotal most e h = ground arith
by_type-max fixed promo subtotal most e h = ground arith
by_type-max buy_x_get_y promo subtotal most e h = cc
by_type-max free_delivery promo subtotal most e h = ground arith

promo_respected :
    (promo : Option PromoRule) (subtotal : ℕ) {d : ℕ}
    → promo_discount promo subtotal ≡ ok d
    → OptionalPromo promo subtotal d
unfolding promo_discount
promo_respected none subtotal h = ground arith
promo_respected (some promo) subtotal h = elim (Bool-cases (ltb subtotal promo.min_order_total)) [
  | inl low ↦ let broken = rw low at h in cc
  | inr enough ↦
      (ground arith, λ most e. by_type-max promo.kind promo subtotal most e (rw enough at h))
]

-- What bonuses may cover: nothing unless asked for and enabled, no more than was asked for, than
-- the balance holds, and than the redeemable percentage of what is left after the promo code.
pub record LoyaltyRespected (input : PricingInput) (after_promo d : ℕ) : Type 0 where
  pub asked : d ≤ input.requested_loyalty_spend
  pub affordable : d ≤ input.available_loyalty_balance
  pub redeemable : d ≤ apply_percentage after_promo input.loyalty.max_redeem_percent
  pub disabled : input.loyalty.enabled ≡ false → d ≡ 0

loyalty_respected :
    (input : PricingInput) (after_promo : ℕ) {d : ℕ}
    → loyalty_discount input after_promo ≡ ok d
    → LoyaltyRespected input after_promo d
unfolding loyalty_discount
loyalty_respected input after_promo h = record {
  asked = ground arith;
  affordable = ground arith;
  redeemable = ground arith;
  disabled = ground arith;
}

-- The discounts of a returned price respect the promo code's minimum and cap, and the bonus limits.
pub compute-limits :
    (input : PricingInput) (r : PricingResult)
    → compute input ≡ ok r
    → OptionalPromo input.promo r.subtotal r.promo_discount
      × LoyaltyRespected input (r.subtotal - r.promo_discount) r.loyalty_discount
compute-limits input r h =
    let c = compute-Computed input r h in
    rw c.result (
      unfold settle in
      (
        promo_respected input.promo (subtotal_of c.lines) c.promo_ok,
        loyalty_respected input (subtotal_of c.lines - c.promo) c.loyalty_ok,
      ))

-- The fee and the bonuses earned that a returned price shows.
pub record FeeCharged (input : PricingInput) (r : PricingResult) : Type 0 where
  pub all_or_nothing : (r.delivery_fee ≡ 0) ⊎ (r.delivery_fee ≡ input.delivery_rule.flat_fee)
  pub only_delivery : is_delivery input.fulfillment_type ≡ false → r.delivery_fee ≡ 0
  pub free_above :
      (threshold : ℕ)
      → input.delivery_rule.free_above ≡ some threshold
      → threshold ≤ r.subtotal - r.promo_discount
      → r.delivery_fee ≡ 0
  pub reaches_minimum :
      is_delivery input.fulfillment_type ≡ true → input.delivery_rule.min_order_total ≤ r.subtotal
