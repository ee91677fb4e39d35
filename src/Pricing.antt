-- ===== src/Pricing.antt =====
-- apps/api/src/modules/cart/pricing.service.ts: what a cart costs. Prices, fees and bonuses are
-- non-negative integers in minor units, as the contracts admit them; only a variant's price delta
-- is signed. Percentages are whole numbers. Ids are numbers; the name snapshots and comments that
-- a line carries along unread are left out.
pub mod Lines
pub mod Total
pub mod Limits
pub mod Outcome
mod Tests
use muzael.Common.{
  ℕ, ◌+◌, ◌-◌, ◌*◌, min, max, Bool, true, false, ◌&&◌, ◌||◌, not, Option, none, some, List, [], ◌∷◌,
  map, ltb, leb, ◌==◌, if◌then◌else◌, sum_by,
}
use muzael.Common.Int.{ℤ, pos, negsuc, ◌+ℤ◌}
use muzael.Shared.Errors.{
  Result, ok, err, ◌>>=◌, ◌>>◌, throw_if, cart_empty, validation_failed, promo_not_applicable,
  insufficient_loyalty_balance, minimum_order_not_met,
}
use muzael.Shared.Money.{apply_percentage, distribute_proportionally}

pub record PricedModifier : Type 0 where
  pub option_id : ℕ
  pub price : ℕ

pub record PricingLineInput : Type 0 where
  pub product_id : ℕ
  pub variant_id : Option ℕ
  pub quantity : ℕ
  pub unit_price : ℕ
  pub variant_price_modifier : ℤ
  pub modifiers : List PricedModifier

pub record PricedLine : Type 0 where
  pub input : PricingLineInput
  pub open input use *
  pub effective_unit_price : ℕ
  pub modifiers_price : ℕ
  pub line_subtotal : ℕ
  pub discount : ℕ
  pub total : ℕ

pub data PromoType : Type 0 where
  percentage fixed buy_x_get_y free_delivery : PromoType

pub record PromoRule : Type 0 where
  pub id : ℕ
  pub kind : PromoType
  pub value : ℕ
  pub min_order_total : ℕ
  pub max_discount : Option ℕ

pub record DeliveryRule : Type 0 where
  pub enabled : Bool
  pub flat_fee : ℕ
  pub free_above : Option ℕ
  pub min_order_total : ℕ

pub record LoyaltyRule : Type 0 where
  pub enabled : Bool
  pub rate : ℕ
  pub min_order_total : ℕ
  pub max_redeem_percent : ℕ

pub data FulfillmentType : Type 0 where
  delivery pickup dine_in : FulfillmentType

pub record PricingInput : Type 0 where
  pub lines : List PricingLineInput
  pub fulfillment_type : FulfillmentType
  pub promo : Option PromoRule
  pub delivery_rule : DeliveryRule
  pub loyalty : LoyaltyRule
  pub requested_loyalty_spend : ℕ
  pub available_loyalty_balance : ℕ

pub record PricingResult : Type 0 where
  pub lines : List PricedLine
  pub subtotal : ℕ
  pub promo_discount : ℕ
  pub loyalty_discount : ℕ
  pub discount_total : ℕ
  pub delivery_fee : ℕ
  pub tax_total : ℕ
  pub total : ℕ
  pub loyalty_earn : ℕ

abbrev pub is_delivery : FulfillmentType → Bool
is_delivery delivery = true
is_delivery _ = false

-- A record literal of `priceLine`, for an effective price that is not negative.
abbrev pub priced : PricingLineInput → ℕ → PricedLine
priced line effective =
    let modifiers_price = sum_by (λ m. m.price) line.modifiers in
    let line_subtotal = (effective + modifiers_price) * line.quantity in
    record {
      input = line;
      effective_unit_price = effective;
      modifiers_price = modifiers_price;
      line_subtotal = line_subtotal;
      discount = 0;
      total = line_subtotal;
    }

-- The test `effectiveUnitPrice < 0` of `priceLine`.
abbrev pub check_price : PricingLineInput → ℤ → Result PricedLine
check_price line (pos effective) = ok (priced line effective)
check_price line (negsuc _) = err validation_failed

unfoldable pub price_line : PricingLineInput → Result PricedLine
price_line line = do
  throw_if (ltb line.quantity 1) validation_failed
  check_price line (pos line.unit_price +ℤ line.variant_price_modifier)

-- `input.lines.map(priceLine)`: the first line that throws ends it.
unfoldable pub price_lines : List PricingLineInput → Result (List PricedLine)
price_lines [] = ok []
price_lines (line ∷ lines) = do first ← price_line line; rest ← price_lines lines; ok (first ∷ rest)

-- The last two steps of `promoDiscount`.
abbrev pub cap_discount : PromoRule → ℕ → ℕ → ℕ
cap_discount promo subtotal discount =
    let capped : ℕ = elim promo.max_discount [ none ↦ discount | some most ↦ min discount most ] in
    max 0 (min capped subtotal)

-- The `switch` of `promoDiscount`.
abbrev pub discount_by_type : PromoType → PromoRule → ℕ → Result ℕ
discount_by_type percentage promo subtotal =
    ok (cap_discount promo subtotal (apply_percentage subtotal promo.value))
discount_by_type fixed promo subtotal = ok (cap_discount promo subtotal promo.value)
discount_by_type free_delivery promo subtotal = ok 0
discount_by_type buy_x_get_y promo subtotal = err promo_not_applicable

unfoldable pub promo_discount : Option PromoRule → ℕ → Result ℕ
promo_discount none subtotal = ok 0
promo_discount (some promo) subtotal = do
  throw_if (ltb subtotal promo.min_order_total) promo_not_applicable
  discount_by_type promo.kind promo subtotal

unfoldable pub loyalty_discount : PricingInput → ℕ → Result ℕ
loyalty_discount input after_promo =
    if not input.loyalty.enabled || input.requested_loyalty_spend == 0 then ok 0 else do
      throw_if (ltb input.available_loyalty_balance input.requested_loyalty_spend)
          insufficient_loyalty_balance
      let cap = apply_percentage after_promo input.loyalty.max_redeem_percent
      ok (max 0 (min (min input.requested_loyalty_spend cap) after_promo))

-- `input.promo?.type === 'FREE_DELIVERY' && subtotal >= input.promo.minOrderTotal`.
abbrev pub promo_frees_delivery : Option PromoRule → ℕ → Bool
promo_frees_delivery none subtotal = false
promo_frees_delivery (some promo) subtotal = elim promo.kind [
  | free_delivery ↦ leb promo.min_order_total subtotal
  | _ ↦ false
]

-- `freeAbove !== null && qualifying >= freeAbove`.
abbrev pub above_threshold : Option ℕ → ℕ → Bool
above_threshold none qualifying = false
above_threshold (some threshold) qualifying = leb threshold qualifying

-- `promoDiscount` is at most `subtotal`, so the subtraction is exact.
unfoldable pub delivery_fee : PricingInput → ℕ → ℕ → ℕ
delivery_fee input subtotal promo_discount =
    if not (is_delivery input.fulfillment_type) || not input.delivery_rule.enabled
    then 0
    else if promo_frees_delivery input.promo subtotal
    then 0
    else if above_threshold input.delivery_rule.free_above (subtotal - promo_discount)
    then 0
    else input.delivery_rule.flat_fee

unfoldable pub loyalty_earn : LoyaltyRule → ℕ → ℕ → ℕ
loyalty_earn rule total subtotal =
    if not rule.enabled || rule.rate == 0
    then 0
    else if ltb subtotal rule.min_order_total
    then 0
    else apply_percentage total rule.rate

-- The assignments in `lines.forEach`. A share is at most its line's subtotal.
unfoldable pub apply_shares : List PricedLine → List ℕ → List PricedLine
apply_shares [] shares = []
apply_shares (line ∷ lines) [] =
    record line { discount = 0; total = line.line_subtotal - 0 } ∷ apply_shares lines []
apply_shares (line ∷ lines) (share ∷ shares) =
    record line { discount = share; total = line.line_subtotal - share } ∷ apply_shares lines shares

abbrev pub is_empty : List PricingLineInput → Bool
is_empty [] = true
is_empty (_ ∷ _) = false

-- What follows the errors in `compute`.
unfoldable pub settle : PricingInput → List PricedLine → ℕ → ℕ → PricingResult
settle input lines promo_discount loyalty_discount =
    let subtotal = sum_by (λ l. l.line_subtotal) lines in
    let discount_total = promo_discount + loyalty_discount in
    let fee = delivery_fee input subtotal promo_discount in
    let shares = distribute_proportionally discount_total (map (λ l. l.line_subtotal) lines) in
    let total = subtotal - discount_total + fee + 0 in
    record {
      lines = apply_shares lines shares;
      subtotal = subtotal;
      promo_discount = promo_discount;
      loyalty_discount = loyalty_discount;
      discount_total = discount_total;
      delivery_fee = fee;
      tax_total = 0;
      total = total;
      loyalty_earn = loyalty_earn input.loyalty total subtotal;
    }

unfoldable pub compute : PricingInput → Result PricingResult
compute input = do
  throw_if (is_empty input.lines) cart_empty
  lines ← price_lines input.lines
  let subtotal = sum_by (λ l. l.line_subtotal) lines
  promo ← promo_discount input.promo subtotal
  loyalty ← loyalty_discount input (subtotal - promo)
  throw_if (is_delivery input.fulfillment_type && ltb subtotal input.delivery_rule.min_order_total)
      minimum_order_not_met
  ok (settle input lines promo loyalty)
