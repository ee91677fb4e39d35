-- ===== src/Pricing/Outcome.antt =====
-- apps/api/src/modules/cart/pricing.service.ts: when `compute` returns, and when it throws.
use muzael.Common.{
  ℕ, ◌+◌, ◌-◌, ◌*◌, ◌≤◌, ◌<◌, ◌≡◌, refl, ◌↔◌, ◌≢◌, true, false, Option, none, some, List, [], ◌∷◌,
  arith, ltb, sum_by, All, Bool-cases, inl, inr, ◌&&◌, not, ◌||◌, ◌==◌, min, max,
}
use muzael.Common.Int.{pos_part, neg_part, ◌+ℤ◌}
use muzael.Shared.Errors.{ok, >>=-eq-ok}
use muzael.Shared.Money.{apply_percentage}
use muzael.Pricing.{
  PricingLineInput, PricedLine, PricingInput, PricingResult, PromoRule, PromoType, price_line,
  price_lines, promo_discount, loyalty_discount, is_delivery, settle, compute, discount_by_type,
  percentage, fixed, buy_x_get_y, free_delivery, is_empty, priced,
}
use muzael.Pricing.Total.{compute-Computed, subtotal_of}

-- A line that can be sold: some of it, at a price that its variant does not drive below zero.
abbrev pub IsSellable : PricingLineInput → Type 0
IsSellable line =
    (0 < line.quantity)
    × (neg_part line.variant_price_modifier
        ≤ line.unit_price + pos_part line.variant_price_modifier)

-- What the lines cost together, written without the code's intermediate values.
abbrev pub goods : List PricingLineInput → ℕ
goods = sum_by (λ line.
    (line.unit_price
      + pos_part line.variant_price_modifier
      - neg_part line.variant_price_modifier
      + sum_by (λ m. m.price) line.modifiers)
    * line.quantity)

abbrev pub PromoApplies : Option PromoRule → ℕ → Type 0
PromoApplies none subtotal = Unit
PromoApplies (some promo) subtotal = (promo.min_order_total ≤ subtotal) × (promo.kind ≢ buy_x_get_y)

pub record IsAccepted (input : PricingInput) : Type 0 where
  pub nonempty : input.lines ≢ []
  pub sellable : All IsSellable input.lines
  pub promo_applies : PromoApplies input.promo (goods input.lines)
  pub affordable :
      input.loyalty.enabled ≡ true → input.requested_loyalty_spend ≤ input.available_loyalty_balance
  pub reaches_minimum :
      is_delivery input.fulfillment_type ≡ true
      → input.delivery_rule.min_order_total ≤ goods input.lines

-- A priced line costs what the description says.
price_line_sound :
    (line : PricingLineInput) {l : PricedLine}
    → price_line line ≡ ok l
    → IsSellable line × (l.line_subtotal ≡ goods (line ∷ []))
unfolding price_line ◌+ℤ◌
price_line_sound line h = ground arith

price_line_complete :
    (line : PricingLineInput) → IsSellable line → (l : PricedLine) × (price_line line ≡ ok l)
unfolding price_line ◌+ℤ◌
price_line_complete line s = (
  priced line (
      line.unit_price
      + pos_part line.variant_price_modifier
      - neg_part line.variant_price_modifier),
  ground arith,
)

price_lines_sound :
    (lines : List PricingLineInput) {ls : List PricedLine}
    → price_lines lines ≡ ok ls
    → All IsSellable lines × (subtotal_of ls ≡ goods lines)
unfolding price_lines
price_lines_sound [] {ls} h = let e : ls ≡ [] = cc in rw e (tt, refl)
price_lines_sound (line ∷ lines) {ls} h =
    let (first, h1, k) = >>=-eq-ok (price_line line) _ h in
    let (rest, h2, e) = >>=-eq-ok (price_lines lines) _ k in
    let (sold, cost) = price_line_sound line h1 in
    let (solds, costs) = price_lines_sound lines h2 in
    let built : ls ≡ first ∷ rest = cc in rw built ((sold, solds), omega (arith, cost, costs))

price_lines_complete :
    (lines : List PricingLineInput)
    → All IsSellable lines
    → (ls : List PricedLine) × (price_lines lines ≡ ok ls)
unfolding price_lines
price_lines_complete [] h = ([], refl)
price_lines_complete (line ∷ lines) (s, h) =
    let (l, e) = price_line_complete line s in
    let (ls, es) = price_lines_complete lines h in (l ∷ ls, rw (e, es))

promo_sound :
    (promo : Option PromoRule) (subtotal : ℕ) {d : ℕ}
    → promo_discount promo subtotal ≡ ok d
    → PromoApplies promo subtotal
unfolding promo_discount
promo_sound none subtotal h = tt
promo_sound (some promo) subtotal h = ground arith

by_type_complete :
    (kind : PromoType) (promo : PromoRule) (subtotal : ℕ)
    → kind ≢ buy_x_get_y
    → (d : ℕ) × (discount_by_type kind promo subtotal ≡ ok d)
by_type_complete percentage promo subtotal h = (_, refl)
by_type_complete fixed promo subtotal h = (_, refl)
by_type_complete buy_x_get_y promo subtotal h = absurd (h refl)
by_type_complete free_delivery promo subtotal h = (0, refl)

promo_complete :
    (promo : Option PromoRule) (subtotal : ℕ)
    → PromoApplies promo subtotal
    → (d : ℕ) × (promo_discount promo subtotal ≡ ok d)
unfolding promo_discount
promo_complete none subtotal h = (0, refl)
promo_complete (some promo) subtotal h =
    let (d, e) = by_type_complete promo.kind promo subtotal h.1 in
    let enough : ltb subtotal promo.min_order_total ≡ false = ground arith in (d, rw (enough, e))

loyalty_complete :
    (input : PricingInput) (after_promo : ℕ)
    → (input.loyalty.enabled ≡ true
        → input.requested_loyalty_spend ≤ input.available_loyalty_balance)
    → (d : ℕ) × (loyalty_discount input after_promo ≡ ok d)
unfolding loyalty_discount
loyalty_complete input after_promo h =
    elim (Bool-cases (not input.loyalty.enabled || input.requested_loyalty_spend == 0)) [
      | inl unused ↦ (0, rw unused)
      | inr used ↦ (
        max 0 (
            min
              (min input.requested_loyalty_spend
                (apply_percentage after_promo input.loyalty.max_redeem_percent))
              after_promo),
        ground arith,
      )
    ]

loyalty_sound :
    (input : PricingInput) (after_promo : ℕ) {d : ℕ}
    → loyalty_discount input after_promo ≡ ok d
    → input.loyalty.enabled ≡ true
    → input.requested_loyalty_spend ≤ input.available_loyalty_balance
unfolding loyalty_discount
loyalty_sound input after_promo h e = ground arith

compute_sound :
    (input : PricingInput) (r : PricingResult)
    → compute input ≡ ok r
    → IsAccepted input × (r.subtotal ≡ goods input.lines)
compute_sound input r h =
    let c = compute-Computed input r h in
    let (solds, cost) = price_lines_sound input.lines c.priced in
    (
      record {
        nonempty = λ none_left. ground (arith, c.nonempty);
        sellable = solds;
        promo_applies = rw cost at (promo_sound input.promo (subtotal_of c.lines) c.promo_ok);
        affordable = loyalty_sound input (subtotal_of c.lines - c.promo) c.loyalty_ok;
        reaches_minimum = λ d. ground (arith, c.reaches_minimum, cost);
      },
      rw c.result (unfold settle in cost),
    )

compute_complete :
    (input : PricingInput) → IsAccepted input → (r : PricingResult) × (compute input ≡ ok r)
unfolding compute
compute_complete input a =
    let (lines, e1) = price_lines_complete input.lines a.sellable in
    let cost = (price_lines_sound input.lines e1).1 in
    let (promo, e2) = promo_complete input.promo (subtotal_of lines) (rw cost a.promo_applies) in
    let (loyalty, e3) = loyalty_complete input (subtotal_of lines - promo) a.affordable in
    let e0 : is_empty input.lines ≡ false = ground arith in
    let e4 : (is_delivery input.fulfillment_type
          && ltb (subtotal_of lines) input.delivery_rule.min_order_total)
        ≡ false =
      ground (arith, cost, a.reaches_minimum) in
    (settle input lines promo loyalty, rw (e0, e1, e2, e3, e4))

-- `compute` returns a price exactly for a cart that is not empty, whose lines can all be sold,
-- whose promo code applies to the goods, whose bonuses are covered by the balance, and which
-- reaches the delivery minimum if it is delivered, and its subtotal is then what the goods cost;
-- in every other case it throws.
pub compute_iff :
    (input : PricingInput)
    → ((r : PricingResult) × (compute input ≡ ok r) × (r.subtotal ≡ goods input.lines))
      ↔ IsAccepted input
compute_iff input = (
  λ (r, returned, _). (compute_sound input r returned).0,
  λ a.
      let (r, returned) = compute_complete input a in
      (r, returned, (compute_sound input r returned).1),
)
