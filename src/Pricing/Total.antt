-- ===== src/Pricing/Total.antt =====
-- apps/api/src/modules/cart/pricing.service.ts: the sums of a returned price.
use muzael.Common.{
  ℕ, ◌+◌, ◌-◌, ◌≤◌, ◌≡◌, refl, false, ◌&&◌, Option, none, some, List, map, arith, sum_by, sum, All,
  ltb, Bool-cases, inl, inr, length-map, ◌∙◌, [], ◌∷◌,
}
use muzael.Shared.Errors.{ok, >>=-eq-ok, cart_empty, minimum_order_not_met, throw_if-eq-ok}
use muzael.Shared.Money.{distribute_proportionally}
use muzael.Shared.Money.Split.{
  sum-distribute_proportionally, distribute_proportionally-le, length-distribute_proportionally,
}
use muzael.Pricing.{
  PricedLine, PricingInput, PricingResult, PromoRule, price_lines, promo_discount, loyalty_discount,
  settle, compute, apply_shares, is_empty, is_delivery, discount_by_type, percentage, fixed,
  buy_x_get_y, free_delivery, PromoType,
}
use muzael.Pricing.Lines.{
  IsPriced, Adds, apply_shares-Adds, sum-apply_shares, subtotal-apply_shares, total-Adds,
}

abbrev pub subtotal_of : List PricedLine → ℕ
subtotal_of = sum_by (λ l. l.line_subtotal)

discount_by_type-le :
    (kind : PromoType) (promo : PromoRule) (subtotal : ℕ) {d : ℕ}
    → discount_by_type kind promo subtotal ≡ ok d
    → d ≤ subtotal
discount_by_type-le percentage promo subtotal h = ground arith
discount_by_type-le fixed promo subtotal h = ground arith
discount_by_type-le buy_x_get_y promo subtotal h = cc
discount_by_type-le free_delivery promo subtotal h = ground arith

pub promo_discount-le :
    (promo : Option PromoRule) (subtotal : ℕ) {d : ℕ}
    → promo_discount promo subtotal ≡ ok d
    → d ≤ subtotal
unfolding promo_discount
promo_discount-le none subtotal h = ground arith
promo_discount-le (some promo) subtotal h = elim (Bool-cases (ltb subtotal promo.min_order_total)) [
  | inl low ↦ let broken = rw low at h in cc
  | inr enough ↦ discount_by_type-le promo.kind promo subtotal (rw enough at h)
]

pub loyalty_discount-le :
    (input : PricingInput) (after_promo : ℕ) {d : ℕ}
    → loyalty_discount input after_promo ≡ ok d
    → d ≤ after_promo
unfolding loyalty_discount
loyalty_discount-le input after_promo h = ground arith

-- How a successful `compute` arises.
pub record Computed (input : PricingInput) (r : PricingResult) : Type 0 where
  pub lines : List PricedLine
  pub promo : ℕ
  pub loyalty : ℕ
  pub priced : price_lines input.lines ≡ ok lines
  pub promo_ok : promo_discount input.promo (subtotal_of lines) ≡ ok promo
  pub loyalty_ok : loyalty_discount input (subtotal_of lines - promo) ≡ ok loyalty
  pub reaches_minimum :
      (is_delivery input.fulfillment_type
        && ltb (subtotal_of lines) input.delivery_rule.min_order_total)
      ≡ false
  pub nonempty : is_empty input.lines ≡ false
  pub result : r ≡ settle input lines promo loyalty

pub compute-Computed :
    (input : PricingInput) (r : PricingResult) → compute input ≡ ok r → Computed input r
unfolding compute
compute-Computed input r h =
    let (nonempty, h1) = throw_if-eq-ok (is_empty input.lines) cart_empty _ h in
    let (lines, priced, h2) = >>=-eq-ok (price_lines input.lines) _ h1 in
    let (promo, promo_ok, h3) = >>=-eq-ok (promo_discount input.promo (subtotal_of lines)) _ h2 in
    let (loyalty, loyalty_ok, h4) =
      >>=-eq-ok (loyalty_discount input (subtotal_of lines - promo)) _ h3 in
    let (reaches_minimum, h5) = throw_if-eq-ok _ minimum_order_not_met _ h4 in
    record {
      lines = lines;
      promo = promo;
      loyalty = loyalty;
      priced = priced;
      promo_ok = promo_ok;
      loyalty_ok = loyalty_ok;
      reaches_minimum = reaches_minimum;
      nonempty = nonempty;
      result = cc;
    }

-- The arithmetic that a receipt shows.
pub record AddsUp (r : PricingResult) : Type 0 where
  pub order : r.total + r.discount_total ≡ r.subtotal + r.delivery_fee + r.tax_total
  pub split : r.discount_total ≡ r.promo_discount + r.loyalty_discount
  pub within : r.discount_total ≤ r.subtotal
  pub subtotals : sum_by (λ l. l.line_subtotal) r.lines ≡ r.subtotal
  pub spread : sum_by (λ l. l.discount) r.lines ≡ r.discount_total
  pub receipt : sum_by (λ l. l.total) r.lines + r.discount_total ≡ r.subtotal
  pub lines : All Adds r.lines

sum-map_subtotal :
    (lines : List PricedLine) → sum (map (λ l. l.line_subtotal) lines) ≡ subtotal_of lines
sum-map_subtotal [] = refl
sum-map_subtotal (l ∷ ls) = omega (arith, sum-map_subtotal ls)

-- A discount within the subtotal is spread in full, also where every line is free.
sum-shares :
    (lines : List PricedLine) (discount : ℕ)
    → discount ≤ subtotal_of lines
    → sum (distribute_proportionally discount (map (λ l. l.line_subtotal) lines)) ≡ discount
sum-shares lines discount le =
    sum-distribute_proportionally discount (map (λ l. l.line_subtotal) lines)
      (λ e. omega (arith, sum-map_subtotal lines))

pub settle-AddsUp :
    (input : PricingInput) (lines : List PricedLine) (promo loyalty : ℕ)
    → All IsPriced lines
    → promo + loyalty ≤ subtotal_of lines
    → AddsUp (settle input lines promo loyalty)
unfolding settle
settle-AddsUp input lines promo loyalty priced le =
    let weights : List ℕ = map (λ l. l.line_subtotal) lines in
    let shares = distribute_proportionally (promo + loyalty) weights in
    let fits : promo + loyalty ≤ sum weights = omega (arith, sum-map_subtotal lines) in
    let each =
      apply_shares-Adds lines shares priced
        (distribute_proportionally-le (promo + loyalty) weights fits) in
    let spread = sum-apply_shares lines shares (
      length-distribute_proportionally (promo + loyalty) weights
      ∙ length-map (λ l. l.line_subtotal) lines) in
    let whole = sum-shares lines (promo + loyalty) le in
    let same = subtotal-apply_shares lines shares in
    let adds = total-Adds (apply_shares lines shares) each in
    record {
      order = omega arith;
      split = refl;
      within = le;
      subtotals = same;
      spread = spread ∙ whole;
      receipt = omega (arith, adds, same, spread, whole);
      lines = each;
    }
