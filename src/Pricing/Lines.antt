-- ===== src/Pricing/Lines.antt =====
-- apps/api/src/modules/cart/pricing.service.ts: what `priceLine` and the discount shares compute.
use muzael.Common.{
  ℕ, suc, ◌+◌, ◌*◌, ◌≤◌, ◌<◌, ◌≡◌, refl, sym, List, [], ◌∷◌, map, arith, length, get_or, sum_by,
  sum, All, ltb, Bool-cases, inl, inr,
}
use muzael.Common.Int.{ℤ, pos, negsuc, ◌+ℤ◌}
use muzael.Shared.Errors.{ok, err, validation_failed, >>=-eq-ok}
use muzael.Pricing.{
  PricingLineInput, PricedLine, price_line, price_lines, check_price, priced, apply_shares,
}

-- A line before the discount is spread.
pub record IsPriced (l : PricedLine) : Type 0 where
  pub sold : 0 < l.quantity
  pub price : pos l.effective_unit_price ≡ pos l.unit_price +ℤ l.variant_price_modifier
  pub extras : l.modifiers_price ≡ sum_by (λ m. m.price) l.modifiers
  pub subtotal : l.line_subtotal ≡ (l.effective_unit_price + l.modifiers_price) * l.quantity

check_price-eq-ok :
    (line : PricingLineInput) (e : ℤ) {l : PricedLine}
    → check_price line e ≡ ok l
    → (n : ℕ) × (e ≡ pos n) × (l ≡ priced line n)
check_price-eq-ok line (pos n) h = (n, refl, cc)
check_price-eq-ok line (negsuc n) h = cc

pub price_line-IsPriced :
    (line : PricingLineInput) {l : PricedLine}
    → price_line line ≡ ok l
    → IsPriced l × (l.input ≡ line)
unfolding price_line
price_line-IsPriced line {l} h = elim (Bool-cases (ltb line.quantity 1)) [
  | inl empty ↦ let broken : err validation_failed ≡ ok l = rw empty at h in cc
  | inr sold ↦
      let (n, price, e) = check_price-eq-ok line _ (rw sold at h) in
      rw e (record { sold = ground arith; price = sym price; extras = refl; subtotal = refl }, refl)
]

pub price_lines-IsPriced :
    (lines : List PricingLineInput) {ls : List PricedLine}
    → price_lines lines ≡ ok ls
    → All IsPriced ls × (map (λ l. l.input) ls ≡ lines)
unfolding price_lines
price_lines-IsPriced [] {ls} h = let e : ls ≡ [] = cc in rw e (tt, refl)
price_lines-IsPriced (line ∷ lines) {ls} h =
    let (first, h1, k) = >>=-eq-ok (price_line line) _ h in
    let (rest, h2, e) = >>=-eq-ok (price_lines lines) _ k in
    let (p, same) = price_line-IsPriced line h1 in
    let (ps, sames) = price_lines-IsPriced lines h2 in
    let built : ls ≡ first ∷ rest = cc in rw built ((p, ps), cc)

-- A line after the discount is spread: what is paid and what is taken off make the subtotal.
pub record Adds (l : PricedLine) : Type 0 where
  pub priced : IsPriced l
  pub adds : l.total + l.discount ≡ l.line_subtotal

IsPriced-share :
    (l : PricedLine) (d t : ℕ) → IsPriced l → IsPriced (record l { discount = d; total = t })
IsPriced-share l d t p = record {
  sold = p.sold;
  price = p.price;
  extras = p.extras;
  subtotal = p.subtotal;
}

pub apply_shares-Adds :
    (lines : List PricedLine) (shares : List ℕ)
    → All IsPriced lines
    → ((j : ℕ) → get_or shares j 0 ≤ get_or (map (λ l. l.line_subtotal) lines) j 0)
    → All Adds (apply_shares lines shares)
unfolding apply_shares
apply_shares-Adds [] shares h le = tt
apply_shares-Adds (l ∷ ls) [] (p, h) le = (
  record { priced = IsPriced-share l _ _ p; adds = omega arith },
  apply_shares-Adds ls [] h (λ j. omega arith),
)
apply_shares-Adds (l ∷ ls) (s ∷ ss) (p, h) le = (
  record { priced = IsPriced-share l _ _ p; adds = omega (arith, le 0) },
  apply_shares-Adds ls ss h (λ j. le (suc j)),
)

pub sum-apply_shares :
    (lines : List PricedLine) (shares : List ℕ)
    → length shares ≡ length lines
    → sum_by (λ l. l.discount) (apply_shares lines shares) ≡ sum shares
unfolding apply_shares
sum-apply_shares [] [] h = refl
sum-apply_shares [] (s ∷ ss) h = absurd (omega arith)
sum-apply_shares (l ∷ ls) [] h = absurd (omega arith)
sum-apply_shares (l ∷ ls) (s ∷ ss) h = omega (arith, sum-apply_shares ls ss (omega arith))

pub subtotal-apply_shares :
    (lines : List PricedLine) (shares : List ℕ)
    → sum_by (λ l. l.line_subtotal) (apply_shares lines shares)
      ≡ sum_by (λ l. l.line_subtotal) lines
unfolding apply_shares
subtotal-apply_shares [] shares = refl
subtotal-apply_shares (l ∷ ls) [] = omega (arith, subtotal-apply_shares ls [])
subtotal-apply_shares (l ∷ ls) (s ∷ ss) = omega (arith, subtotal-apply_shares ls ss)

pub total-Adds :
    (lines : List PricedLine)
    → All Adds lines
    → sum_by (λ l. l.total) lines + sum_by (λ l. l.discount) lines
      ≡ sum_by (λ l. l.line_subtotal) lines
total-Adds [] h = omega arith
total-Adds (l ∷ ls) (a, h) = omega (arith, a.adds, total-Adds ls h)
