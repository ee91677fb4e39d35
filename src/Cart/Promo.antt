-- ===== src/Cart/Promo.antt =====
-- apps/api/src/modules/cart/cart.service.ts: promo codes on a cart. A code is a number; what the runtime
-- makes of it in capitals is a parameter.
use muzael.Common.{
  ℕ, Bool, false, not, ◌&&◌, Option, none, some, List, [], ◌∷◌, filter, length, ltb, leb, ◌==◌,
  if◌then◌else◌,
}
use muzael.Shared.Errors.{
  Result, ok, err, ◌>>=◌, ◌>>◌, throw_if, promo_not_found, promo_expired, promo_usage_exceeded,
}
use muzael.Pricing.{PromoType, PromoRule}
use muzael.Cart.Items.{CartRow}

pub record PromoCode : Type 0 where
  pub id : ℕ
  pub code : ℕ
  pub is_active : Bool
  pub kind : PromoType
  pub value : ℕ
  pub min_order_total : ℕ
  pub max_discount : Option ℕ
  pub starts_at : Option ℕ
  pub ends_at : Option ℕ
  pub usage_limit : Option ℕ
  pub usage_count : ℕ
  pub per_customer_limit : Option ℕ

pub record PromoUsage : Type 0 where
  pub promo_code_id : ℕ
  pub customer_id : ℕ

abbrev pub find_promo : ℕ → List PromoCode → Result PromoCode
find_promo code [] = err promo_not_found
find_promo code (p ∷ ps) = if p.code == code then ok p else find_promo code ps

-- A bound that is not set never stops a code.
abbrev pub before_start : Option ℕ → ℕ → Bool
before_start none now = false
before_start (some starts_at) now = ltb now starts_at

abbrev pub after_end : Option ℕ → ℕ → Bool
after_end none now = false
after_end (some ends_at) now = ltb ends_at now

abbrev pub used_up : Option ℕ → ℕ → Bool
used_up none used = false
used_up (some limit) used = leb limit used

abbrev pub uses_by : ℕ → ℕ → List PromoUsage → ℕ
uses_by promo customer usages =
    length (filter (λ u. u.promo_code_id == promo && u.customer_id == customer) usages)

unfoldable pub resolve_promo :
    (ℕ → ℕ) → ℕ → List PromoCode → List PromoUsage → ℕ → ℕ → Result PromoRule
resolve_promo to_upper_case now promos usages code customer = do
  p ← find_promo (to_upper_case code) promos
  throw_if (not p.is_active) promo_not_found
  throw_if (before_start p.starts_at now) promo_expired
  throw_if (after_end p.ends_at now) promo_expired
  throw_if (used_up p.usage_limit p.usage_count) promo_usage_exceeded
  throw_if (used_up p.per_customer_limit (uses_by p.id customer usages)) promo_usage_exceeded
  ok (record {
    id = p.id;
    kind = p.kind;
    value = p.value;
    min_order_total = p.min_order_total;
    max_discount = p.max_discount;
  })

-- The code is kept as it was typed.
unfoldable pub apply_promo :
    (ℕ → ℕ) → ℕ → List PromoCode → List PromoUsage → ℕ → CartRow → Result CartRow
apply_promo to_upper_case now promos usages code cart = do
  _ ← resolve_promo to_upper_case now promos usages code cart.customer_id
  ok (record cart { promo_code = some code })

abbrev pub remove_promo : CartRow → CartRow
remove_promo cart = record cart { promo_code = none }
