-- ===== src/Loyalty/Accrual.antt =====
-- apps/api/src/modules/loyalty/loyalty.service.ts: the bonuses of one order.
use muzael.Common.{
  ℕ, ◌≡◌, refl, sym, ap, ◌∙◌, true, some, List, ◌∷◌, arith, Option-cases, Bool-cases, inl, inr,
}
use muzael.Common.Int.{ℤ}
use muzael.Shared.Errors.{ok}
use muzael.Loyalty.{
  LoyaltyAccount, TransactionType, earn, LoyaltyTransaction, Rows, find_account, posted, post,
  entry, is_positive, is_taken, accrue_for_order,
}

taken_again :
    (order : ℕ) (kind : TransactionType) (t : LoyaltyTransaction) (ledger : List LoyaltyTransaction)
    → t.order_id ≡ some order
    → t.kind ≡ kind
    → is_taken (some order) kind (t ∷ ledger) ≡ true
unfolding is_taken
taken_again order kind t ledger o k = rw (o, k) (ground arith)

accrued-taken :
    (c order : ℕ) (amount : ℤ) (rows rows' : Rows)
    → is_positive amount ≡ true
    → accrue_for_order c order amount rows ≡ ok rows'
    → is_taken (some order) earn rows'.ledger ≡ true
unfolding accrue_for_order post posted
accrued-taken c order amount rows rows' earns first =
    elim (Option-cases (find_account c rows.accounts)) [
      | inl missing ↦ absurd (let k = rw (earns, missing) at first in cc)
      | inr (a, f) ↦ elim (Bool-cases (is_taken (some order) earn rows.ledger)) [
        | inl taken ↦
            let k : ok rows ≡ ok rows' = rw (earns, f, taken) at first in
            let e : rows ≡ rows' = cc in
            ap (λ r. is_taken (some order) earn r.ledger) (sym e) ∙ taken
        | inr fresh ↦
            let k : ok (posted a (entry a earn (some order) amount) rows) ≡ ok rows' =
              rw (earns, f, fresh) at first in
            let e : posted a (entry a earn (some order) amount) rows ≡ rows' = cc in
            ap (λ r. is_taken (some order) earn r.ledger) (sym e)
            ∙ taken_again order earn (entry a earn (some order) amount) rows.ledger refl refl
      ]
    ]

-- An order earns its bonuses once: after an accrual that found an account, any further accrual for the
-- order, of any amount and to any customer that has an account, changes nothing.
pub accrue_for_order-once :
    (c k order : ℕ) (amount more : ℤ) (rows rows' : Rows) (b : LoyaltyAccount)
    → is_positive amount ≡ true
    → accrue_for_order c order amount rows ≡ ok rows'
    → find_account k rows'.accounts ≡ some b
    → accrue_for_order k order more rows' ≡ ok rows'
unfolding accrue_for_order post
accrue_for_order-once c k order amount more rows rows' b earns first there =
    let taken = accrued-taken c order amount rows rows' earns first in
    elim (Bool-cases (is_positive more)) [
      | inr nothing ↦ rw nothing refl
      | inl again ↦ rw (again, there) (rw taken refl)
    ]
