-- ===== src/Loyalty.antt =====
-- apps/api/src/modules/loyalty/loyalty.service.ts, and `spendLoyalty` of
-- apps/api/src/modules/orders/orders.service.ts: the bonuses of the customers of one tenant. An account
-- is named by its customer, which is unique. Every operation runs inside a transaction on a locked
-- account, so it is a function of the rows that it finds.
pub mod Ledger
pub mod History
pub mod Accrual
mod Tests
use muzael.Common.{
  ℕ, zero, suc, ◌+◌, Bool, true, false, ◌&&◌, not, Option, none, some, List, [], ◌∷◌, any, ◌==◌,
  leb, ltb, if◌then◌else◌,
}
use muzael.Common.Int.{ℤ, pos, negsuc, pos_part, neg_part, ◌+ℤ◌, neg}
use muzael.Shared.Errors.{
  Result, ok, err, ErrorCode, validation_failed, insufficient_loyalty_balance, not_found, conflict,
}

pub record LoyaltyAccount : Type 0 where
  pub customer_id : ℕ
  pub balance : ℤ
  pub lifetime_earned : ℕ
  pub lifetime_spent : ℕ

pub data TransactionType : Type 0 where
  earn spend adjustment expire refund : TransactionType

pub record LoyaltyTransaction : Type 0 where
  pub customer_id : ℕ
  pub order_id : Option ℕ
  pub kind : TransactionType
  pub amount : ℤ
  pub balance_after : ℤ

pub record Customer : Type 0 where
  pub id : ℕ
  pub loyalty_balance : ℤ

-- `LOYALTY_EARNED` and `LOYALTY_SPENT`, with the customer, the amount and the new balance.
pub data LoyaltyEvent : Type 0 where
  earned spent : ℕ → ℤ → ℤ → LoyaltyEvent

pub record Rows : Type 0 where
  pub accounts : List LoyaltyAccount
  pub ledger : List LoyaltyTransaction
  pub customers : List Customer
  pub events : List LoyaltyEvent

-- `loadAccountForUpdate`.
pub find_account : ℕ → List LoyaltyAccount → Option LoyaltyAccount
find_account c [] = none
find_account c (a ∷ rest) = if a.customer_id == c then some a else find_account c rest

pub put_account : LoyaltyAccount → List LoyaltyAccount → List LoyaltyAccount
put_account b [] = []
put_account b (a ∷ rest) =
    if a.customer_id == b.customer_id then b ∷ rest else a ∷ put_account b rest

pub find_customer : ℕ → List Customer → Option Customer
find_customer c [] = none
find_customer c (k ∷ ks) = if k.id == c then some k else find_customer c ks

pub put_balance : ℕ → ℤ → List Customer → List Customer
put_balance c balance [] = []
put_balance c balance (k ∷ ks) =
    if k.id == c then record k { loyalty_balance = balance } ∷ ks else k ∷ put_balance c balance ks

-- The strings of the types differ exactly where these numbers do.
abbrev pub type_place : TransactionType → ℕ
type_place earn = 0
type_place spend = 1
type_place adjustment = 2
type_place expire = 3
type_place refund = 4

abbrev pub is_for : Option ℕ → ℕ → Bool
is_for none order = false
is_for (some other) order = other == order

-- Whether the unique pair of order and type is taken; rows without an order never collide.
pub is_taken : Option ℕ → TransactionType → List LoyaltyTransaction → Bool
is_taken none kind ledger = false
is_taken (some order) kind ledger =
    any (λ t. is_for t.order_id order && (type_place t.kind == type_place kind)) ledger

-- `amount > 0 ? { lifetimeEarned } : { lifetimeSpent }`, with the new balance.
abbrev pub moved : LoyaltyAccount → ℤ → ℤ → LoyaltyAccount
moved a amount balance_after = record a {
  balance = balance_after;
  lifetime_earned = a.lifetime_earned + pos_part amount;
  lifetime_spent = a.lifetime_spent + neg_part amount;
}

abbrev pub announce : LoyaltyTransaction → List LoyaltyEvent → List LoyaltyEvent
announce t events = elim t.kind [
  | earn ↦ earned t.customer_id t.amount t.balance_after ∷ events
  | spend ↦ spent t.customer_id t.amount t.balance_after ∷ events
  | _ ↦ events
]

-- The ledger row, the account and the customer's copy, together.
unfoldable pub posted : LoyaltyAccount → LoyaltyTransaction → Rows → Rows
posted a t rows = record {
  accounts = put_account (moved a t.amount t.balance_after) rows.accounts;
  ledger = t ∷ rows.ledger;
  customers = put_balance a.customer_id t.balance_after rows.customers;
  events = announce t rows.events;
}

-- `post`; none where the ledger row violates the unique pair.
unfoldable pub post : LoyaltyAccount → LoyaltyTransaction → Rows → Option Rows
post a t rows = if is_taken t.order_id t.kind rows.ledger then none else some (posted a t rows)

abbrev pub entry : LoyaltyAccount → TransactionType → Option ℕ → ℤ → LoyaltyTransaction
entry a kind order amount = record {
  customer_id = a.customer_id;
  order_id = order;
  kind = kind;
  amount = amount;
  balance_after = a.balance +ℤ amount;
}

abbrev pub is_negative : ℤ → Bool
is_negative (pos n) = false
is_negative (negsuc n) = true

abbrev pub is_positive : ℤ → Bool
is_positive (pos n) = ltb 0 n
is_positive (negsuc n) = false

abbrev pub is_zero : ℤ → Bool
is_zero (pos n) = n == 0
is_zero (negsuc n) = false

-- A unique violation that the caller catches, and one that it does not.
abbrev pub or_ignored : Rows → Option Rows → Result Rows
or_ignored rows none = ok rows
or_ignored rows (some rows') = ok rows'

abbrev pub or_conflict : Option Rows → Result Rows
or_conflict none = err conflict
or_conflict (some rows') = ok rows'

abbrev pub adjust_account : Option LoyaltyAccount → ℤ → Rows → Result Rows
adjust_account none amount rows = err not_found
adjust_account (some a) amount rows =
    if is_negative (a.balance +ℤ amount)
    then err insufficient_loyalty_balance
    else or_conflict (post a (entry a adjustment none amount) rows)

-- `adjust`.
unfoldable pub adjust : ℕ → ℤ → Rows → Result Rows
adjust c amount rows =
    if is_zero amount
    then err validation_failed
    else adjust_account (find_account c rows.accounts) amount rows

abbrev pub credit_account : TransactionType → Option LoyaltyAccount → ℕ → ℤ → Rows → Result Rows
credit_account kind none order amount rows = err not_found
credit_account kind (some a) order amount rows =
    or_ignored rows (post a (entry a kind (some order) amount) rows)

-- `accrueForOrder` and `refundForOrder`.
unfoldable pub accrue_for_order : ℕ → ℕ → ℤ → Rows → Result Rows
accrue_for_order c order amount rows =
    if is_positive amount
    then credit_account earn (find_account c rows.accounts) order amount rows
    else ok rows

unfoldable pub refund_for_order : ℕ → ℕ → ℤ → Rows → Result Rows
refund_for_order c order amount rows =
    if is_positive amount
    then credit_account refund (find_account c rows.accounts) order amount rows
    else ok rows

abbrev pub spend_account : Option LoyaltyAccount → ℕ → ℕ → Rows → Result Rows
spend_account none order amount rows = err insufficient_loyalty_balance
spend_account (some a) order amount rows =
    if is_negative (a.balance +ℤ neg (pos amount))
    then err insufficient_loyalty_balance
    else or_conflict (post a (entry a spend (some order) (neg (pos amount))) rows)

-- `spendLoyalty`, which writes the rows itself.
unfoldable pub spend_loyalty : ℕ → ℕ → ℕ → Rows → Result Rows
spend_loyalty c order amount rows = spend_account (find_account c rows.accounts) order amount rows

-- The operations, in the order in which their transactions commit.
pub data Operation : Type 0 where
  adjusts : ℕ → ℤ → Operation
  accrues refunds : ℕ → ℕ → ℤ → Operation
  spends : ℕ → ℕ → ℕ → Operation

abbrev pub run : Operation → Rows → Result Rows
run (adjusts c amount) rows = adjust c amount rows
run (accrues c order amount) rows = accrue_for_order c order amount rows
run (refunds c order amount) rows = refund_for_order c order amount rows
run (spends c order amount) rows = spend_loyalty c order amount rows

abbrev pub or_kept : Rows → Result Rows → Rows
or_kept rows (err code) = rows
or_kept rows (ok rows') = rows'

pub run_all : List Operation → Rows → Rows
run_all [] rows = rows
run_all (o ∷ os) rows = run_all os (or_kept rows (run o rows))
