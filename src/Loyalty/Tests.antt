-- ===== src/Loyalty/Tests.antt =====
-- A customer with a balance of 300, earned in one order and spent in the next.
use muzael.Common.{◌≡◌, refl, List, [], ◌∷◌, none, some}
use muzael.Common.Int.{pos, negsuc, ◌+ℤ◌, neg}
use muzael.Shared.Errors.{ok, err, insufficient_loyalty_balance}
use muzael.Loyalty.{
  LoyaltyAccount, LoyaltyTransaction, Customer, Rows, TransactionType, adjustment, earned,
  find_account, Operation, adjusts, accrues, spends, accrue_for_order, spend_loyalty, posted, post,
  is_taken, put_account, put_balance,
}
use muzael.Loyalty.Accrual.{accrue_for_order-once}

abbrev account : LoyaltyAccount
account = record { customer_id = 4; balance = pos 300; lifetime_earned = 300; lifetime_spent = 0 }

abbrev customer : Customer
customer = record { id = 4; loyalty_balance = pos 300 }

abbrev gift : LoyaltyTransaction
gift = record {
  customer_id = 4;
  order_id = none;
  kind = adjustment;
  amount = pos 300;
  balance_after = pos 300;
}

abbrev rows : Rows
rows = record {
  accounts = account ∷ [];
  ledger = gift ∷ [];
  customers = customer ∷ [];
  events = [];
}

overspent : spend_loyalty 4 8 301 rows ≡ err insufficient_loyalty_balance
unfolding spend_loyalty find_account ◌+ℤ◌ neg
overspent = refl

abbrev operations : List Operation
operations =
    accrues 4 7 (pos 50) ∷ accrues 4 7 (pos 50) ∷ spends 4 8 320 ∷ adjusts 4 (negsuc 99) ∷ []

abbrev rows_after : Rows
rows_after = record {
  accounts =
      record { customer_id = 4; balance = pos 350; lifetime_earned = 350; lifetime_spent = 0 } ∷ [];
  ledger =
      record {
        customer_id = 4;
        order_id = some 7;
        kind = TransactionType.earn;
        amount = pos 50;
        balance_after = pos 350;
      }
      ∷ gift
      ∷ [];
  customers = record { id = 4; loyalty_balance = pos 350 } ∷ [];
  events = earned 4 (pos 50) (pos 350) ∷ [];
}

accrued : accrue_for_order 4 7 (pos 50) rows ≡ ok rows_after
unfolding accrue_for_order find_account post posted is_taken put_account put_balance ◌+ℤ◌
accrued = refl

found_after :
    find_account 4 rows_after.accounts
    ≡ some
        (record { customer_id = 4; balance = pos 350; lifetime_earned = 350; lifetime_spent = 0 })
unfolding find_account
found_after = refl

accrue_for_order-once_example : accrue_for_order 4 7 (pos 60) rows_after ≡ ok rows_after
accrue_for_order-once_example =
    accrue_for_order-once 4 4 7 (pos 50) (pos 60) rows rows_after _ refl accrued found_after
