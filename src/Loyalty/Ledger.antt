-- ===== src/Loyalty/Ledger.antt =====
-- apps/api/src/modules/loyalty/loyalty.service.ts: the balance as a projection of the ledger.
use muzael.Common.{
  ℕ, ◌+◌, ◌≡◌, ◌≢◌, refl, sym, ap, ◌∙◌, false, Option, none, some, List, [], ◌∷◌, ◌==◌, sum_by,
  arith, if◌then◌else◌,
}
use muzael.Common.Int.{ℤ, pos, pos_part, neg_part, ◌+ℤ◌}
use muzael.Loyalty.{
  LoyaltyAccount, TransactionType, LoyaltyTransaction, Customer, Rows, find_account, put_account,
  find_customer, put_balance, moved, posted, entry, is_negative,
}

-- What the ledger gave a customer, and what it took.
abbrev pub credit : ℕ → LoyaltyTransaction → ℕ
credit c t = if t.customer_id == c then pos_part t.amount else 0

abbrev pub debit : ℕ → LoyaltyTransaction → ℕ
debit c t = if t.customer_id == c then neg_part t.amount else 0

-- The account of a customer agrees with the ledger, and the customer's row with the account.
pub record IsReconciled (c : ℕ) (rows : Rows) : Type 0 where
  pub account : LoyaltyAccount
  pub at : find_account c rows.accounts ≡ some account
  pub balance : ℕ
  pub not_negative : account.balance ≡ pos balance
  pub sums : balance + sum_by (debit c) rows.ledger ≡ sum_by (credit c) rows.ledger
  pub earned : account.lifetime_earned ≡ sum_by (credit c) rows.ledger
  pub spent : account.lifetime_spent ≡ sum_by (debit c) rows.ledger
  pub customer : Customer
  pub copy_at : find_customer c rows.customers ≡ some customer
  pub copied : customer.loyalty_balance ≡ account.balance

find-put :
    (b : LoyaltyAccount) (accounts : List LoyaltyAccount) (c : ℕ)
    → find_account c (put_account b accounts) ≡ elim (find_account c accounts) [
      | none ↦ none
      | some a ↦ if b.customer_id == c then some b else some a
    ]
unfolding find_account put_account
find-put b [] c = refl
find-put b (a ∷ rest) c = ground (arith, find-put b rest c)

find-put_balance :
    (k : ℕ) (balance : ℤ) (customers : List Customer) (c : ℕ)
    → find_customer c (put_balance k balance customers) ≡ elim (find_customer c customers) [
      | none ↦ none
      | some a ↦ if k == c then some (record a { loyalty_balance = balance }) else some a
    ]
unfolding find_customer put_balance
find-put_balance k balance [] c = refl
find-put_balance k balance (a ∷ rest) c = ground (arith, find-put_balance k balance rest c)

pub find_account-id :
    (c : ℕ) (accounts : List LoyaltyAccount) (a : LoyaltyAccount)
    → find_account c accounts ≡ some a
    → a.customer_id ≡ c
unfolding find_account
find_account-id c [] a h = cc
find_account-id c (x ∷ rest) a h = ground (arith, find_account-id c rest a)

sum_parts :
    (n : ℕ) (amount total : ℤ)
    → total ≡ pos n +ℤ amount
    → is_negative total ≡ false
    → (total ≡ pos (pos_part total)) × (pos_part total + neg_part amount ≡ n + pos_part amount)
unfolding ◌+ℤ◌
sum_parts n amount total e fine = ground arith

-- A row of the ledger for an account, with a balance that stays above zero.
pub posted-same :
    (c : ℕ) (a : LoyaltyAccount) (kind : TransactionType) (order : Option ℕ) (amount : ℤ)
    (rows : Rows)
    → find_account c rows.accounts ≡ some a
    → is_negative (a.balance +ℤ amount) ≡ false
    → IsReconciled c rows
    → IsReconciled c (posted a (entry a kind order amount) rows)
unfolding posted
posted-same c a kind order amount rows f fine r =
    let same : some a ≡ some r.account = sym f ∙ r.at in
    let is_a : a ≡ r.account = cc in
    let held : a.balance ≡ pos r.balance = ap (λ x. x.balance) is_a ∙ r.not_negative in
    let own : a.customer_id ≡ c = find_account-id c rows.accounts a f in
    let parts = sum_parts r.balance amount (a.balance +ℤ amount) (rw held refl) fine in
    record {
      account = moved a amount (a.balance +ℤ amount);
      at =
          find-put (moved a amount (a.balance +ℤ amount)) rows.accounts c
          ∙ rw f (ground (arith, own));
      balance = pos_part (a.balance +ℤ amount);
      not_negative = parts.0;
      sums = ground (arith, own, parts.1, r.sums);
      earned = ground (arith, own, r.earned, ap (λ x. x.lifetime_earned) is_a);
      spent = ground (arith, own, r.spent, ap (λ x. x.lifetime_spent) is_a);
      customer = record r.customer { loyalty_balance = a.balance +ℤ amount };
      copy_at =
          find-put_balance a.customer_id (a.balance +ℤ amount) rows.customers c
          ∙ rw r.copy_at (ground (arith, own));
      copied = refl;
    }

pub posted-other :
    (c k : ℕ) (a : LoyaltyAccount) (t : LoyaltyTransaction) (rows : Rows)
    → find_account k rows.accounts ≡ some a
    → t.customer_id ≡ k
    → c ≢ k
    → IsReconciled c rows
    → IsReconciled c (posted a t rows)
unfolding posted
posted-other c k a t rows f own away r = record {
  account = r.account;
  at =
      find-put (moved a t.amount t.balance_after) rows.accounts c
      ∙ rw r.at (ground (arith, find_account-id k rows.accounts a f));
  balance = r.balance;
  not_negative = r.not_negative;
  sums = ground (arith, r.sums);
  earned = ground (arith, r.earned);
  spent = ground (arith, r.spent);
  customer = r.customer;
  copy_at =
      find-put_balance a.customer_id t.balance_after rows.customers c
      ∙ rw r.copy_at (ground (arith, find_account-id k rows.accounts a f));
  copied = r.copied;
}
