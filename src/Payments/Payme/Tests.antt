-- ===== src/Payments/Payme/Tests.antt =====
-- Requests of Payme for a payment of 1500 so'm.
use muzael.Common.{◌≡◌, ◌↔◌, ◌≤◌, ◌<◌, ◌+◌, ◌*◌, refl, [], ◌∷◌, none, some}
use muzael.Payments.Intent.{paid}
use muzael.Payments.Service.{Payment, World, mismatches}
use muzael.Payments.Payme.{
  PaymeMethod, perform_transaction, cancel_transaction, PaymeRpc, handle, tiyin_per_som, decimal,
  digits,
}
use muzael.Payments.Payme.Amounts.{perform-accepts_iff}

abbrev request : PaymeMethod → PaymeRpc
request method = record {
  method = method;
  params = record {
    id = some 77;
    amount = some 150000;
    time = 0;
    reason = some 5;
    account = some (record { payment_id = some 1; order_id = none });
  };
  id = some 9;
  authorization = none;
}

abbrev payment : Payment
payment = record {
  id = 1;
  order_id = none;
  booking_id = none;
  state = paid;
  amount = 1500;
  external_id = none;
  paid_at = none;
  failure_reason = none;
  refunded_amount = 0;
}

abbrev world : World
world = record {
  db = record {
    payments = payment ∷ [];
    orders = [];
    bookings = [];
    transactions = [];
    events = [];
    processed = [];
  };
  audit = [];
}

key_of_cancel : (handle 5 (request cancel_transaction)).idempotency_key ≡ "payme:cancel:77:5"
unfolding handle decimal digits
key_of_cancel = refl

perform-accepts_iff_example :
    (mismatches (handle 5 (request perform_transaction)).intent payment ≡ none)
    ↔ ((tiyin_per_som * 1500 ≤ 150000 + 50) × (150000 < tiyin_per_som * 1500 + 50))
perform-accepts_iff_example =
    perform-accepts_iff 5 150000 (request perform_transaction) payment refl refl
