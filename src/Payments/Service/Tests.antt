-- ===== src/Payments/Service/Tests.antt =====
-- A payment of an order: paid, announced twice, and refunded.
use Prim.Native.String.{String}
use muzael.Common.{ℕ, ◌≡◌, ◌≢◌, ◌⊎◌, refl, List, [], ◌∷◌, none, some, sum_by}
use muzael.Shared.Errors.{payment_amount_mismatch}
use muzael.Statuses.{OrderStatus, PaymentStatus}
use muzael.Payments.Intent.{
  NormalizedIntent, mark_paid, mark_refunded, pending, processing, paid, refunded, allows,
}
use muzael.Payments.Service.{
  Payment, Order, World, Event, find_payment, apply_intent, apply_intent_in_transaction, advance,
  reject_amount, settle, put_payment,
}
use muzael.Payments.Service.Announcements.{
  Call, apply_all, IsAnnounced, apply_all-IsAnnounced, apply_intent-paid,
}

abbrev pub payment : Payment
payment = record {
  id = 1;
  order_id = some 7;
  booking_id = none;
  state = pending;
  amount = 150000;
  external_id = none;
  paid_at = none;
  failure_reason = none;
  refunded_amount = 0;
}

abbrev paid_payment : Payment
paid_payment = record payment { state = paid; external_id = some "trx"; paid_at = some 40 }

abbrev refunded_payment : Payment
refunded_payment = record paid_payment { state = refunded; refunded_amount = 150000 }

abbrev order : Order
order = record {
  id = 7;
  status = OrderStatus.new;
  payment_status = PaymentStatus.unpaid;
  total = 150000;
  accepted_at = none;
}

abbrev world_of : Payment → List Event → World
world_of p events = record {
  db = record {
    payments = p ∷ [];
    orders = order ∷ [];
    bookings = [];
    transactions = [];
    events = events;
    processed = [];
  };
  audit = [];
}

abbrev pub world : World
world = world_of payment []

abbrev pay : NormalizedIntent
pay = mark_paid "trx" 150000 40

abbrev refund : NormalizedIntent
refund = mark_refunded "trx" 150000

abbrev underpay : NormalizedIntent
underpay = mark_paid "trx" 1500 40

rejected : (apply_intent 50 1 underpay world).1 ≡ some payment_amount_mismatch
unfolding apply_intent apply_intent_in_transaction advance find_payment allows reject_amount
rejected = refl

now_paid : find_payment 1 (apply_intent 50 1 pay world).0.db.payments ≡ some paid_payment
unfolding apply_intent apply_intent_in_transaction advance find_payment allows settle put_payment
now_paid = refl

found : find_payment 1 world.db.payments ≡ some payment
unfolding find_payment
found = refl

abbrev calls : List Call
calls =
    record { now = 50; id = 1; intent = underpay }
    ∷ record { now = 60; id = 1; intent = pay }
    ∷ record { now = 70; id = 1; intent = pay }
    ∷ record { now = 80; id = 1; intent = refund }
    ∷ []

world-IsAnnounced : IsAnnounced 1 world
unfolding IsAnnounced find_payment sum_by
world-IsAnnounced = (payment, refl, refl)

apply_all-IsAnnounced_example : IsAnnounced 1 (apply_all calls world)
apply_all-IsAnnounced_example = apply_all-IsAnnounced calls 1 world world-IsAnnounced

abbrev closed_world : World
closed_world = world_of refunded_payment []

unpaid : payment.state ≢ paid
unpaid e = cc

apply_intent-paid_example :
    ((external : String) × (paid_at : ℕ) × (pay ≡ mark_paid external 150000 paid_at))
    × ((pending ≡ pending) ⊎ (pending ≡ processing))
apply_intent-paid_example =
    apply_intent-paid 50 1 pay world payment paid_payment found now_paid unpaid refl
