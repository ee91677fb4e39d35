-- ===== src/Payments/Service.antt =====
-- apps/api/src/modules/payments/payments.service.ts: applying an intent inside a transaction. A
-- transaction body returns or throws with the rows as it has left them; only what it returns is
-- committed. Audit entries go past the transaction and stay.
pub mod Machine
pub mod History
pub mod Announcements
mod Tests
use Prim.Native.String.{String}
use muzael.Common.{
  ℕ, ◌+◌, Bool, true, false, not, Option, none, some, List, [], ◌∷◌, ◌==◌, leb, if◌then◌else◌,
}
use muzael.Shared.Errors.{
  ErrorCode, payment_not_found, payment_amount_mismatch, payment_already_finalized, not_found,
}
use muzael.Payments.Intent.{
  NormalizedIntent, mark_paid, mark_failed, mark_cancelled, mark_refunded, noop, PaymentState,
  pending, paid, failed, refunded, same_state, allows, state_for,
}
use muzael.Statuses.{OrderStatus, BookingStatus, PaymentStatus}
use muzael.Payments.Json.{Json}

pub record Payment : Type 0 where
  pub id : ℕ
  pub order_id : Option ℕ
  pub booking_id : Option ℕ
  pub state : PaymentState
  pub amount : ℕ
  pub external_id : Option String
  pub paid_at : Option ℕ
  pub failure_reason : Option String
  pub refunded_amount : ℕ

pub record Order : Type 0 where
  pub id : ℕ
  pub status : OrderStatus
  pub payment_status : PaymentStatus
  pub total : ℕ
  pub accepted_at : Option ℕ

pub record Booking : Type 0 where
  pub id : ℕ
  pub status : BookingStatus
  pub payment_status : PaymentStatus
  pub confirmed_at : Option ℕ

pub record PaymentTransaction : Type 0 where
  pub payment_id : ℕ
  pub intent : NormalizedIntent

pub data Event : Type 0 where
  payment_succeeded payment_failed : ℕ → Event
  payment_refunded : ℕ → ℕ → Event

pub record ProcessedWebhook : Type 0 where
  pub source : String
  pub key : String
  pub response : Json

pub record Db : Type 0 where
  pub payments : List Payment
  pub orders : List Order
  pub bookings : List Booking
  pub transactions : List PaymentTransaction
  pub events : List Event
  pub processed : List ProcessedWebhook

pub data Audit : Type 0 where
  amount_mismatch : ℕ → ℕ → ℕ → Audit
  signature_invalid cash_received : ℕ → Audit

pub record World : Type 0 where
  pub db : Db
  pub audit : List Audit

pub data Body : Type 0 where
  returns : World → Body
  throws : ErrorCode → World → Body

-- `$transaction`: a body that throws is rolled back, audit entries apart.
abbrev pub transaction : World → Body → World × Option ErrorCode
transaction w (returns w') = (w', none)
transaction w (throws e w') = (record w { audit = w'.audit }, some e)

unfoldable pub find_payment : ℕ → List Payment → Option Payment
find_payment id [] = none
find_payment id (p ∷ ps) = if p.id == id then some p else find_payment id ps

-- `update` by primary key. A row that a foreign key names is there.
pub put_payment : Payment → List Payment → List Payment
put_payment q [] = []
put_payment q (p ∷ ps) = if p.id == q.id then q ∷ ps else p ∷ put_payment q ps

pub update_order : Option ℕ → (Order → Order) → List Order → List Order
update_order none f os = os
update_order (some id) f [] = []
update_order (some id) f (o ∷ os) = if o.id == id then f o ∷ os else o ∷ update_order (some id) f os

pub update_booking : Option ℕ → (Booking → Booking) → List Booking → List Booking
update_booking none f bs = bs
update_booking (some id) f [] = []
update_booking (some id) f (b ∷ bs) =
    if b.id == id then f b ∷ bs else b ∷ update_booking (some id) f bs

abbrev or_else : Option String → Option String → Option String
or_else none old = old
or_else (some x) old = some x

-- The `data` of the update that an allowed intent makes.
abbrev pub moved : Payment → PaymentState → NormalizedIntent → Payment
moved p next (mark_paid external amount paid_at) = record p {
  state = next;
  external_id = some external;
  paid_at = some paid_at;
}
moved p next (mark_failed external reason) = record p {
  state = next;
  external_id = or_else external p.external_id;
  failure_reason = some reason;
}
moved p next (mark_cancelled external reason) = record p {
  state = next;
  external_id = or_else external p.external_id;
}
moved p next (mark_refunded external amount) = record p {
  state = next;
  external_id = some external;
  refunded_amount = amount;
}
moved p next (noop reason) = record p { state = next }

-- What follows the update, by the kind of the intent.
abbrev pub side_effects : ℕ → Payment → NormalizedIntent → Db → Db
side_effects now p (mark_paid _ _ _) db = record db {
  orders =
      update_order p.order_id
        (λ o. record o {
          payment_status = PaymentStatus.paid;
          status = OrderStatus.accepted;
          accepted_at = some now;
        })
        db.orders;
  bookings =
      update_booking p.booking_id
        (λ b. record b {
          payment_status = PaymentStatus.paid;
          status = BookingStatus.confirmed;
          confirmed_at = some now;
        })
        db.bookings;
  events = payment_succeeded p.id ∷ db.events;
}
side_effects now p (mark_failed _ _) db = record db {
  orders =
      update_order p.order_id (λ o. record o { payment_status = PaymentStatus.failed }) db.orders;
  events = payment_failed p.id ∷ db.events;
}
side_effects now p (mark_cancelled _ _) db = record db {
  orders =
      update_order p.order_id (λ o. record o { payment_status = PaymentStatus.failed }) db.orders;
  events = payment_failed p.id ∷ db.events;
}
side_effects now p (mark_refunded _ amount) db = record db {
  orders =
      update_order p.order_id
        (λ o. record o {
          payment_status =
              if leb p.amount amount
              then PaymentStatus.refunded
              else PaymentStatus.partially_refunded;
        })
        db.orders;
  events = payment_refunded p.id amount ∷ db.events;
}
side_effects now p (noop _) db = db

-- `intent.kind === 'mark_paid' && intent.amount !== payment.amount`.
abbrev pub mismatches : NormalizedIntent → Payment → Option ℕ
mismatches (mark_paid _ amount _) p = if amount == p.amount then none else some amount
mismatches _ p = none

-- The writes of an allowed intent.
unfoldable pub settle : ℕ → Payment → PaymentState → NormalizedIntent → Db → Db
settle now p next intent db = side_effects now p intent (record db {
  payments = put_payment (moved p next intent) db.payments;
  transactions = record { payment_id = p.id; intent = intent } ∷ db.transactions;
})

-- An amount mismatch: the payment is written as failed, audited, and then the body throws.
unfoldable pub reject_amount : Payment → ℕ → World → Body
reject_amount p received w = throws payment_amount_mismatch (record {
  db = record w.db {
    payments =
        put_payment (record p { state = failed; failure_reason = some "Amount mismatch" })
          w.db.payments;
  };
  audit = amount_mismatch p.id p.amount received ∷ w.audit;
})

-- The guards on a payment that was found, for an intent with a next state.
unfoldable pub advance : ℕ → Payment → PaymentState → NormalizedIntent → World → Body
advance now p next intent w =
    if same_state p.state next
    then returns w
    else if not (allows p.state next)
    then returns w
    else elim (mismatches intent p) [
      | some received ↦ reject_amount p received w
      | none ↦ returns (record w { db = settle now p next intent w.db })
    ]

abbrev pub advance_to : ℕ → Payment → Option PaymentState → NormalizedIntent → World → Body
advance_to now p none intent w = returns w
advance_to now p (some next) intent w = advance now p next intent w

abbrev pub apply_found : ℕ → Option Payment → NormalizedIntent → World → Body
apply_found now none intent w = throws payment_not_found w
apply_found now (some p) intent w = advance_to now p (state_for intent) intent w

unfoldable pub apply_intent_in_transaction : ℕ → ℕ → NormalizedIntent → World → Body
apply_intent_in_transaction now id intent w =
    apply_found now (find_payment id w.db.payments) intent w

-- `applyIntent`.
unfoldable pub apply_intent : ℕ → ℕ → NormalizedIntent → World → World × Option ErrorCode
apply_intent now id intent w = transaction w (apply_intent_in_transaction now id intent w)
