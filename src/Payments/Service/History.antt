-- ===== src/Payments/Service/History.antt =====
-- apps/api/src/modules/payments/payments.service.ts: what an intent leaves of the payments, and the
-- same intent again.
use muzael.Common.{ℕ, ◌≡◌, ◌≢◌, ◌∙◌, ap, false, inl, inr, none, some, arith, Bool-cases}
use muzael.Payments.Intent.{NormalizedIntent, PaymentState, same_state, allows, state_for}
use muzael.Payments.Service.{
  Payment, Db, World, find_payment, moved, settle, apply_intent, apply_intent_in_transaction,
  advance,
}
use muzael.Payments.Service.Machine.{
  find-put, find_payment-id, moved-state, side_effects-payments, same_state-eq,
}

-- After a settled intent the payment is the moved one.
pub find-settle :
    (now id : ℕ) (p : Payment) (next : PaymentState) (intent : NormalizedIntent) (db : Db)
    → find_payment id db.payments ≡ some p
    → find_payment id (settle now p next intent db).payments ≡ some (moved p next intent)
unfolding settle
find-settle now id p next intent db f =
    ap (find_payment id) (side_effects-payments now p intent _)
    ∙ find-put (moved p next intent) db.payments id
    ∙ rw f (ground (arith, (moved-state p next intent).1, find_payment-id id db.payments p f))

pub find-settle_other :
    (now id other : ℕ) (p : Payment) (next : PaymentState) (intent : NormalizedIntent) (db : Db)
    → find_payment other db.payments ≡ some p
    → id ≢ other
    → find_payment id (settle now p next intent db).payments ≡ find_payment id db.payments
unfolding settle
find-settle_other now id other p next intent db f ne =
    ap (find_payment id) (side_effects-payments now p intent _)
    ∙ find-put (moved p next intent) db.payments id
    ∙ ground (arith, (moved-state p next intent).1, find_payment-id other db.payments p f, ne)

pub stuck :
    (later id : ℕ) (intent : NormalizedIntent) (w : World) (p : Payment) (next : PaymentState)
    → find_payment id w.db.payments ≡ some p
    → state_for intent ≡ some next
    → p.state ≢ next
    → allows p.state next ≡ false
    → apply_intent later id intent w ≡ (w, none)
unfolding apply_intent apply_intent_in_transaction advance
stuck later id intent w p next f s ne refused = elim (Bool-cases (same_state p.state next)) [
  | inl same ↦ absurd (ne (same_state-eq p.state next same))
  | inr other ↦ rw (f, s) (rw (other, refused))
]
