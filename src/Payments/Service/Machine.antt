-- ===== src/Payments/Service/Machine.antt =====
-- apps/api/src/modules/payments/payments.service.ts: the outcomes of one intent.
use muzael.Common.{
  ℕ, ◌≡◌, ◌≢◌, refl, true, false, inl, inr, Option, none, some, List, [], ◌∷◌, arith, ◌==◌,
  if◌then◌else◌, Option-cases, Bool-cases,
}
use muzael.Shared.Errors.{ErrorCode, payment_not_found, payment_amount_mismatch}
use muzael.Payments.Intent.{
  NormalizedIntent, mark_paid, mark_failed, mark_cancelled, mark_refunded, noop, PaymentState,
  pending, paid, same_state, allows, state_for,
}
use muzael.Payments.Service.{
  Payment, Db, World, transaction, find_payment, put_payment, moved, side_effects, mismatches,
  settle, reject_amount, advance, apply_intent_in_transaction, apply_intent, amount_mismatch,
}

pub find-put :
    (q : Payment) (ps : List Payment) (id : ℕ)
    → find_payment id (put_payment q ps)
      ≡ elim (find_payment id ps) [ none ↦ none | some p ↦ if q.id == id then some q else some p ]
unfolding find_payment put_payment
find-put q [] id = refl
find-put q (p ∷ ps) id = ground (arith, find-put q ps id)

pub find_payment-id :
    (id : ℕ) (ps : List Payment) (p : Payment) → find_payment id ps ≡ some p → p.id ≡ id
unfolding find_payment
find_payment-id id [] p h = cc
find_payment-id id (x ∷ xs) p h = ground (arith, find_payment-id id xs p)

pub same_state-eq : (a b : PaymentState) → same_state a b ≡ true → a ≡ b
same_state-eq a b h = ground arith

pub moved-state :
    (p : Payment) (next : PaymentState) (intent : NormalizedIntent)
    → ((moved p next intent).state ≡ next)
      × ((moved p next intent).id ≡ p.id)
      × ((moved p next intent).amount ≡ p.amount)
moved-state p next (mark_paid _ _ _) = (refl, refl, refl)
moved-state p next (mark_failed _ _) = (refl, refl, refl)
moved-state p next (mark_cancelled _ _) = (refl, refl, refl)
moved-state p next (mark_refunded _ _) = (refl, refl, refl)
moved-state p next (noop _) = (refl, refl, refl)

pub side_effects-payments :
    (now : ℕ) (p : Payment) (intent : NormalizedIntent) (db : Db)
    → (side_effects now p intent db).payments ≡ db.payments
side_effects-payments now p (mark_paid _ _ _) db = refl
side_effects-payments now p (mark_failed _ _) db = refl
side_effects-payments now p (mark_cancelled _ _) db = refl
side_effects-payments now p (mark_refunded _ _) db = refl
side_effects-payments now p (noop _) db = refl

-- The outcomes of an intent, one constructor for each.
pub data Applied (now id : ℕ) (intent : NormalizedIntent) (w : World)
    : World × Option ErrorCode → Type 0 where
  unknown :
      find_payment id w.db.payments ≡ none → Applied now id intent w (w, some payment_not_found)
  no_state :
      (p : Payment)
      → find_payment id w.db.payments ≡ some p
      → state_for intent ≡ none
      → Applied now id intent w (w, none)
  already :
      (p : Payment)
      → find_payment id w.db.payments ≡ some p
      → state_for intent ≡ some p.state
      → Applied now id intent w (w, none)
  not_allowed :
      (p : Payment) (next : PaymentState)
      → find_payment id w.db.payments ≡ some p
      → state_for intent ≡ some next
      → p.state ≢ next
      → allows p.state next ≡ false
      → Applied now id intent w (w, none)
  mismatch :
      (p : Payment) (received : ℕ)
      → find_payment id w.db.payments ≡ some p
      → mismatches intent p ≡ some received
      → allows p.state paid ≡ true
      → Applied now id intent w (
        record w { audit = amount_mismatch p.id p.amount received ∷ w.audit },
        some payment_amount_mismatch,
      )
  settled :
      (p : Payment) (next : PaymentState)
      → find_payment id w.db.payments ≡ some p
      → state_for intent ≡ some next
      → p.state ≢ next
      → allows p.state next ≡ true
      → mismatches intent p ≡ none
      → Applied now id intent w (record w { db = settle now p next intent w.db }, none)

pub same_state_refl : (s : PaymentState) → same_state s s ≡ true
same_state_refl pending = refl
same_state_refl _ = refl

mismatches-paid :
    (intent : NormalizedIntent) (p : Payment) (received : ℕ)
    → mismatches intent p ≡ some received
    → state_for intent ≡ some paid
mismatches-paid (mark_paid _ _ _) p received h = refl
mismatches-paid (mark_failed _ _) p received h = cc
mismatches-paid (mark_cancelled _ _) p received h = cc
mismatches-paid (mark_refunded _ _) p received h = cc
mismatches-paid (noop _) p received h = cc

advance-Applied :
    (now id : ℕ) (p : Payment) (next : PaymentState) (intent : NormalizedIntent) (w : World)
    → find_payment id w.db.payments ≡ some p
    → state_for intent ≡ some next
    → Applied now id intent w (transaction w (advance now p next intent w))
unfolding advance reject_amount
advance-Applied now id p next intent w f s = elim (Bool-cases (same_state p.state next)) [
  | inl same ↦ rw same (already p f (rw (same_state-eq p.state next same) s))
  | inr other ↦
      let ne : p.state ≢ next = λ e. ground (arith, same_state_refl next) in
      rw other (elim (Bool-cases (allows p.state next)) [
        | inr refused ↦ rw refused (not_allowed p next f s ne refused)
        | inl allowed ↦ rw allowed (elim (Option-cases (mismatches intent p)) [
          | inl none_wrong ↦ rw none_wrong (settled p next f s ne allowed none_wrong)
          | inr (received, wrong) ↦
              let e : next ≡ paid = let k = mismatches-paid intent p received wrong in cc in
              rw wrong (mismatch p received f wrong (rw e at allowed))
        ])
      ])
]

pub apply_intent-Applied :
    (now id : ℕ) (intent : NormalizedIntent) (w : World)
    → Applied now id intent w (apply_intent now id intent w)
unfolding apply_intent apply_intent_in_transaction
apply_intent-Applied now id intent w = elim (Option-cases (find_payment id w.db.payments)) [
  | inl missing ↦ rw missing (unknown missing)
  | inr (p, f) ↦ rw f (elim (Option-cases (state_for intent)) [
    | inl stateless ↦ rw stateless (no_state p f stateless)
    | inr (next, s) ↦ rw s (advance-Applied now id p next intent w f s)
  ])
]
