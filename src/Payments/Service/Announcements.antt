-- ===== src/Payments/Service/Announcements.antt =====
-- apps/api/src/modules/payments/payments.service.ts: `applyIntent` called again and again.
use Prim.Native.String.{String}
use muzael.Common.{
  ℕ, ◌≡◌, ◌≢◌, refl, subst, sym, ◌∙◌, ap, true, false, ◌⊎◌, inl, inr, Option, none, some, List, [],
  ◌∷◌, arith, ◌==◌, if◌then◌else◌, sum_by, Nat-cases,
}
use muzael.Shared.Errors.{ErrorCode}
use muzael.Payments.Intent.{
  NormalizedIntent, mark_paid, mark_failed, mark_cancelled, mark_refunded, noop, PaymentState,
  pending, processing, paid, refunded, partially_refunded, allows, state_for,
}
use muzael.Payments.Service.{
  Payment, Db, World, Audit, Event, payment_succeeded, payment_failed, payment_refunded,
  find_payment, moved, settle, apply_intent, mismatches,
}
use muzael.Payments.Service.Machine.{
  Applied, unknown, no_state, already, not_allowed, mismatch, settled, apply_intent-Applied,
  find_payment-id, moved-state,
}
use muzael.Payments.Service.History.{find-settle, find-settle_other}

-- A call of `applyIntent`: its moment, its payment and its intent.
pub record Call : Type 0 where
  pub now : ℕ
  pub id : ℕ
  pub intent : NormalizedIntent

-- Calls in the order in which their transactions commit; one that throws is answered, and the next
-- one follows.
pub apply_all : List Call → World → World
apply_all [] w = w
apply_all (c ∷ cs) w = apply_all cs (apply_intent c.now c.id c.intent w).0

-- How often the success of a payment was announced.
abbrev pub announces : ℕ → Event → ℕ
announces id (payment_succeeded other) = if other == id then 1 else 0
announces id (payment_failed other) = 0
announces id (payment_refunded other amount) = 0

abbrev pub announced : ℕ → World → ℕ
announced id w = sum_by (announces id) w.db.events

abbrev pub was_paid : PaymentState → ℕ
was_paid paid = 1
was_paid refunded = 1
was_paid partially_refunded = 1
was_paid _ = 0

-- Payment `id` is there, and its success was announced once if it was ever paid and never otherwise.
unfoldable pub IsAnnounced : ℕ → World → Type 0
IsAnnounced id w =
    (p : Payment) × (find_payment id w.db.payments ≡ some p) × (announced id w ≡ was_paid p.state)

announced-settle :
    (now id : ℕ) (p : Payment) (next : PaymentState) (intent : NormalizedIntent) (db : Db)
    (audit : List Audit)
    → state_for intent ≡ some next
    → allows p.state next ≡ true
    → announced id (record { db = db; audit = audit }) ≡ was_paid p.state
    → p.id ≡ id
    → announced id (record { db = settle now p next intent db; audit = audit }) ≡ was_paid next
unfolding settle allows
announced-settle now id p next intent db audit s allowed before e = ground arith

announced-settle_other :
    (now id : ℕ) (p : Payment) (next : PaymentState) (intent : NormalizedIntent) (db : Db)
    → id ≢ p.id
    → sum_by (announces id) (settle now p next intent db).events ≡ sum_by (announces id) db.events
unfolding settle
announced-settle_other now id p next intent db away = ground arith

-- A call keeps what is so of payment `id`, if a settled one does.
step-IsAnnounced :
    (now other id : ℕ) (intent : NormalizedIntent) (w : World) (o : World × Option ErrorCode)
    → Applied now other intent w o
    → IsAnnounced id w
    → IsAnnounced id o.0
unfolding IsAnnounced
step-IsAnnounced now other id intent w _ (unknown f) h = h
step-IsAnnounced now other id intent w _ (no_state p f s) h = h
step-IsAnnounced now other id intent w _ (already p f s) h = h
step-IsAnnounced now other id intent w _ (not_allowed p next f s ne refused) h = h
step-IsAnnounced now other id intent w _ (mismatch p received f wrong allowed) h = h
step-IsAnnounced now other id intent w _ (settled p next f s ne allowed fine) (q, g, before) =
    elim (Nat-cases id other) [
      | inl e ↦
          let here : some p ≡ some q = sym f ∙ (rw e at g) in
          let is_q : p ≡ q = cc in
          (
            moved p next intent,
            rw e (find-settle now other p next intent w.db f),
            announced-settle now id p next intent w.db w.audit s allowed
                  (before ∙ ap was_paid (ap (λ r. r.state) (sym is_q)))
                  (find_payment-id other w.db.payments p f ∙ sym e)
                ∙ ap was_paid (sym (moved-state p next intent).0),
          )
      | inr away ↦ (
        q,
        find-settle_other now id other p next intent w.db f away ∙ g,
        announced-settle_other now id p next intent w.db
              (rw (sym (find_payment-id other w.db.payments p f)) at away)
            ∙ before,
      )
    ]

-- Whatever the calls: the success of a payment stays announced exactly once if the payment was ever
-- paid, and never otherwise, if this holds at the start.
pub apply_all-IsAnnounced :
    (calls : List Call) (id : ℕ) (w : World) → IsAnnounced id w → IsAnnounced id (apply_all calls w)
unfolding apply_all
apply_all-IsAnnounced [] id w h = h
apply_all-IsAnnounced (c ∷ cs) id w h =
    apply_all-IsAnnounced cs id _
      (step-IsAnnounced c.now c.id id c.intent w _ (apply_intent-Applied c.now c.id c.intent w) h)

-- The states that nothing leads out of.
unfoldable pub IsFinal : PaymentState → Type 0
IsFinal s = (next : PaymentState) → allows s next ≡ false

leads_to_paid : (s : PaymentState) → allows s paid ≡ true → (s ≡ pending) ⊎ (s ≡ processing)
unfolding allows
leads_to_paid s h = ground arith

paid_by :
    (intent : NormalizedIntent) (p : Payment)
    → state_for intent ≡ some paid
    → mismatches intent p ≡ none
    → (external : String) × (paid_at : ℕ) × (intent ≡ mark_paid external p.amount paid_at)
paid_by (mark_paid external amount paid_at) p s fine =
    (external, paid_at, let e : amount ≡ p.amount = ground arith in rw e refl)
paid_by (mark_failed _ _) p s fine = absurd cc
paid_by (mark_cancelled _ _) p s fine = absurd cc
paid_by (mark_refunded _ _) p s fine = absurd cc
paid_by (noop _) p s fine = absurd cc

-- A payment that an intent makes paid was announced by the provider as paid with exactly the amount
-- of the payment, and was pending or processing before.
pub apply_intent-paid :
    (now id : ℕ) (intent : NormalizedIntent) (w : World) (p q : Payment)
    → find_payment id w.db.payments ≡ some p
    → find_payment id (apply_intent now id intent w).0.db.payments ≡ some q
    → p.state ≢ paid
    → q.state ≡ paid
    → ((external : String) × (paid_at : ℕ) × (intent ≡ mark_paid external p.amount paid_at))
      × ((p.state ≡ pending) ⊎ (p.state ≡ processing))
apply_intent-paid now id intent w p q f g unpaid is_paid =
    from (apply_intent now id intent w) (apply_intent-Applied now id intent w) g
  where
    from :
        (o : World × Option ErrorCode)
        → Applied now id intent w o
        → find_payment id o.0.db.payments ≡ some q
        → ((external : String) × (paid_at : ℕ) × (intent ≡ mark_paid external p.amount paid_at))
          × ((p.state ≡ pending) ⊎ (p.state ≡ processing))
    from _ (unknown f') g = absurd cc
    from _ (no_state p' f' s) g = absurd (let k : p ≡ q = cc in unpaid (rw k is_paid))
    from _ (already p' f' s) g = absurd (let k : p ≡ q = cc in unpaid (rw k is_paid))
    from _ (not_allowed p' next f' s ne refused) g =
        absurd (let k : p ≡ q = cc in unpaid (rw k is_paid))
    from _ (mismatch p' received f' wrong allowed) g =
        absurd (let k : p ≡ q = cc in unpaid (rw k is_paid))
    from _ (settled p' next f' s ne allowed fine) g =
        let here : some p' ≡ some p = sym f' ∙ f in
        let is_p : p' ≡ p = cc in
        let put = find-settle now id p' next intent w.db f' in
        let moved_q : moved p' next intent ≡ q = cc in
        let next_paid : next ≡ paid =
          sym (moved-state p' next intent).0 ∙ ap (λ r. r.state) moved_q ∙ is_paid in
        let into_paid : state_for intent ≡ some paid = rw next_paid at s in
        let led : allows p'.state paid ≡ true = rw next_paid at allowed in
        subst
          (λ r.
            ((external : String) × (paid_at : ℕ) × (intent ≡ mark_paid external r.amount paid_at))
            × ((r.state ≡ pending) ⊎ (r.state ≡ processing)))
          is_p (paid_by intent p' into_paid fine, leads_to_paid p'.state led)
