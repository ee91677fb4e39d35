-- ===== src/Payments/Webhook/Delivery.antt =====
-- apps/api/src/modules/payments/payments.service.ts, `handleWebhook`: one delivery, and the same event
-- delivered again.
use Prim.Native.String.{String}
use text.Mathlib.Text.{◌==◌}
use text.Mathlib.TextEquality.{eq_iff}
use muzael.Common.{ℕ, ◌≡◌, refl, sym, subst, true, Option, none, some, List, ◌∷◌, ◌⊎◌, inl, inr}
use muzael.Shared.Errors.{ErrorCode}
use muzael.Payments.Intent.{
  NormalizedIntent, noop, mark_paid, mark_failed, mark_cancelled, mark_refunded,
}
use muzael.Payments.Service.{
  Payment, Db, World, Body, Audit, ProcessedWebhook, transaction, returns, throws, side_effects,
  settle, apply_intent,
}
use muzael.Payments.Service.Machine.{
  Applied, unknown, no_state, already, not_allowed, mismatch, settled, apply_intent-Applied,
}
use muzael.Payments.Webhook.{
  WebhookOutcome, Reply, find_processed, Committed, applied, unique_violation, failed_with,
  committed, apply_if_named, record_processed, apply_intent_with_dedup, or_default, stored_or,
  reply_of, Answer, replies, dedup_row, settle_delivery, deliver,
}

side_effects-processed :
    (now : ℕ) (p : Payment) (intent : NormalizedIntent) (db : Db)
    → (side_effects now p intent db).processed ≡ db.processed
side_effects-processed now p (mark_paid _ _ _) db = refl
side_effects-processed now p (mark_failed _ _) db = refl
side_effects-processed now p (mark_cancelled _ _) db = refl
side_effects-processed now p (mark_refunded _ _) db = refl
side_effects-processed now p (noop _) db = refl

-- An intent leaves the rows of the handled events alone.
apply_intent-processed :
    (now id : ℕ) (intent : NormalizedIntent) (w : World)
    → (apply_intent now id intent w).0.db.processed ≡ w.db.processed
apply_intent-processed now id intent w =
    of (apply_intent now id intent w) (apply_intent-Applied now id intent w)
  where
    of :
        (o : World × Option ErrorCode)
        → Applied now id intent w o
        → o.0.db.processed ≡ w.db.processed
    of _ (unknown f) = refl
    of _ (no_state p f s) = refl
    of _ (already p f s) = refl
    of _ (not_allowed p next f s ne refused) = refl
    of _ (mismatch p received f wrong allowed) = refl
    of _ (settled p next f s ne allowed fine) =
        unfold settle in side_effects-processed now p intent _

apply_if_named-processed :
    (now : ℕ) (payment_id : Option ℕ) (intent : NormalizedIntent) (w : World)
    → (transaction w (apply_if_named now payment_id intent w)).0.db.processed ≡ w.db.processed
unfolding apply_intent
apply_if_named-processed now none intent w = refl
apply_if_named-processed now (some id) (noop reason) w = refl
apply_if_named-processed now (some id) (mark_paid e a t) w =
    apply_intent-processed now id (mark_paid e a t) w
apply_if_named-processed now (some id) (mark_failed e r) w =
    apply_intent-processed now id (mark_failed e r) w
apply_if_named-processed now (some id) (mark_cancelled e r) w =
    apply_intent-processed now id (mark_cancelled e r) w
apply_if_named-processed now (some id) (mark_refunded e a) w =
    apply_intent-processed now id (mark_refunded e a) w

-- A transaction that starts with a row of a handled event: either it commits, and the row is there,
-- or it fails, and only its audit entries stay.
pub Ends : ProcessedWebhook → World → World × Committed → Type 0
Ends row w o =
    ((w' : World) × (o ≡ (w', applied)) × (w'.db.processed ≡ row ∷ w.db.processed))
    ⊎ ((e : ErrorCode) × (audit : List Audit) × (o ≡ (record w { audit = audit }, failed_with e)))

transaction-Ends :
    (row : ProcessedWebhook) (w : World) (b : Body)
    → (transaction (record_processed row w) b).0.db.processed ≡ row ∷ w.db.processed
    → Ends row w (committed (transaction w b))
unfolding Ends
transaction-Ends row w (returns w') h = inl (w', refl, h)
transaction-Ends row w (throws e w') h = inr (e, w'.audit, refl)

dedup-fresh :
    (now : ℕ) (row : ProcessedWebhook) (payment_id : Option ℕ) (intent : NormalizedIntent)
    (w : World)
    → find_processed row.source row.key w.db.processed ≡ none
    → apply_intent_with_dedup now row payment_id intent w
      ≡ committed (transaction w (apply_if_named now payment_id intent (record_processed row w)))
unfolding apply_intent_with_dedup
dedup-fresh now row payment_id intent w fresh = rw fresh refl

pub dedup-taken :
    (now : ℕ) (row old : ProcessedWebhook) (payment_id : Option ℕ) (intent : NormalizedIntent)
    (w : World)
    → find_processed row.source row.key w.db.processed ≡ some old
    → apply_intent_with_dedup now row payment_id intent w ≡ (w, unique_violation)
unfolding apply_intent_with_dedup
dedup-taken now row old payment_id intent w taken = rw taken refl

pub dedup-Ends :
    (now : ℕ) (row : ProcessedWebhook) (payment_id : Option ℕ) (intent : NormalizedIntent)
    (w : World)
    → find_processed row.source row.key w.db.processed ≡ none
    → Ends row w (apply_intent_with_dedup now row payment_id intent w)
dedup-Ends now row payment_id intent w fresh =
    subst (Ends row w) (sym (dedup-fresh now row payment_id intent w fresh)) (
      transaction-Ends row w (apply_if_named now payment_id intent (record_processed row w))
        (apply_if_named-processed now payment_id intent (record_processed row w)))

same_text : (s : String) → (s == s) ≡ true
same_text s = (eq_iff s s).1 refl

pub find-recorded :
    (row : ProcessedWebhook) (rows : List ProcessedWebhook)
    → find_processed row.source row.key (row ∷ rows) ≡ some row
unfolding find_processed
find-recorded row rows = rw (same_text row.source, same_text row.key) refl

-- The reply to an event whose row is there.
abbrev pub repeated : WebhookOutcome → WebhookOutcome → Answer
repeated first second = replies (record {
  status = or_default second.status_code;
  body = stored_or first.response second.response;
})

dedup_row-key :
    (source : String) (first second : WebhookOutcome)
    → first.idempotency_key ≡ second.idempotency_key
    → (dedup_row source second).key ≡ (dedup_row source first).key
dedup_row-key source first second same = rw same refl

pub deliver-taken :
    (now : ℕ) (source : String) (not_found : Option Reply) (first second : WebhookOutcome)
    (w : World)
    → find_processed source (dedup_row source second).key w.db.processed
      ≡ some (dedup_row source first)
    → deliver now source not_found second w ≡ (w, repeated first second)
unfolding deliver
deliver-taken now source not_found first second w taken = rw taken refl

pub deliver-fresh :
    (now : ℕ) (source : String) (not_found : Option Reply) (outcome : WebhookOutcome) (w : World)
    → find_processed source (dedup_row source outcome).key w.db.processed ≡ none
    → deliver now source not_found outcome w ≡ settle_delivery now source not_found outcome w
unfolding deliver
deliver-fresh now source not_found outcome w fresh = rw fresh refl

-- How a settled delivery ends.
unfoldable pub Settles : String → WebhookOutcome → World → World × Answer → Type 0
Settles source outcome w o =
    ((o.0.db.processed ≡ dedup_row source outcome ∷ w.db.processed)
      × (o.1 ≡ replies (reply_of outcome)))
    ⊎ (o.0.db ≡ w.db)

pub settle_delivery-Settles :
    (now : ℕ) (source : String) (not_found : Option Reply) (outcome : WebhookOutcome) (w : World)
    → find_processed source (dedup_row source outcome).key w.db.processed ≡ none
    → Settles source outcome w (settle_delivery now source not_found outcome w)
unfolding settle_delivery Settles Ends
settle_delivery-Settles now source not_found outcome w fresh =
    elim (dedup-Ends now (dedup_row source outcome) outcome.payment_id outcome.intent w fresh) [
      | inl (w', e, recorded) ↦ rw e (inl (recorded, refl))
      | inr (_, audit, e) ↦ rw e (inr refl)
    ]
