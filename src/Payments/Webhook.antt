-- ===== src/Payments/Webhook.antt =====
-- apps/api/src/modules/payments/payments.service.ts (`handleWebhook`, `applyIntentWithDedup`) and the
-- part of packages/payments/src/provider.ts that it calls: the pipeline that a provider's callback
-- goes through. A provider is a record of functions of the request, which the adapters fill.
pub mod Delivery
pub mod Replay
mod Tests
use Prim.Native.String.{String, ◌++◌}
use text.Mathlib.Text.{◌==◌}
use muzael.Common.{ℕ, Bool, true, false, Option, none, some, List, [], ◌∷◌, ◌&&◌, if◌then◌else◌}
use muzael.Shared.Errors.{ErrorCode, payment_not_found}
use muzael.Payments.Json.{Json, null, obj, end, field, str}
use muzael.Payments.Intent.{
  NormalizedIntent, noop, mark_paid, mark_failed, mark_cancelled, mark_refunded,
}
use muzael.Payments.Service.{
  Db, World, ProcessedWebhook, Audit, signature_invalid, transaction, returns, throws, Body,
  apply_intent_in_transaction,
}

pub record WebhookOutcome : Type 0 where
  pub idempotency_key : String
  pub payment_id : Option ℕ
  pub intent : NormalizedIntent
  pub response : Json
  pub status_code : Option ℕ

-- The answer to the provider: the status and the body.
pub record Reply : Type 0 where
  pub status : ℕ
  pub body : Json

-- `PaymentProvider`, as far as a webhook needs it. `verify_webhook` is false where the source throws.
-- `handle_webhook` is given the moment, since the adapters read the clock.
pub record Provider (Request : Type 0) : Type 0 where
  pub key : String
  pub verify_webhook : Request → Bool
  pub handle_webhook : ℕ → Request → WebhookOutcome
  pub not_found_response : Request → Option Reply

pub record Integration : Type 0 where
  pub id : ℕ
  pub is_enabled : Bool

-- `findUnique` by the pair of source and key.
pub find_processed : String → String → List ProcessedWebhook → Option ProcessedWebhook
find_processed source key [] = none
find_processed source key (r ∷ rs) =
    if (r.source == source) && (r.key == key) then some r else find_processed source key rs

-- How the transaction of a delivery ends.
pub data Committed : Type 0 where
  applied : Committed
  unique_violation : Committed
  failed_with : ErrorCode → Committed

abbrev pub committed : World × Option ErrorCode → World × Committed
committed (w, none) = (w, applied)
committed (w, some e) = (w, failed_with e)

-- `if (paymentId && intent.kind !== 'noop')`.
abbrev pub apply_if_named : ℕ → Option ℕ → NormalizedIntent → World → Body
apply_if_named now (some id) (noop reason) w = returns w
apply_if_named now (some id) (mark_paid e a t) w =
    apply_intent_in_transaction now id (mark_paid e a t) w
apply_if_named now (some id) (mark_failed e r) w =
    apply_intent_in_transaction now id (mark_failed e r) w
apply_if_named now (some id) (mark_cancelled e r) w =
    apply_intent_in_transaction now id (mark_cancelled e r) w
apply_if_named now (some id) (mark_refunded e a) w =
    apply_intent_in_transaction now id (mark_refunded e a) w
apply_if_named now none intent w = returns w

abbrev pub record_processed : ProcessedWebhook → World → World
record_processed row w = record w { db = record w.db { processed = row ∷ w.db.processed } }

-- `applyIntentWithDedup`: the unique pair of source and key, then the row and the intent, in one
-- transaction.
abbrev pub commit_unless :
    Option ProcessedWebhook
    → ℕ
    → ProcessedWebhook
    → Option ℕ
    → NormalizedIntent
    → World
    → World × Committed
commit_unless (some old) now row payment_id intent w = (w, unique_violation)
commit_unless none now row payment_id intent w =
    committed (transaction w (apply_if_named now payment_id intent (record_processed row w)))

unfoldable pub apply_intent_with_dedup :
    ℕ → ProcessedWebhook → Option ℕ → NormalizedIntent → World → World × Committed
apply_intent_with_dedup now row payment_id intent w =
    commit_unless (find_processed row.source row.key w.db.processed) now row payment_id intent w

abbrev pub or_default : Option ℕ → ℕ
or_default none = 200
or_default (some status) = status

-- `existing.response ?? outcome.response`.
abbrev pub stored_or : Json → Json → Json
stored_or null fresh = fresh
stored_or stored fresh = stored

abbrev error_body : String → Json
error_body message = obj (field "error" (str message) end)

abbrev pub not_found_reply : Option Reply → Reply
not_found_reply (some reply) = reply
not_found_reply none = record { status = 404; body = error_body "Payment not found" }

abbrev pub reply_of : WebhookOutcome → Reply
reply_of outcome = record { status = or_default outcome.status_code; body = outcome.response }

-- What the delivery ends with: an answer, or an error that is thrown on.
pub data Answer : Type 0 where
  replies : Reply → Answer
  raises : ErrorCode → Answer

abbrev pub is_payment_not_found : ErrorCode → Bool
is_payment_not_found payment_not_found = true
is_payment_not_found _ = false

abbrev pub answer : Option Reply → WebhookOutcome → Committed → Answer
answer not_found outcome applied = replies (reply_of outcome)
answer not_found outcome unique_violation = replies (reply_of outcome)
answer not_found outcome (failed_with e) =
    if is_payment_not_found e then replies (not_found_reply not_found) else raises e

abbrev pub dedup_row : String → WebhookOutcome → ProcessedWebhook
dedup_row source outcome = record {
  source = source;
  key = (source ++ ":") ++ outcome.idempotency_key;
  response = outcome.response;
}

-- The part of a delivery after its read found no row: the transaction and its answer.
unfoldable pub settle_delivery : ℕ → String → Option Reply → WebhookOutcome → World → World × Answer
settle_delivery now source not_found outcome w =
    let end =
      apply_intent_with_dedup now (dedup_row source outcome) outcome.payment_id outcome.intent w in
    (end.0, answer not_found outcome end.1)

abbrev pub deliver_unless :
    Option ProcessedWebhook → ℕ → String → Option Reply → WebhookOutcome → World → World × Answer
deliver_unless none now source not_found outcome w = settle_delivery now source not_found outcome w
deliver_unless (some row) now source not_found outcome w = (
  w,
  replies (record {
    status = or_default outcome.status_code;
    body = stored_or row.response outcome.response;
  }),
)

-- The part of a delivery after the signature was accepted.
unfoldable pub deliver : ℕ → String → Option Reply → WebhookOutcome → World → World × Answer
deliver now source not_found outcome w =
    deliver_unless (find_processed source (dedup_row source outcome).key w.db.processed) now source
      not_found outcome w

abbrev pub usable : Option Integration → Option Integration
usable none = none
usable (some i) = if i.is_enabled then some i else none

abbrev pub handle_usable :
    {Request : Type 0}
    → Option Integration
    → ℕ
    → Provider Request
    → Request
    → World
    → World × Answer
handle_usable none now provider request w =
    (w, replies (record { status = 404; body = error_body "Integration not found" }))
handle_usable (some i) now provider request w =
    if provider.verify_webhook request
    then deliver now provider.key (provider.not_found_response request)
        (provider.handle_webhook now request) w
    else (
      record w { audit = signature_invalid i.id ∷ w.audit },
      replies (record { status = 401; body = error_body "Invalid signature" }),
    )

-- `handleWebhook`, for the integration that its id names.
unfoldable pub handle_webhook :
    {Request : Type 0}
    → ℕ
    → Provider Request
    → Option Integration
    → Request
    → World
    → World × Answer
handle_webhook now provider integration request w =
    handle_usable (usable integration) now provider request w
