-- ===== src/Payments/Webhook/Replay.antt =====
-- apps/api/src/modules/payments/payments.service.ts, `handleWebhook`: the same event delivered again,
-- after the first delivery or at the same time.
use Prim.Native.String.{String}
use muzael.Common.{
  ℕ, ◌≡◌, refl, sym, ap, ◌∙◌, true, Option, none, some, List, ◌∷◌, ◌⊎◌, inl, inr, Bool-cases,
  Option-cases,
}
use muzael.Payments.Service.{World, ProcessedWebhook}
use muzael.Payments.Webhook.{
  WebhookOutcome, Reply, Provider, Integration, find_processed, reply_of, Answer, replies,
  dedup_row, deliver, handle_webhook,
}
use muzael.Payments.Webhook.Delivery.{
  Settles, settle_delivery-Settles, repeated, deliver-taken, find-recorded,
}

-- The row of the first delivery is what the second one reads.
find-second :
    (source : String) (first second : WebhookOutcome) (rows : List ProcessedWebhook)
    → first.idempotency_key ≡ second.idempotency_key
    → find_processed source (dedup_row source second).key (dedup_row source first ∷ rows)
      ≡ some (dedup_row source first)
find-second source first second rows same =
    rw (sym same) (find-recorded (dedup_row source first) rows)

deliver-again :
    (later : ℕ) (source : String) (not_found : Option Reply) (first second : WebhookOutcome)
    (w : World) (o : World × Answer)
    → first.idempotency_key ≡ second.idempotency_key
    → Settles source first w o
    → (o.0.db ≡ w.db) ⊎ (deliver later source not_found second o.0 ≡ (o.0, repeated first second))
unfolding Settles
deliver-again later source not_found first second w o same (inr kept) = inl kept
deliver-again later source not_found first second w o same (inl (recorded, _)) = inr (
    deliver-taken later source not_found first second o.0 (
      ap (find_processed source (dedup_row source second).key) recorded
      ∙ find-second source first second w.db.processed same))

-- What a request changes, if it changes the database at all.
deliver-Settles :
    (now : ℕ) (source : String) (not_found : Option Reply) (outcome : WebhookOutcome) (w : World)
    → Settles source outcome w (deliver now source not_found outcome w)
unfolding Settles deliver
deliver-Settles now source not_found outcome w =
    elim (Option-cases (find_processed source (dedup_row source outcome).key w.db.processed)) [
      | inl fresh ↦ rw fresh (settle_delivery-Settles now source not_found outcome w fresh)
      | inr (row, taken) ↦ rw taken (inr refl)
    ]

-- A request changes the database only if its integration is there and enabled and its signature was
-- accepted, and then the event is recorded as handled, with the response that is given.
pub handle_webhook-changes :
    {Request : Type 0} (now : ℕ) (provider : Provider Request) (integration : Option Integration)
    (request : Request) (w : World)
    → ((handle_webhook now provider integration request w).0.db ≡ w.db)
      ⊎ (((i : Integration) × (integration ≡ some i) × (i.is_enabled ≡ true))
          × (provider.verify_webhook request ≡ true)
          × ((handle_webhook now provider integration request w).0.db.processed
              ≡ dedup_row provider.key (provider.handle_webhook now request) ∷ w.db.processed)
          × ((handle_webhook now provider integration request w).1
              ≡ replies (reply_of (provider.handle_webhook now request))))
unfolding handle_webhook Settles
handle_webhook-changes now provider none request w = inl refl
handle_webhook-changes now provider (some i) request w = elim (Bool-cases i.is_enabled) [
  | inr off ↦ rw off (inl refl)
  | inl on ↦ elim (Bool-cases (provider.verify_webhook request)) [
    | inr forged ↦ rw on (rw forged (inl refl))
    | inl signed ↦
        elim (deliver-Settles now provider.key (provider.not_found_response request)
          (provider.handle_webhook now request) w) [
            | inl (recorded, reply) ↦
                inr ((i, refl, on), signed, rw on (rw signed recorded), rw on (rw signed reply))
            | inr kept ↦ inl (rw on (rw signed kept))
          ]
  ]
]

-- The same event again, at any later time and under the same idempotency key: if the first request
-- changed the database, the second one changes nothing at all, and its body is the response that was
-- stored with the first, or its own where that is null.
pub handle_webhook-replay :
    {Request : Type 0} (now later : ℕ) (provider : Provider Request)
    (integration : Option Integration) (request : Request) (w : World)
    → (provider.handle_webhook now request).idempotency_key
      ≡ (provider.handle_webhook later request).idempotency_key
    → ((handle_webhook now provider integration request w).0.db ≡ w.db)
      ⊎ (handle_webhook later provider integration request
            (handle_webhook now provider integration request w).0
          ≡ (
            (handle_webhook now provider integration request w).0,
            repeated (provider.handle_webhook now request) (provider.handle_webhook later request),
          ))
unfolding handle_webhook
handle_webhook-replay now later provider none request w same = inl refl
handle_webhook-replay now later provider (some i) request w same = elim (Bool-cases i.is_enabled) [
  | inr off ↦ rw off (inl refl)
  | inl on ↦ elim (Bool-cases (provider.verify_webhook request)) [
    | inr forged ↦ rw on (rw forged (inl refl))
    | inl signed ↦ rw on (
        rw signed (
          deliver-again later provider.key (provider.not_found_response request)
            (provider.handle_webhook now request) (provider.handle_webhook later request) w
            (deliver now provider.key (provider.not_found_response request)
              (provider.handle_webhook now request) w)
            same
            (deliver-Settles now provider.key (provider.not_found_response request)
              (provider.handle_webhook now request) w)))
  ]
]
