-- ===== src/Payments/Webhook/Tests.antt =====
-- A provider that confirms one payment, and its callback delivered twice.
use muzael.Common.{ℕ, ◌≡◌, ◌⊎◌, refl, true, [], ◌∷◌, none, some, Option}
use muzael.Payments.Json.{num}
use muzael.Common.Int.{pos}
use muzael.Payments.Intent.{mark_paid, pending}
use muzael.Payments.Service.{Payment, World}
use muzael.Payments.Webhook.{
  WebhookOutcome, Provider, Integration, replies, reply_of, dedup_row, handle_webhook,
}
use muzael.Payments.Webhook.Delivery.{repeated}
use muzael.Payments.Webhook.Replay.{handle_webhook-replay, handle_webhook-changes}

abbrev payment : Payment
payment = record {
  id = 1;
  order_id = none;
  booking_id = none;
  state = pending;
  amount = 500;
  external_id = none;
  paid_at = none;
  failure_reason = none;
  refunded_amount = 0;
}

abbrev world : World
world = record {
  db = record {
    payments = payment ∷ [];
    orders = [];
    bookings = [];
    transactions = [];
    events = [];
    processed = [];
  };
  audit = [];
}

-- The response of this provider contains the moment, as Payme's does.
abbrev confirmation : ℕ → WebhookOutcome
confirmation now = record {
  idempotency_key = "event-1";
  payment_id = some 1;
  intent = mark_paid "trx" 500 now;
  response = num (pos now);
  status_code = none;
}

abbrev provider : Provider (Unit {0})
provider = record {
  key = "mock";
  verify_webhook = λ _. true;
  handle_webhook = λ now _. confirmation now;
  not_found_response = λ _. none;
}

abbrev integration : Option Integration
integration = some (record { id = 3; is_enabled = true })

handle_webhook-changes_example :
    ((handle_webhook 10 provider integration tt world).0.db ≡ world.db)
    ⊎ (((i : Integration) × (integration ≡ some i) × (i.is_enabled ≡ true))
        × (provider.verify_webhook tt ≡ true)
        × ((handle_webhook 10 provider integration tt world).0.db.processed
            ≡ dedup_row "mock" (confirmation 10) ∷ [])
        × ((handle_webhook 10 provider integration tt world).1
            ≡ replies (reply_of (confirmation 10))))
handle_webhook-changes_example = handle_webhook-changes 10 provider integration tt world

handle_webhook-replay_example :
    ((handle_webhook 10 provider integration tt world).0.db ≡ world.db)
    ⊎ (handle_webhook 20 provider integration tt (handle_webhook 10 provider integration tt world).0
        ≡ (
          (handle_webhook 10 provider integration tt world).0,
          repeated (confirmation 10) (confirmation 20),
        ))
handle_webhook-replay_example = handle_webhook-replay 10 20 provider integration tt world refl
