-- ===== src/Payments/Payme.antt =====
-- packages/payments/src/providers/payme.ts: the JSON-RPC adapter, from a request to the outcome that
-- the webhook pipeline takes. A request is its parsed body, with `undefined` where a field may miss;
-- ids stand in texts as their decimals. The amounts that Payme sends are whole numbers of tiyin.
mod Amounts
mod Tests
use Prim.Native.String.{String, ◌++◌, slice}
use muzael.Common.{
  ℕ, zero, suc, ◌+◌, ◌*◌, ◌/◌, ◌%◌, Bool, true, Option, none, some, ltb, if◌then◌else◌,
}
use muzael.Common.Int.{ℤ, pos, negsuc}
use muzael.Payments.Json.{Json, null, num, bool, str, obj, Fields, end, field}
use muzael.Payments.Intent.{NormalizedIntent, noop, mark_paid, mark_cancelled}
use muzael.Payments.Webhook.{WebhookOutcome, Reply, Provider}

-- `TIYIN_PER_SOM`.
abbrev pub tiyin_per_som : ℕ
tiyin_per_som = 100

pub data PaymeMethod : Type 0 where
  check_perform_transaction create_transaction perform_transaction : PaymeMethod
  cancel_transaction check_transaction : PaymeMethod
  other : String → PaymeMethod

pub record Account : Type 0 where
  pub payment_id : Option ℕ
  pub order_id : Option ℕ

pub record PaymeParams : Type 0 where
  pub id : Option ℕ
  pub amount : Option ℕ
  pub time : ℕ
  pub reason : Option ℕ
  pub account : Option Account

pub record PaymeRpc : Type 0 where
  pub method : PaymeMethod
  pub params : PaymeParams
  pub id : Option ℕ
  pub authorization : Option String

abbrev digit : ℕ → String
digit n = slice "0123456789" n (suc n)

-- The decimal of a number: one digit for each unit of fuel, and `n + 1` is enough for `n`.
digits : ℕ → ℕ → String
digits zero n = ""
digits (suc fuel) n =
    let before = digits fuel (n / 10) in if ltb n 10 then digit n else before ++ digit (n % 10)

pub decimal : ℕ → String
decimal n = digits (suc n) n

-- `String(x)`, of a number that may be undefined.
abbrev pub text_of : Option ℕ → String
text_of none = "undefined"
text_of (some n) = decimal n

abbrev or_order : Option ℕ → Option ℕ → Option ℕ
or_order none order_id = order_id
or_order (some payment_id) order_id = some payment_id

-- `paymentIdFrom`.
abbrev pub payment_id_from : PaymeParams → Option ℕ
payment_id_from params = elim params.account [
  | none ↦ none
  | some account ↦ or_order account.payment_id account.order_id
]

-- `Math.round(x / TIYIN_PER_SOM)`, for a whole number of tiyin.
abbrev pub round_to_som : ℕ → ℕ
round_to_som tiyin = (tiyin + 50) / tiyin_per_som

abbrev or_zero : Option ℕ → ℕ
or_zero none = 0
or_zero (some n) = n

-- `Number(params.time) || Date.now()`.
abbrev or_now : ℕ → ℕ → ℕ
or_now now zero = now
or_now now (suc time) = suc time

abbrev pub rpc_id : PaymeRpc → Json
rpc_id rpc = num (pos (or_zero rpc.id))

abbrev pub rpc_result : PaymeRpc → Fields → Json
rpc_result rpc fields = obj (field "result" (obj fields) (field "id" (rpc_id rpc) end))

abbrev pub rpc_error : PaymeRpc → ℤ → String → Json
rpc_error rpc error message = obj (
    field "error" (obj (field "code" (num error) (field "message" (str message) end)))
      (field "id" (rpc_id rpc) end))

abbrev pub outcome_of : PaymeRpc → String → NormalizedIntent → Json → WebhookOutcome
outcome_of rpc key intent response = record {
  idempotency_key = key;
  payment_id = payment_id_from rpc.params;
  intent = intent;
  response = response;
  status_code = none;
}

abbrev method_name : PaymeMethod → String
method_name check_perform_transaction = "CheckPerformTransaction"
method_name create_transaction = "CreateTransaction"
method_name perform_transaction = "PerformTransaction"
method_name cancel_transaction = "CancelTransaction"
method_name check_transaction = "CheckTransaction"
method_name (other name) = name

abbrev pub handle_method : PaymeMethod → ℕ → PaymeRpc → WebhookOutcome
handle_method check_perform_transaction now rpc =
    outcome_of rpc
      ((("payme:check:" ++ text_of (payment_id_from rpc.params)) ++ ":")
        ++ text_of rpc.params.amount)
      (noop "CheckPerformTransaction") (rpc_result rpc (field "allow" (bool true) end))
handle_method create_transaction now rpc =
    outcome_of rpc ("payme:create:" ++ text_of rpc.params.id) (noop "Payme transaction created") (
      rpc_result rpc (
        field "create_time" (num (pos (or_now now rpc.params.time)))
          (field "transaction" (str (text_of rpc.params.id)) (field "state" (num (pos 1)) end))))
handle_method perform_transaction now rpc =
    outcome_of rpc ("payme:perform:" ++ text_of rpc.params.id)
      (mark_paid (text_of rpc.params.id) (round_to_som (or_zero rpc.params.amount)) now)
      (rpc_result rpc (
        field "perform_time" (num (pos now))
          (field "transaction" (str (text_of rpc.params.id)) (field "state" (num (pos 2)) end))))
handle_method cancel_transaction now rpc =
    outcome_of rpc
      ((("payme:cancel:" ++ text_of rpc.params.id) ++ ":") ++ text_of rpc.params.reason)
      (mark_cancelled (some (text_of rpc.params.id)) ("Payme reason " ++ text_of rpc.params.reason))
      (rpc_result rpc (
        field "cancel_time" (num (pos now))
          (field "transaction" (str (text_of rpc.params.id)) (field "state" (num (negsuc 0)) end))))
handle_method check_transaction now rpc =
    outcome_of rpc ((("payme:status:" ++ text_of rpc.params.id) ++ ":") ++ decimal now)
      (noop "CheckTransaction")
      (rpc_result rpc (field "transaction" (str (text_of rpc.params.id)) end))
handle_method (other name) now rpc = record {
  idempotency_key = "payme:unknown:" ++ decimal now;
  payment_id = none;
  intent = noop ("Unknown Payme method " ++ name);
  response = rpc_error rpc (negsuc 32600) "Method not found";
  status_code = none;
}

-- `handleWebhook`.
unfoldable pub handle : ℕ → PaymeRpc → WebhookOutcome
handle now rpc = handle_method rpc.method now rpc

-- `notFoundResponse`.
abbrev pub not_found_response : PaymeRpc → Option Reply
not_found_response rpc =
    some (record { status = 200; body = rpc_error rpc (negsuc 31002) "Transaction not found" })

-- The adapter, for a check of the `Authorization` header against the merchant key, which decodes
-- base64.
unfoldable pub payme : (Option String → Bool) → Provider PaymeRpc
payme authorized = record {
  key = "payme";
  verify_webhook = λ rpc. authorized rpc.authorization;
  handle_webhook = handle;
  not_found_response = not_found_response;
}
