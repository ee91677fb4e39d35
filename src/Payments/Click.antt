-- ===== src/Payments/Click.antt =====
-- packages/payments/src/providers/click.ts: the two-stage callback, from a request to the outcome that the
-- webhook pipeline takes. A request is its parsed body. What the runtime makes of a text is a parameter:
-- the rounded number, the sign of a number, the text in small letters, and the MD5 digest.
mod Tests
use Prim.Native.String.{String, ◌++◌}
use text.Mathlib.Text.{◌==◌}
use muzael.Common.{ℕ, Bool, true, false, not, ◌&&◌, Option, none, some, if◌then◌else◌}
use muzael.Common.Int.{ℤ, pos, negsuc}
use muzael.Payments.Json.{Json, num, str, obj, end, field}
use muzael.Payments.Intent.{NormalizedIntent, noop, mark_paid, mark_cancelled}
use muzael.Payments.Webhook.{WebhookOutcome, Reply, Provider}
use muzael.Payments.Payme.{decimal}

-- `CLICK_ERROR`, as far as the adapter answers with it.
abbrev pub click_success : ℤ
click_success = pos 0

abbrev pub click_action_not_found : ℤ
click_action_not_found = negsuc 2

abbrev pub click_transaction_not_found : ℤ
click_transaction_not_found = negsuc 5

-- The action "0", the action "1", and any other text.
pub data ClickAction : Type 0 where
  prepare complete : ClickAction
  other_action : String → ClickAction

pub record ClickCallback : Type 0 where
  pub click_trans_id : String
  pub service_id : String
  pub merchant_trans_id : ℕ
  pub merchant_prepare_id : Option String
  pub amount : String
  pub action : ClickAction
  pub error : String
  pub error_note : Option String
  pub sign_time : String
  pub sign_string : String

-- What the runtime does with texts.
pub record ClickRuntime : Type 0 where
  pub rounded : String → ℕ
  pub is_negative : String → Bool
  pub lower_case : String → String
  pub md5 : String → String

abbrev pub action_text : ClickAction → String
action_text prepare = "0"
action_text complete = "1"
action_text (other_action name) = name

-- `merchant_prepare_id` is signed on the second call only.
abbrev pub prepare_part : ClickAction → Option String → String
prepare_part complete (some id) = id
prepare_part _ _ = ""

abbrev pub signed_text : String → ClickCallback → String
signed_text secret_key body =
    (((((((body.click_trans_id ++ body.service_id) ++ secret_key) ++ decimal body.merchant_trans_id)
            ++ prepare_part body.action body.merchant_prepare_id)
          ++ body.amount)
        ++ action_text body.action)
      ++ body.sign_time)

abbrev pub is_missing : String → Bool
is_missing t = t == ""

-- `verifyWebhook` does not throw.
unfoldable pub verify_webhook : ClickRuntime → String → ClickCallback → Bool
verify_webhook runtime secret_key body =
    not (is_missing body.sign_string)
    && not (is_missing body.click_trans_id)
    && (runtime.md5 (signed_text secret_key body) == runtime.lower_case body.sign_string)

abbrev pub click_key : ClickCallback → String → String
click_key body suffix = (("click:" ++ body.click_trans_id) ++ ":") ++ suffix

abbrev pub answer : ClickCallback → Option String → Json
answer body none = obj (
    field "click_trans_id" (str body.click_trans_id) (
      field "merchant_trans_id" (str (decimal body.merchant_trans_id))
        (field "error" (num click_success) (field "error_note" (str "Success") end))))
answer body (some id_field) = obj (
    field "click_trans_id" (str body.click_trans_id) (
      field "merchant_trans_id" (str (decimal body.merchant_trans_id)) (
        field id_field (str (decimal body.merchant_trans_id))
          (field "error" (num click_success) (field "error_note" (str "Success") end)))))

abbrev pub outcome : ClickCallback → String → NormalizedIntent → Json → WebhookOutcome
outcome body suffix intent response = record {
  idempotency_key = click_key body suffix;
  payment_id = some body.merchant_trans_id;
  intent = intent;
  response = response;
  status_code = none;
}

abbrev pub note_or_default : Option String → String
note_or_default none = "Cancelled by Click"
note_or_default (some note) = note

abbrev pub handle_action : ClickRuntime → ℕ → ClickCallback → ClickAction → WebhookOutcome
handle_action runtime now body prepare =
    outcome body "prepare" (noop "Click prepare acknowledged")
      (answer body (some "merchant_prepare_id"))
handle_action runtime now body complete =
    outcome body "complete" (mark_paid body.click_trans_id (runtime.rounded body.amount) now)
      (answer body (some "merchant_confirm_id"))
handle_action runtime now body (other_action name) =
    outcome body name (noop ("Unknown Click action " ++ name)) (
      obj (
        field "error" (num click_action_not_found)
          (field "error_note" (str "Action not found") end)))

-- `handleWebhook`: a negative error is Click's own failure, whatever the action is.
unfoldable pub handle_callback : ClickRuntime → ℕ → ClickCallback → WebhookOutcome
handle_callback runtime now body =
    if runtime.is_negative body.error
    then outcome body (action_text body.action)
        (mark_cancelled (some body.click_trans_id) (note_or_default body.error_note))
        (answer body none)
    else handle_action runtime now body body.action

abbrev pub click_not_found : ClickCallback → Option Reply
click_not_found body = some (record {
  status = 200;
  body = obj (
      field "click_trans_id" (str body.click_trans_id) (
        field "merchant_trans_id" (str (decimal body.merchant_trans_id)) (
          field "error" (num click_transaction_not_found)
            (field "error_note" (str "Transaction not found") end))));
})

-- The adapter.
unfoldable pub click : ClickRuntime → String → Provider ClickCallback
click runtime secret_key = record {
  key = "click";
  verify_webhook = verify_webhook runtime secret_key;
  handle_webhook = handle_callback runtime;
  not_found_response = click_not_found;
}
