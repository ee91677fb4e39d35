-- ===== src/Payments/Click/Tests.antt =====
-- The two calls for one payment, and a cancellation.
use muzael.Common.{◌≡◌, refl, Bool, true, false, none, some}
use muzael.Payments.Intent.{noop, mark_paid, mark_cancelled}
use muzael.Payments.Click.{
  ClickAction, prepare, complete, ClickCallback, ClickRuntime, handle_callback,
}

-- A runtime for amounts of 500 so'm.
abbrev runtime : Bool → ClickRuntime
runtime negative = record {
  rounded = λ t. 500;
  is_negative = λ t. negative;
  lower_case = λ t. t;
  md5 = λ t. t;
}

abbrev callback : ClickAction → ClickCallback
callback action = record {
  click_trans_id = "77";
  service_id = "1";
  merchant_trans_id = 9;
  merchant_prepare_id = some "9";
  amount = "500.00";
  action = action;
  error = "0";
  error_note = none;
  sign_time = "2025-01-06";
  sign_string = "x";
}

prepare_test :
    (handle_callback (runtime false) 5 (callback prepare)).intent
    ≡ noop "Click prepare acknowledged"
unfolding handle_callback
prepare_test = refl

complete_test :
    (handle_callback (runtime false) 5 (callback complete)).intent ≡ mark_paid "77" 500 5
unfolding handle_callback
complete_test = refl

failure_test :
    (handle_callback (runtime true) 5 (callback complete)).intent
    ≡ mark_cancelled (some "77") "Cancelled by Click"
unfolding handle_callback
failure_test = refl
