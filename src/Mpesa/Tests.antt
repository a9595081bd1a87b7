-- ===== src/Mpesa/Tests.antt =====
-- Examples for payments: a shop on trial that pays by M-Pesa.
use mathlib.Core.Option
use angavu_intelligence_back.Common.{
  find, drop, ℕ, ◌≡◌, refl, Bool, true, Option, none, some, List, [], ◌∷◌, retain, String, ok, err,
  any, codes,
}
use angavu_intelligence_back.Subscription.{SubscriptionRow, into_subscription}
use angavu_intelligence_back.Subscription.Store.{get_active_subscription, latest}
use angavu_intelligence_back.Subscription.Lifecycle.{renewed}
use angavu_intelligence_back.Mpesa.{
  PaymentRow, DarajaStkResponse, StkPushRequest, StkPushResponse, Store, success, invalid_phone,
}
use angavu_intelligence_back.Mpesa.State
use angavu_intelligence_back.Mpesa.Phone.{
  is_safaricom, starts_with, normalize_phone, international, checked,
}
use angavu_intelligence_back.Mpesa.Payments.{
  has_id, first, find_txn, get_payment_status, new_payment, store_payment,
}
use angavu_intelligence_back.Mpesa.Initiate.{
  initiate_stk_push, answered, refused, with_pending, stk_response,
}
use angavu_intelligence_back.Mpesa.Callback.{pos, StkCallback, unwrap_or, process_stk_callback}
use angavu_intelligence_back.Mpesa.Callback.Success.{Settled, process_stk_callback-success}
use angavu_intelligence_back.Mpesa.Callback.Repeated.{process_stk_callback-again}
use angavu_intelligence_back.Mpesa.Callback.Journey.{shown, initiate_stk_push-paid}

abbrev shop : SubscriptionRow
shop = record {
  id = "s1";
  org_id = "duka";
  tier = "pro";
  status = "trial";
  mpesa_phone = none;
  billing_cycle_day = 3;
  current_period_start = 0;
  current_period_end = 100;
  trial_start = some 0;
  trial_end = some 100;
  grace_period_end = none;
  cancelled_at = none;
  cancel_reason = none;
  last_payment_at = none;
  last_payment_receipt = none;
  failed_payment_count = 0;
  created_at = 0;
  updated_at = 0;
}

abbrev empty : Store
empty = record { payments = []; checkouts = []; billing = record { rows = shop ∷ []; cache = [] } }

abbrev body : DarajaStkResponse
body = record {
  merchant_request_id = some "m1";
  checkout_request_id = some "c1";
  response_code = some "0";
  response_description = none;
  customer_message = none;
  error_code = none;
  error_message = none;
}

abbrev daraja : List ℕ → StkPushRequest → Option (Bool × (String × DarajaStkResponse))
daraja phone req = some (true, ("Daraja API error: HTTP 200 OK", body))

abbrev request : StkPushRequest
request = record {
  phone_number = codes "0712 345 678";
  amount = 1500;
  account_reference = "duka";
  description = "pro";
}

abbrev row : PaymentRow
row = record {
  id = "t1";
  org_id = "duka";
  phone_number = codes "254712345678";
  amount = 1500;
  status = "pending";
  mpesa_receipt = none;
  checkout_request_id = some "c1";
  merchant_request_id = some "m1";
  error_message = some "";
  created_at = 10;
  updated_at = 10;
}

abbrev waiting : Store
waiting = record empty { payments = row ∷ []; checkouts = ("c1", "t1") ∷ [] }

abbrev response : StkPushResponse
response = record {
  checkout_request_id = "c1";
  merchant_request_id = "m1";
  response_code = "0";
  response_description = "";
  customer_message = "";
  transaction_id = "t1";
}

abbrev paid : StkCallback
paid = record {
  checkout_request_id = "c1";
  result_code = pos 0;
  result_desc = "ok";
  amount = some 150000;
  receipt = some "QK12";
}

abbrev refusal : StkCallback
refusal = record paid { result_code = pos 1032; result_desc = "cancelled by user" }

started : initiate_stk_push 10 "t1" "duka" daraja request empty ≡ (waiting, ok response)
unfolding initiate_stk_push normalize_phone checked international starts_with retain is_safaricom
    drop answered refused with_pending stk_response store_payment any new_payment State.as_str
started = refl

accepted : normalize_phone (codes "0712 345 678") ≡ ok (codes "254712345678")
unfolding normalize_phone checked international starts_with retain is_safaricom drop
accepted = refl

-- Ten digits that do not start with 0 give a number of thirteen.
too_long : normalize_phone (codes "7123456789") ≡ ok (codes "2547123456789")
unfolding normalize_phone checked international starts_with retain is_safaricom drop
too_long = refl

foreign : normalize_phone (codes "+14155552671") ≡ err invalid_phone
unfolding normalize_phone checked international starts_with retain is_safaricom drop
foreign = refl

found : find_txn "c1" waiting ≡ some "t1"
unfolding find_txn find
found = refl

known : first (has_id "t1") waiting.payments ≡ some row
unfolding first
known = refl

subscribed : get_active_subscription "duka" empty.billing ≡ some (into_subscription shop)
unfolding get_active_subscription latest retain
subscribed = refl

process_stk_callback-success_example :
    let (s', answer) = process_stk_callback 20 paid waiting in
    Settled 20 paid waiting "t1" row (get_active_subscription "duka" waiting.billing) s' answer
process_stk_callback-success_example =
    process_stk_callback-success 20 paid waiting "t1" row found known refl

process_stk_callback-again_example :
    let s' = (process_stk_callback 20 paid waiting).0 in
    let (s'', answer) = process_stk_callback 30 paid s' in
    (answer ≡ ok tt)
    × (get_active_subscription "duka" s''.billing
        ≡ some (renewed 30 "QK12" (renewed 20 "QK12" (into_subscription shop))))
unfolding unwrap_or
process_stk_callback-again_example =
    process_stk_callback-again 20 30 paid paid waiting "t1" row (into_subscription shop) found known
      subscribed refl refl refl

initiate_stk_push-paid_example :
    let (s'', answer) = process_stk_callback 20 paid waiting in
    (answer ≡ ok tt)
    × (get_active_subscription "duka" s''.billing
        ≡ some (renewed 20 "QK12" (into_subscription shop)))
    × (Option.map shown (get_payment_status "duka" "t1" s'') ≡ some (success, some "QK12"))
unfolding unwrap_or any
initiate_stk_push-paid_example =
    initiate_stk_push-paid daraja 10 20 "t1" "duka" request empty waiting response paid
      (into_subscription shop) started refl subscribed refl refl
