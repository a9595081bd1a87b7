-- ===== src/Mpesa/Callback/Journey.antt =====
-- From the start of a payment to the callback that reports it.
use angavu_intelligence_back.Common.{
  find, ℕ, ◌≡◌, refl, ap, sym, subst, ◌∙◌, Bool, true, false, Option, some, List, String,
  str_eq_refl, ok, any, arith,
}
use mathlib.Core.Option
use angavu_intelligence_back.Subscription.{Subscription}
use angavu_intelligence_back.Subscription.Store.{get_active_subscription}
use angavu_intelligence_back.Subscription.Lifecycle.{renewed}
use angavu_intelligence_back.Mpesa.{
  DarajaStkResponse, Store, StkPushRequest, StkPushResponse, PaymentStatus, PaymentState, pending,
  success,
}
use angavu_intelligence_back.Mpesa.State
use angavu_intelligence_back.Mpesa.Payments.{
  has_id, first, find_txn, store_payment, get_payment_status, get_payment_status-first, into_status,
  new_payment,
}
use angavu_intelligence_back.Mpesa.Initiate.{
  initiate_stk_push, initiate_stk_push-ok, with_pending, stk_response, unwrap_or_default,
}
use angavu_intelligence_back.Mpesa.Callback.{
  StkCallback, is_code, succeed_row, process_stk_callback,
}
use angavu_intelligence_back.Mpesa.Callback.Success.{receipt_of}
use angavu_intelligence_back.Mpesa.Callback.Repeated.{process-Settled}

abbrev pub shown : PaymentStatus → PaymentState × Option String
shown p = (p.status, p.mpesa_receipt)

-- A start that succeeded with a new id, followed by the callback that reports its checkout as paid,
-- pays the organisation's subscription, where it has one that is not cancelled; the payment then reads
-- back as a success with its receipt.
pub initiate_stk_push-paid :
    (daraja : List ℕ → StkPushRequest → Option (Bool × (String × DarajaStkResponse)))
    (now later : ℕ) (txn_id org_id : String) (req : StkPushRequest) (s s' : Store)
    (resp : StkPushResponse) (c : StkCallback) (sub : Subscription)
    → initiate_stk_push now txn_id org_id daraja req s ≡ (s', ok resp)
    → any (has_id txn_id) s.payments ≡ false
    → get_active_subscription org_id s.billing ≡ some sub
    → c.checkout_request_id ≡ resp.checkout_request_id
    → is_code c.result_code 0 ≡ true
    → let (s'', answer) = process_stk_callback later c s' in
      (answer ≡ ok tt)
      × (get_active_subscription org_id s''.billing ≡ some (renewed later (receipt_of c) sub))
      × (Option.map shown (get_payment_status org_id txn_id s'')
          ≡ some (success, some (receipt_of c)))
unfolding with_pending stk_response new_payment store_payment first find_txn find into_status
    State.from_str
initiate_stk_push-paid daraja now later txn_id org_id req s s' resp c sub h new subscribed same
      paid =
    let (phone, body, e, e') = initiate_stk_push-ok now txn_id org_id daraja req s s' resp h in
    let checkout_id = unwrap_or_default body.checkout_request_id in
    let start = with_pending now txn_id org_id phone req.amount body s in
    let row =
      new_payment now txn_id org_id phone req.amount pending "" (some checkout_id)
        (some (unwrap_or_default body.merchant_request_id)) in
    let found : find_txn c.checkout_request_id start ≡ some txn_id =
      rw (same ∙ ap (λ x. x.checkout_request_id) (sym e'))
        (ground (arith, str_eq_refl checkout_id)) in
    let known : first (has_id txn_id) start.payments ≡ some row =
      ground (arith, new, str_eq_refl txn_id) in
    let (a, b, d) = process-Settled later c start txn_id row sub found known paid subscribed in
    let end = (process_stk_callback later c start).0 in
    let told =
      get_payment_status-first txn_id org_id end (succeed_row later (receipt_of c) row) d refl in
    subst
      (λ x.
        let (s'', answer) = process_stk_callback later c x in
        (answer ≡ ok tt)
        × (get_active_subscription org_id s''.billing ≡ some (renewed later (receipt_of c) sub))
        × (Option.map shown (get_payment_status org_id txn_id s'')
            ≡ some (success, some (receipt_of c))))
      e (a, b, ap (Option.map shown) told)
