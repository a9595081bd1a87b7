-- ===== src/Mpesa/Callback/Repeated.antt =====
-- Callbacks that come again, and failures that come after a success.
use angavu_intelligence_back.Common.{
  ℕ, ◌≡◌, refl, ap, subst, ◌∙◌, Bool, true, false, some, String, Result, ok, err,
}
use mathlib.Core.Option
use angavu_intelligence_back.Subscription.{Subscription}
use angavu_intelligence_back.Subscription.Store
use angavu_intelligence_back.Subscription.Store.{Db, get_active_subscription, confirm_payment_tx}
use angavu_intelligence_back.Subscription.Lifecycle.{renewed}
use angavu_intelligence_back.Mpesa
use angavu_intelligence_back.Mpesa.{PaymentRow}
use angavu_intelligence_back.Mpesa.Payments.{
  has_id, first, find_txn, update_payment, find_txn-update,
}
use angavu_intelligence_back.Mpesa.Callback.{
  StkCallback, unwrap_or, is_code, failure_state, fail_row, succeed_row, rejected, commit,
  process_stk_callback,
}
use angavu_intelligence_back.Mpesa.Callback.Success.{
  receipt_of, first-update, process-confirmed, Settled, process_stk_callback-success,
}

module _ (now : ℕ) (c : StkCallback) (s : Mpesa.Store) (txn_id : String) (r : PaymentRow) where
  -- Where the transaction of a callback is found, and its payment stands in the table, a callback with
  -- any result code but 0 leaves the subscriptions as they are, and marks the payment as cancelled for
  -- the code 1032 and as failed for any other, whatever its status was: also one that had succeeded.
  pub process_stk_callback-failure :
      find_txn c.checkout_request_id s ≡ some txn_id
      → first (has_id txn_id) s.payments ≡ some r
      → is_code c.result_code 0 ≡ false
      → let (s', answer) = process_stk_callback now c s in
        (s'.billing ≡ s.billing)
        × (answer ≡ ok tt)
        × (first (has_id txn_id) s'.payments
            ≡ some (fail_row now (failure_state c.result_code) c.result_desc r))
  unfolding process_stk_callback rejected
  process_stk_callback-failure found known failure =
      let f = fail_row now (failure_state c.result_code) c.result_desc in
      rw (found, process_stk_callback, failure)
        (refl, refl, first-update txn_id f s.payments (λ q. refl) ∙ ap (Option.map f) known)

find_txn-commit :
    (now : ℕ) (k org_id txn_id receipt : String) (s : Mpesa.Store)
    (x : Db × Result Store.Error Bool)
    → find_txn k (commit org_id s (update_payment txn_id (succeed_row now receipt) s.payments) x).0
      ≡ find_txn k s
unfolding commit
find_txn-commit now k org_id txn_id receipt s (db, err _) = refl
find_txn-commit now k org_id txn_id receipt s (db, ok _) =
    find_txn-update k txn_id (succeed_row now receipt) s _ (λ q. (refl, refl)) refl refl

module _ (now : ℕ) (c : StkCallback) (s : Mpesa.Store) (txn_id : String) (r : PaymentRow) where
  pub process-Settled :
      (sub : Subscription)
      → find_txn c.checkout_request_id s ≡ some txn_id
      → first (has_id txn_id) s.payments ≡ some r
      → is_code c.result_code 0 ≡ true
      → get_active_subscription r.org_id s.billing ≡ some sub
      → let (s', answer) = process_stk_callback now c s in
        Settled now c s txn_id r (some sub) s' answer
  process-Settled sub found known success e =
      subst
        (λ o.
          let (s', answer) = process_stk_callback now c s in Settled now c s txn_id r o s' answer)
        e (process_stk_callback-success now c s txn_id r found known success)

  find_after :
      find_txn c.checkout_request_id s ≡ some txn_id
      → first (has_id txn_id) s.payments ≡ some r
      → is_code c.result_code 0 ≡ true
      → find_txn c.checkout_request_id (process_stk_callback now c s).0
        ≡ find_txn c.checkout_request_id s
  find_after found known success = rw (process-confirmed now c s txn_id r found known success) (
      find_txn-commit now c.checkout_request_id r.org_id txn_id (receipt_of c) s
        (confirm_payment_tx now r.org_id (receipt_of c) (unwrap_or 0 c.amount) s.billing))

-- Where the transaction of a callback is found, its payment stands in the table, and the organisation
-- has a subscription that is not cancelled: when the same checkout is reported as paid a second time,
-- the second report is answered as a success too, and the subscription then runs for 30 days from it.
pub process_stk_callback-again :
    (now later : ℕ) (c c' : StkCallback) (s : Mpesa.Store) (txn_id : String) (r : PaymentRow)
    (sub : Subscription)
    → find_txn c.checkout_request_id s ≡ some txn_id
    → first (has_id txn_id) s.payments ≡ some r
    → get_active_subscription r.org_id s.billing ≡ some sub
    → is_code c.result_code 0 ≡ true
    → c'.checkout_request_id ≡ c.checkout_request_id
    → is_code c'.result_code 0 ≡ true
    → let s' = (process_stk_callback now c s).0 in
      let (s'', answer) = process_stk_callback later c' s' in
      (answer ≡ ok tt)
      × (get_active_subscription r.org_id s''.billing
          ≡ some (renewed later (receipt_of c') (renewed now (receipt_of c) sub)))
process_stk_callback-again now later c c' s txn_id r sub found known subscribed success same
      success' =
    let s' = (process_stk_callback now c s).0 in
    let a = process-Settled now c s txn_id r sub found known success subscribed in
    let found' = find_after now c s txn_id r found known success in
    let b =
      process-Settled later c' s' txn_id (succeed_row now (receipt_of c) r)
        (renewed now (receipt_of c) sub) (rw (same, found') found) a.2 success' a.1 in
    (b.0, b.1)
