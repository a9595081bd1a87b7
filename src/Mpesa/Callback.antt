-- ===== src/Mpesa/Callback.antt =====
-- rust-api/src/billing/mpesa.rs: `process_stk_callback`. The database transaction of a success is
-- written as a copy of the store that counts only if the whole of it succeeds.
use angavu_intelligence_back.Common.{
  ℕ, Option, none, some, List, String, ◌==◌, Bool, true, false, Result, ok, err, if◌then◌else◌,
}
use angavu_intelligence_back.Subscription
use angavu_intelligence_back.Subscription.Store
use angavu_intelligence_back.Subscription.Store.{Db, confirm_payment_tx, cache_del}
use angavu_intelligence_back.Mpesa.{
  PaymentRow, Store, Error, payment_not_found, row_not_found, no_subscription,
}
use angavu_intelligence_back.Mpesa.State.{PaymentState, failed, cancelled, as_str}
use angavu_intelligence_back.Mpesa.Payments.{has_id, first, find_txn, update_payment}
pub mod Success
pub mod Repeated
pub mod Journey

-- A signed number; `negsuc n` is -(n + 1).
pub data ℤ : Type 0 where
  pos negsuc : ℕ → ℤ

abbrev pub is_code : ℤ → ℕ → Bool
is_code (pos n) m = n == m
is_code (negsuc _) m = false

-- The arguments of a callback; an amount is in cents.
pub record StkCallback : Type 0 where
  pub checkout_request_id : String
  pub result_code : ℤ  -- i32
  pub result_desc : String
  pub amount : Option ℕ
  pub receipt : Option String

unfoldable pub unwrap_or {ℓ} : {A : Type ℓ} → A → Option A → A
unwrap_or d none = d
unwrap_or d (some a) = a

abbrev pub succeed_row : ℕ → String → PaymentRow → PaymentRow
succeed_row now receipt r = record r {
  status = "success";
  mpesa_receipt = some receipt;
  updated_at = now;
}

abbrev pub fail_row : ℕ → PaymentState → String → PaymentRow → PaymentRow
fail_row now state desc r = record r {
  status = as_str state;
  error_message = some desc;
  updated_at = now;
}

abbrev pub Answer : Type 0
Answer = Result {0, 0} Error Unit

-- `tx.commit()`, and the `DEL` of the cache entry, unless the confirmation failed.
unfoldable pub commit :
    String → Store → List PaymentRow → Db × Result Store.Error Bool → Store × Answer
commit org_id s payments (billing, err _) = (s, err no_subscription)
commit org_id s payments (billing, ok _) = (
  record s {
    payments = payments;
    billing = record billing { cache = cache_del org_id billing.cache };
  },
  ok tt,
)

unfoldable pub confirmed : ℕ → String → StkCallback → Store → Store × Answer
confirmed now txn_id c s =
    let receipt = unwrap_or "" c.receipt in
    let payments = update_payment txn_id (succeed_row now receipt) s.payments in
    elim (first (has_id txn_id) payments) [
      | none ↦ (s, err row_not_found)
      | some r ↦
          commit r.org_id s payments
            (confirm_payment_tx now r.org_id receipt (unwrap_or 0 c.amount) s.billing)
    ]

abbrev pub failure_state : ℤ → PaymentState
failure_state code = if is_code code 1032 then cancelled else failed

unfoldable pub rejected : ℕ → String → StkCallback → Store → Store × Answer
rejected now txn_id c s = (
  record s {
    payments =
        update_payment txn_id (fail_row now (failure_state c.result_code) c.result_desc) s.payments;
  },
  ok tt,
)

unfoldable pub process_stk_callback : ℕ → StkCallback → Store → Store × Answer
process_stk_callback now c s = elim (find_txn c.checkout_request_id s) [
  | none ↦ (s, err payment_not_found)
  | some txn_id ↦
      if is_code c.result_code 0 then confirmed now txn_id c s else rejected now txn_id c s
]
