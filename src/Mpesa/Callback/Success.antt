-- ===== src/Mpesa/Callback/Success.antt =====
-- A callback that reports a payment pays the subscription, and touches nothing else.
use angavu_intelligence_back.Common.{
  ℕ, ◌≡◌, ◌≢◌, refl, ap, ◌∙◌, true, Option, none, some, List, [], ◌∷◌, String, str_eq_iff, ok, err,
  Option-cases, inl, inr, arith,
}
use mathlib.Core.Option
use angavu_intelligence_back.Subscription.{Subscription}
use angavu_intelligence_back.Subscription.Store.{
  CacheEntry, Db, get_active_subscription, confirm_payment_tx, open_for, paid_rows, pay_row,
}
use angavu_intelligence_back.Subscription.Tables.{retain-update_other}
use angavu_intelligence_back.Subscription.Lifecycle.{renewed, paid_read}
use angavu_intelligence_back.Mpesa.{PaymentRow, Store, no_subscription}
use angavu_intelligence_back.Mpesa.Payments.{has_id, first, find_txn, update_payment}
use angavu_intelligence_back.Mpesa.Callback.{
  StkCallback, Answer, is_code, unwrap_or, succeed_row, confirmed, commit, process_stk_callback,
}

module _ (id : String) (f : PaymentRow → PaymentRow) where
  pub first-update :
      (rows : List PaymentRow)
      → ((r : PaymentRow) → (f r).id ≡ r.id)
      → first (has_id id) (update_payment id f rows) ≡ Option.map f (first (has_id id) rows)
  unfolding first update_payment
  first-update [] same = refl
  first-update (r ∷ rows) same = ground (arith, first-update rows same, same r)

  pub first-update_ne :
      (j : String) (rows : List PaymentRow)
      → j ≢ id
      → ((r : PaymentRow) → (f r).id ≡ r.id)
      → first (has_id j) (update_payment id f rows) ≡ first (has_id j) rows
  unfolding first update_payment
  first-update_ne j [] ne same = refl
  first-update_ne j (r ∷ rows) ne same =
      ground (arith, first-update_ne j rows ne same, same r, str_eq_iff r.id id, str_eq_iff r.id j)

module _ (now : ℕ) (receipt : String) where
  other_unpaid :
      (other_org org_id : String) (db : Db) (cache : List (String × CacheEntry))
      → other_org ≢ org_id
      → get_active_subscription other_org
          (record (paid_rows now org_id receipt db) { cache = cache })
        ≡ get_active_subscription other_org db
  unfolding get_active_subscription
  other_unpaid other_org org_id db cache ne =
      rw
        (
          retain-update_other (open_for other_org) (open_for org_id) (pay_row now receipt) db.rows
              (λ r h. ground (arith, str_eq_iff r.org_id org_id, str_eq_iff r.org_id other_org)),
          get_active_subscription,
        )
        refl

abbrev pub receipt_of : StkCallback → String
receipt_of c = unwrap_or "" c.receipt

module _ (now : ℕ) (c : StkCallback) (s : Store) (txn_id : String) (r : PaymentRow) where
  pub process-confirmed :
      find_txn c.checkout_request_id s ≡ some txn_id
      → first (has_id txn_id) s.payments ≡ some r
      → is_code c.result_code 0 ≡ true
      → process_stk_callback now c s
        ≡ commit r.org_id s
            (update_payment txn_id (succeed_row now (receipt_of c)) s.payments)
            (confirm_payment_tx now r.org_id (receipt_of c) (unwrap_or 0 c.amount) s.billing)
  unfolding process_stk_callback confirmed
  process-confirmed found known success =
      rw
        (
          found,
          process_stk_callback,
          success,
          confirmed,
          first-update txn_id (succeed_row now (receipt_of c)) s.payments (λ q. refl),
          known,
        )
        refl

  -- The store and the answer of a callback that reports success, from the organisation's subscription.
  abbrev pub Settled : Option Subscription → Store → Answer → Type 0
  Settled none s' answer = (s' ≡ s) × (answer ≡ err no_subscription)
  Settled (some sub) s' answer =
      (answer ≡ ok tt)
      × (get_active_subscription r.org_id s'.billing ≡ some (renewed now (receipt_of c) sub))
      × (first (has_id txn_id) s'.payments ≡ some (succeed_row now (receipt_of c) r))

  -- Where the transaction of a callback is found, and its payment stands in the table: a callback that
  -- reports success pays the subscription of the payment's organisation for 30 days from now and marks
  -- the payment, both, if the organisation has a subscription that is not cancelled; otherwise it
  -- fails and changes nothing.
  pub process_stk_callback-success :
      find_txn c.checkout_request_id s ≡ some txn_id
      → first (has_id txn_id) s.payments ≡ some r
      → is_code c.result_code 0 ≡ true
      → let (s', answer) = process_stk_callback now c s in
        Settled (get_active_subscription r.org_id s.billing) s' answer
  unfolding commit confirm_payment_tx
  process_stk_callback-success found known success =
      elim (Option-cases (get_active_subscription r.org_id s.billing)) [
        | inl n ↦ rw (process-confirmed found known success, n, confirm_payment_tx) (refl, refl)
        | inr (sub, e) ↦
            rw (process-confirmed found known success, e, confirm_payment_tx)
              (
                refl,
                paid_read now r.org_id (receipt_of c) s.billing _
                    ∙ ap (Option.map (renewed now (receipt_of c))) e,
                first-update txn_id (succeed_row now (receipt_of c)) s.payments (λ q. refl)
                    ∙ ap (Option.map (succeed_row now (receipt_of c))) known,
              )
      ]

  -- The callback leaves the payments of other transactions and the subscriptions of other
  -- organisations as they are.
  pub process_stk_callback-others :
      (other_id other_org : String)
      → find_txn c.checkout_request_id s ≡ some txn_id
      → first (has_id txn_id) s.payments ≡ some r
      → is_code c.result_code 0 ≡ true
      → other_id ≢ txn_id
      → other_org ≢ r.org_id
      → let s' = (process_stk_callback now c s).0 in
        (first (has_id other_id) s'.payments ≡ first (has_id other_id) s.payments)
        × (get_active_subscription other_org s'.billing
            ≡ get_active_subscription other_org s.billing)
  unfolding commit confirm_payment_tx
  process_stk_callback-others other_id other_org found known success ne_id ne_org =
      let f = succeed_row now (receipt_of c) in
      elim (Option-cases (get_active_subscription r.org_id s.billing)) [
        | inl n ↦ rw (process-confirmed found known success, n, confirm_payment_tx) (refl, refl)
        | inr (sub, e) ↦
            rw (process-confirmed found known success, e, confirm_payment_tx)
              (
                first-update_ne txn_id f other_id s.payments ne_id (λ q. refl),
                other_unpaid now (receipt_of c) other_org r.org_id s.billing _ ne_org,
              )
      ]
