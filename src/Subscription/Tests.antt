-- ===== src/Subscription/Tests.antt =====
-- Examples for subscriptions: one trial, one row that is past due, and an organisation without any.
use mathlib.Core.Option
use angavu_intelligence_back.Common.{
  ◌≡◌, refl, inr, Bool, true, false, none, some, List, [], ◌∷◌, map, String, ok, err, any, retain,
  length, get_elem?, if◌then◌else◌, arith,
}
use angavu_intelligence_back.Subscription.{Subscription, SubscriptionRow, pro}
use angavu_intelligence_back.Subscription.Status
use angavu_intelligence_back.Subscription.Tier
use angavu_intelligence_back.Subscription.Store.{
  Db, CreateSubscriptionRequest, nothing_to_cancel, not_found_after_cancellation, no_subscription,
  open_for, unique_active, has_id, get_active_subscription, cancel_subscription, mismatch,
  confirm_payment, already_subscribed, unique_violation, create_subscription, new_subscription,
  new_row, insert_row, update_where, latest, recently_cancelled, reactivate_subscription,
}
use angavu_intelligence_back.Subscription.Lifecycle.{
  renewed, cancel_subscription-err, confirm_payment_lem,
}
use angavu_intelligence_back.Subscription.Keys.{
  IsSound, Operation, create, cancel, reactivate, pay, run_renewals, perform, history,
}
use angavu_intelligence_back.Subscription.Renewal.{process_renewals, suspend_all, renew_all}
use angavu_intelligence_back.Subscription.Renewal.Outcome.{settled, process_renewals-rows}
use angavu_intelligence_back.Subscription.Renewal.Sweep.{Run, runs, handled, runs-stale}
use angavu_intelligence_back.Subscription.Refused.{
  create_subscription-history, reactivate_subscription-refused,
}

abbrev trial_row : SubscriptionRow
trial_row = record {
  id = "s1";
  org_id = "duka";
  tier = "pro";
  status = "trial";
  mpesa_phone = some "254700000001";
  billing_cycle_day = 3;
  current_period_start = 0;
  current_period_end = 100;
  trial_start = some 0;
  trial_end = some 100;
  grace_period_end = none;
  cancelled_at = none;
  cancel_reason = none;
  last_payment_at = none;
  last_payment_receipt = none;
  failed_payment_count = 0;
  created_at = 0;
  updated_at = 0;
}

abbrev late_row : SubscriptionRow
late_row = record trial_row {
  id = "s2";
  org_id = "soko";
  status = "past_due";
  grace_period_end = some 150;
  failed_payment_count = 1;
}

abbrev shops : Db
shops = record { rows = trial_row ∷ late_row ∷ []; cache = [] }

abbrev order : CreateSubscriptionRequest
order = record { tier = pro; mpesa_phone = none; skip_trial = none; coupon_code = none }

abbrev invoice : Subscription → Bool
invoice s = true

abbrev stk_push : Subscription → String → Bool
stk_push s phone = false

shops-IsSound : IsSound shops
unfolding unique_active any
shops-IsSound = record { distinct = ((refl, tt), (tt, tt)); unique = refl }

new_id : any (has_id "s3") shops.rows ≡ false
unfolding any
new_id = refl

cancel_subscription-err_example :
    let (db', r) = cancel_subscription 200 "duka" shops in
    (r
      ≡ err (
          if any (open_for "duka") shops.rows
          then not_found_after_cancellation
          else nothing_to_cancel))
    × (get_active_subscription "duka" db' ≡ none)
cancel_subscription-err_example = cancel_subscription-err 200 "duka" shops

confirm_payment_lem_example :
    let (db', r) = confirm_payment 200 "soko" "QK12" 1 shops in
    (get_active_subscription "soko" db'
      ≡ Option.map (renewed 200 "QK12") (get_active_subscription "soko" shops))
    × (r ≡ elim (get_active_subscription "soko" shops) [
      | none ↦ err no_subscription
      | some s ↦ ok (mismatch 1 (Tier.monthly_price_kes s.tier))
    ])
confirm_payment_lem_example = confirm_payment_lem 200 "soko" "QK12" 1 shops

process_renewals-rows_example :
    (process_renewals invoice stk_push 200 shops).0.rows
    ≡ map (settled invoice stk_push 200) shops.rows
process_renewals-rows_example =
    process_renewals-rows invoice stk_push 200 shops shops-IsSound.distinct

-- The day after the trial ended, and the day after that.
-- Another outcome of the debits in each of them.
abbrev next_days : List Run
next_days =
    record { now = 86400000100; invoice = invoice; stk_push = stk_push }
    ∷ record { now = 172800000100; invoice = invoice; stk_push = λ s phone. true }
    ∷ []

runs-stale_example :
    (get_elem? (runs next_days shops).rows 0 ≡ some trial_row)
    × (any (has_id "s1") (handled next_days shops) ≡ false)
runs-stale_example =
    runs-stale next_days shops 0 trial_row shops-IsSound.distinct refl (inr refl)
      (omega arith, (omega arith, tt))

abbrev year : List Operation
year =
    create 200 31 "s3" "kiosk" order
    ∷ pay 300 "soko" "QK12" 200000
    ∷ cancel 400 "duka"
    ∷ run_renewals (record { now = 500; invoice = invoice; stk_push = stk_push })
    ∷ reactivate 600 "duka"
    ∷ []

abbrev free_id : String
free_id = "s4"

untaken : any (has_id free_id) (history shops year).rows ≡ false
unfolding any history perform create_subscription cancel_subscription reactivate_subscription
    confirm_payment get_active_subscription latest unique_active insert_row update_where new_row
    process_renewals suspend_all retain renew_all Status.as_str
untaken = refl

create_subscription-history_example :
    let db' = history shops year in
    let (after, answer) = create_subscription 700 31 free_id "duka" order db' in
    (answer ≡ (
      if any (open_for "duka") db'.rows
      then err already_subscribed
      else ok (new_subscription 700 31 free_id "duka" order)))
    × (after.rows ≡ (
        if any (open_for "duka") db'.rows
        then db'.rows
        else new_row 700 31 free_id "duka" order ∷ db'.rows))
create_subscription-history_example =
    create_subscription-history shops year 700 31 free_id "duka" order shops-IsSound untaken

-- A shop that cancelled twice in a month.
abbrev left_twice : Db
left_twice = record {
  rows =
      record trial_row { status = "cancelled"; cancelled_at = some 50 }
      ∷ record trial_row { id = "s5"; status = "cancelled"; cancelled_at = some 90 }
      ∷ [];
  cache = [];
}

both_gone : length (retain (recently_cancelled 100 "duka") left_twice.rows) ≡ 2
unfolding retain
both_gone = refl

none_open : length (retain (open_for "duka") left_twice.rows) ≡ 0
unfolding retain
none_open = refl

reactivate_subscription-refused_example :
    reactivate_subscription 100 "duka" left_twice ≡ (left_twice, err unique_violation)
reactivate_subscription-refused_example =
    reactivate_subscription-refused 100 "duka" left_twice (omega (arith, both_gone))
      (omega (arith, both_gone, none_open))
