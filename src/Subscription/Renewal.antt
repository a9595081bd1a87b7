-- ===== src/Subscription/Renewal.antt =====
-- rust-api/src/billing/subscription.rs: `process_renewals`, with `advance_billing_period` and
-- `mark_past_due`. Whether `create_invoice` and `initiate_stk_push` succeed for a subscription is a
-- parameter, since they do not write the table. The counts of failed payments stay far from the limit of
-- INT, which is left out. The counters of the report count rows of a query and are left unbounded.
use angavu_intelligence_back.Common.{
  ℕ, suc, ◌+◌, Bool, true, false, ◌&&◌, ◌||◌, Option, none, some, List, [], ◌∷◌, String, str_eq,
  ltb, leb, retain, if◌then◌else◌,
}
use angavu_intelligence_back.Subscription.{
  Subscription, SubscriptionRow, SubscriptionTier, free, days, into_subscription,
}
use angavu_intelligence_back.Subscription.Store.{Db, has_id, update_where}
pub mod Batch
pub mod Outcome
pub mod Sweep
pub mod Report

pub record RenewalReport : Type 0 where
  pub total_processed : ℕ
  pub free_renewals : ℕ
  pub mpesa_initiated : ℕ
  pub mpesa_failed : ℕ
  pub suspended : ℕ
  pub errors : ℕ

abbrev pub empty_report : RenewalReport
empty_report = record {
  total_processed = 0;
  free_renewals = 0;
  mpesa_initiated = 0;
  mpesa_failed = 0;
  suspended = 0;
  errors = 0;
}

-- The query of the subscriptions that are due.
abbrev pub is_due : ℕ → SubscriptionRow → Bool
is_due now r =
    (str_eq r.status "active" || str_eq r.status "trial")
    && (leb r.current_period_end (now + days 1) && ltb now (r.current_period_end + days 1))

-- The rows of that query, the ones that the loop goes over.
abbrev pub due : ℕ → List SubscriptionRow → List SubscriptionRow
due now = retain (is_due now)

abbrev pub advance_row : ℕ → SubscriptionRow → SubscriptionRow
advance_row now r = record r {
  status = "active";
  current_period_start = now;
  current_period_end = now + days 30;
  failed_payment_count = 0;
  grace_period_end = none;
  updated_at = now;
}

unfoldable pub advance_billing_period :
    ℕ → Subscription → List SubscriptionRow → List SubscriptionRow
advance_billing_period now sub = update_where (has_id sub.id) (advance_row now)

abbrev pub past_due_row : ℕ → SubscriptionRow → SubscriptionRow
past_due_row now r = record r {
  status = "past_due";
  failed_payment_count = r.failed_payment_count + 1;
  grace_period_end = some (now + days 7);
  updated_at = now;
}

unfoldable pub mark_past_due : ℕ → Subscription → List SubscriptionRow → List SubscriptionRow
mark_past_due now sub = update_where (has_id sub.id) (past_due_row now)

-- `grace_period_end < now`, false where it is NULL.
abbrev before : ℕ → Option ℕ → Bool
before now none = false
before now (some t) = ltb t now

abbrev pub grace_expired : ℕ → SubscriptionRow → Bool
grace_expired now r = str_eq r.status "past_due" && before now r.grace_period_end

abbrev pub suspend_row : ℕ → SubscriptionRow → SubscriptionRow
suspend_row now r = record r { status = "suspended"; updated_at = now }

abbrev pub is_free : SubscriptionTier → Bool
is_free free = true
is_free _ = false

abbrev pub Progress : Type 0
Progress = List SubscriptionRow × RenewalReport

-- The loop over the subscriptions whose grace period is over.
unfoldable pub suspend_all : ℕ → List SubscriptionRow → Progress → Progress
suspend_all now [] p = p
suspend_all now (row ∷ expired) (rows, report) = suspend_all now expired (
  update_where (has_id row.id) (suspend_row now) rows,
  record report { suspended = report.suspended + 1 },
)

module _ (invoice : Subscription → Bool) (stk_push : Subscription → String → Bool) where
  unfoldable pub debit : ℕ → Subscription → Option String → Progress → Progress
  unfolding mark_past_due
  debit now sub none (rows, report) =
      (mark_past_due now sub rows, record report { mpesa_failed = report.mpesa_failed + 1 })
  debit now sub (some phone) (rows, report) =
      if stk_push sub phone
      then (rows, record report { mpesa_initiated = report.mpesa_initiated + 1 })
      else (mark_past_due now sub rows, record report { mpesa_failed = report.mpesa_failed + 1 })

  -- The body of the loop over the due subscriptions.
  unfoldable pub renew : ℕ → SubscriptionRow → Progress → Progress
  unfolding debit advance_billing_period
  renew now row (rows, report) =
      let sub = into_subscription row in
      let counted = record report { total_processed = report.total_processed + 1 } in
      if is_free sub.tier
      then (
        advance_billing_period now sub rows,
        record counted { free_renewals = counted.free_renewals + 1 },
      )
      else if invoice sub
      then debit now sub sub.mpesa_phone (rows, counted)
      else (rows, record counted { errors = counted.errors + 1 })

  unfoldable pub renew_all : ℕ → List SubscriptionRow → Progress → Progress
  renew_all now [] p = p
  renew_all now (row ∷ rows) p = renew_all now rows (renew now row p)

  unfoldable pub process_renewals : ℕ → Db → Db × RenewalReport
  process_renewals now db =
      let (rows, report) = renew_all now (due now db.rows) (db.rows, empty_report) in
      let (rows', report') = suspend_all now (retain (grace_expired now) rows) (rows, report) in
      (record db { rows = rows' }, report')
