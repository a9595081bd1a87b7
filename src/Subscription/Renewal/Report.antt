-- ===== src/Subscription/Renewal/Report.antt =====
-- The report of a run accounts for every subscription that was due.
use angavu_intelligence_back.Common.{
  ℕ, ◌+◌, ◌≡◌, Bool, Option, none, some, List, [], ◌∷◌, String, length, retain, arith,
}
use angavu_intelligence_back.Subscription.{Subscription, SubscriptionRow, into_subscription}
use angavu_intelligence_back.Subscription.Store.{Db, has_id, update_where}
use angavu_intelligence_back.Subscription.Renewal.{
  RenewalReport, Progress, empty_report, is_due, grace_expired, suspend_row, debit, renew,
  renew_all, suspend_all, process_renewals,
}

abbrev outcomes : RenewalReport → ℕ
outcomes r = r.free_renewals + r.mpesa_initiated + r.mpesa_failed + r.errors

module _ (invoice : Subscription → Bool) (stk_push : Subscription → String → Bool) where
  -- What the report gains by one subscription.
  debit-counts :
      (now : ℕ) (sub : Subscription) (phone : Option String) (p : Progress)
      → let r = (debit invoice stk_push now sub phone p).1 in
        (outcomes r ≡ outcomes p.1 + 1) × (r.total_processed ≡ p.1.total_processed)
  unfolding debit
  debit-counts now sub none (rows, report) = ground arith
  debit-counts now sub (some phone) (rows, report) = ground arith

  renew-counts :
      (now : ℕ) (d : SubscriptionRow) (p : Progress)
      → let r = (renew invoice stk_push now d p).1 in
        (outcomes r ≡ outcomes p.1 + 1) × (r.total_processed ≡ p.1.total_processed + 1)
  unfolding renew
  renew-counts now d (rows, report) =
      let sub = into_subscription d in
      let counted : RenewalReport = record report {
        total_processed = report.total_processed + 1;
      } in
      ground (arith, debit-counts now sub sub.mpesa_phone (rows, counted))

  renew_all-counts :
      (now : ℕ) (ds : List SubscriptionRow) (p : Progress)
      → let r = (renew_all invoice stk_push now ds p).1 in
        (outcomes r ≡ outcomes p.1 + length ds)
        × (r.total_processed ≡ p.1.total_processed + length ds)
  unfolding renew_all
  renew_all-counts now [] p = omega arith
  renew_all-counts now (d ∷ ds) p =
      omega (arith, renew-counts now d p, renew_all-counts now ds (renew invoice stk_push now d p))

  suspend_all-counts :
      (now : ℕ) (ds : List SubscriptionRow) (p : Progress)
      → let r = (suspend_all now ds p).1 in
        (outcomes r ≡ outcomes p.1)
        × (r.total_processed ≡ p.1.total_processed)
        × (r.suspended ≡ p.1.suspended + length ds)
  unfolding suspend_all
  suspend_all-counts now [] p = omega arith
  suspend_all-counts now (d ∷ ds) (rows, report) =
      let report' : RenewalReport = record report { suspended = report.suspended + 1 } in
      omega (
        arith,
        suspend_all-counts now ds (update_where (has_id d.id) (suspend_row now) rows, report'),
      )

  -- The report of a run counts each subscription that was due once: as many were processed as were
  -- due, and each of them is a free renewal, a debit started, a debit failed or an error.
  pub process_renewals-counts :
      (now : ℕ) (db : Db)
      → let report = (process_renewals invoice stk_push now db).1 in
        (report.total_processed ≡ length (retain (is_due now) db.rows))
        × (report.free_renewals + report.mpesa_initiated + report.mpesa_failed + report.errors
            ≡ report.total_processed)
  unfolding process_renewals
  process_renewals-counts now db =
      let due = retain (is_due now) db.rows in
      let p = renew_all invoice stk_push now due (db.rows, empty_report) in
      omega (
        arith,
        renew_all-counts now due (db.rows, empty_report),
        suspend_all-counts now (retain (grace_expired now) p.0) p,
      )
