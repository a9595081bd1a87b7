-- ===== src/Subscription/Lifecycle.antt =====
-- What creating, cancelling and paying do to the subscription that an organisation reads back.
use mathlib.Core.Option
use angavu_intelligence_back.Common.{
  ℕ, ◌+◌, ◌%◌, ◌≡◌, refl, ap, ◌∙◌, min, Bool, true, false, not, Option, none, some, List, ◌∷◌,
  String, str_eq, str_eq_refl, ok, err, retain, any, if◌then◌else◌, Bool-cases, Option-cases, inl,
  inr, arith,
}
use angavu_intelligence_back.Subscription.{
  Subscription, SubscriptionRow, SubscriptionStatus, SubscriptionTier, free, starter, pro,
  enterprise, trial, active, past_due, suspended, cancelled, days, into_subscription,
}
use angavu_intelligence_back.Subscription.Status
use angavu_intelligence_back.Subscription.Tier
use angavu_intelligence_back.Subscription.Store.{
  Db, CreateSubscriptionRequest, already_subscribed, nothing_to_cancel,
  not_found_after_cancellation, no_subscription, open_for, unique_active, has_id, CacheEntry,
  insert_row, update_where, latest, get_active_subscription, new_row, new_subscription, starts_paid,
  create_subscription, cancel_subscription, cancel_row, pay_row, mismatch, confirm_payment,
}
use angavu_intelligence_back.Subscription.Tables.{
  retain-none, retain-update, latest-update, get_active-none, get_active-some,
}

status_name : (s : SubscriptionStatus) → Status.from_str (Status.as_str s) ≡ s
unfolding Status.from_str Status.as_str
status_name trial = refl
status_name active = refl
status_name past_due = refl
status_name suspended = refl
status_name cancelled = refl

tier_name : (t : SubscriptionTier) → Tier.from_str (Tier.as_str t) ≡ t
unfolding Tier.from_str Tier.as_str
tier_name free = refl
tier_name starter = refl
tier_name pro = refl
tier_name enterprise = refl

into-new_row :
    (now day : ℕ) (id org_id : String) (req : CreateSubscriptionRequest)
    → into_subscription (new_row now day id org_id req) ≡ new_subscription now day id org_id req
unfolding into_subscription new_row new_subscription
into-new_row now day id org_id req =
    let status : SubscriptionStatus = if starts_paid req then active else trial in
    let day_fits : min day 28 % 256 ≡ min day 28 = omega arith in
    λ i. record {
      id = id;
      org_id = org_id;
      tier = tier_name req.tier i;
      status = status_name status i;
      mpesa_phone = req.mpesa_phone;
      billing_cycle_day = day_fits i;
      current_period_start = now;
      current_period_end = if starts_paid req then now + days 30 else now + days 14;
      trial_start = if starts_paid req then none else some now;
      trial_end = if starts_paid req then none else some (now + days 14);
      grace_period_end = none;
      cancelled_at = none;
      cancel_reason = none;
      last_payment_at = none;
      last_payment_receipt = none;
      failed_payment_count = 0;
      created_at = now;
      updated_at = now;
    }

paid_name :
    (b : Bool) → not (str_eq (Status.as_str (if b then active else trial)) "cancelled") ≡ true
unfolding Status.as_str
paid_name true = refl
paid_name false = refl

new_row-open :
    (now day : ℕ) (id org_id : String) (req : CreateSubscriptionRequest)
    → open_for org_id (new_row now day id org_id req) ≡ true
unfolding new_row
new_row-open now day id org_id req = rw (str_eq_refl org_id) (paid_name (starts_paid req))

inserted :
    (now day : ℕ) (id org_id : String) (req : CreateSubscriptionRequest)
    (rows : List SubscriptionRow)
    → unique_active rows ≡ true
    → any (has_id id) rows ≡ false
    → any (open_for org_id) rows ≡ false
    → insert_row (new_row now day id org_id req) rows ≡ some (new_row now day id org_id req ∷ rows)
unfolding insert_row unique_active new_row
inserted now day id org_id req rows u f none_open =
    rw (f, none_open, u, paid_name (starts_paid req))

created_read :
    (now day : ℕ) (id org_id : String) (req : CreateSubscriptionRequest) (db : Db)
    (cache : List (String × CacheEntry))
    → any (open_for org_id) db.rows ≡ false
    → get_active_subscription org_id
        (record { rows = new_row now day id org_id req ∷ db.rows; cache = cache })
      ≡ some (new_subscription now day id org_id req)
unfolding get_active_subscription retain latest
created_read now day id org_id req db cache none_open =
    rw
      (
        new_row-open now day id org_id req,
        retain-none (open_for org_id) db.rows none_open,
        get_active_subscription,
      )
      (ap some (into-new_row now day id org_id req))

-- Where the table keeps its index and the id is new, creation succeeds exactly where the
-- organisation has no subscription that is not cancelled. The subscription that it then returns is the one that is read back; a refusal leaves the
-- database as it was.
pub create_subscription_lem :
    (now day : ℕ) (id org_id : String) (req : CreateSubscriptionRequest) (db : Db)
    → unique_active db.rows ≡ true
    → any (has_id id) db.rows ≡ false
    → let (db', r) = create_subscription now day id org_id req db in
      let sub = new_subscription now day id org_id req in
      (r ≡ elim (get_active_subscription org_id db) [
        | none ↦ ok sub
        | some _ ↦ err already_subscribed
      ])
      × (get_active_subscription org_id db'
          ≡ elim (get_active_subscription org_id db) [ none ↦ some sub | some s ↦ some s ])
unfolding create_subscription
create_subscription_lem now day id org_id req db u f =
    elim (Bool-cases (any (open_for org_id) db.rows)) [
      | inl here ↦ let (s, e) = get_active-some org_id db here in rw (here, e) (refl, refl)
      | inr there ↦
          rw
            (
              there,
              get_active-none org_id db there,
              inserted now day id org_id req db.rows u f there,
            )
            (refl, created_read now day id org_id req db _ there)
    ]

cancelled_none :
    (now : ℕ) (org_id : String) (db : Db)
    → get_active_subscription org_id
        (record db { rows = update_where (open_for org_id) (cancel_row now) db.rows })
      ≡ none
unfolding get_active_subscription latest
cancelled_none now org_id db = rw (
  retain-update (open_for org_id) (cancel_row now) db.rows (λ r. ground arith),
  get_active_subscription,
)

-- A cancellation never reports success: where a subscription was cancelled it answers that none is
-- found after the cancellation, although none is open any more; otherwise that there is none to
-- cancel. Either way the organisation has no subscription that is not cancelled.
pub cancel_subscription-err :
    (now : ℕ) (org_id : String) (db : Db)
    → let (db', r) = cancel_subscription now org_id db in
      (r
        ≡ err (
            if any (open_for org_id) db.rows
            then not_found_after_cancellation
            else nothing_to_cancel))
      × (get_active_subscription org_id db' ≡ none)
unfolding cancel_subscription
cancel_subscription-err now org_id db = elim (Bool-cases (any (open_for org_id) db.rows)) [
  | inl here ↦ rw (here, cancelled_none now org_id db) (refl, cancelled_none now org_id db)
  | inr there ↦ rw there (refl, get_active-none org_id db there)
]

abbrev found_as : Option SubscriptionRow → Option Subscription
found_as none = none
found_as (some r) = some (into_subscription r)

abbrev pub renewed : ℕ → String → Subscription → Subscription
renewed now receipt s = record s {
  status = active;
  last_payment_at = some now;
  last_payment_receipt = some receipt;
  current_period_start = now;
  current_period_end = now + days 30;
  failed_payment_count = 0;
  grace_period_end = none;
  trial_end = none;
  updated_at = now;
}

pub paid_read :
    (now : ℕ) (org_id receipt : String) (db : Db) (cache : List (String × CacheEntry))
    → get_active_subscription org_id (record {
      rows = update_where (open_for org_id) (pay_row now receipt) db.rows;
      cache = cache;
    })
      ≡ Option.map (renewed now receipt) (get_active_subscription org_id db)
unfolding get_active_subscription into_subscription Status.from_str
paid_read now org_id receipt db cache =
    rw
      (
        latest-update (open_for org_id) (pay_row now receipt) db.rows (λ r h. ground arith)
            (λ r. refl),
        get_active_subscription,
      )
      (elim (latest (retain (open_for org_id) db.rows))
        as (λ o.
          found_as (Option.map (pay_row now receipt) o)
          ≡ Option.map (renewed now receipt) (found_as o)) [ none ↦ refl | some r ↦ refl ])

-- A payment succeeds exactly where the organisation has a subscription that is not cancelled, which
-- then reads back as active for 30 days from now, with the grace period and the failures cleared.
-- The amount does not matter: it only decides whether a mismatch is logged.
pub confirm_payment_lem :
    (now : ℕ) (org_id receipt : String) (amount : ℕ) (db : Db)
    → let (db', r) = confirm_payment now org_id receipt amount db in
      (get_active_subscription org_id db'
        ≡ Option.map (renewed now receipt) (get_active_subscription org_id db))
      × (r ≡ elim (get_active_subscription org_id db) [
        | none ↦ err no_subscription
        | some s ↦ ok (mismatch amount (Tier.monthly_price_kes s.tier))
      ])
unfolding confirm_payment
confirm_payment_lem now org_id receipt amount db =
    elim (Option-cases (get_active_subscription org_id db)) [
      | inl n ↦ rw (n, confirm_payment) (n, refl)
      | inr (s, e) ↦
          rw (e, confirm_payment)
            (paid_read now org_id receipt db _ ∙ ap (Option.map (renewed now receipt)) e, refl)
    ]
