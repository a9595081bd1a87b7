-- ===== src/Subscription/Store.antt =====
-- rust-api/src/billing/subscription.rs: the operations of one organisation, over the table
-- `subscriptions` and the status cache. An SQL statement is a function on the list of rows; each
-- statement that can break the unique index of SUBSCRIPTION_MIGRATION checks it. Connections do not
-- fail, ids are handed in, and one `now` serves a whole operation (also for NOW()). The hour after
-- which a cache entry expires is left out.
use angavu_intelligence_back.Common.{
  ℕ, ◌+◌, ◌-◌, ◌*◌, min, Bool, true, false, not, ◌&&◌, ◌||◌, Option, none, some, List, [], ◌∷◌, map,
  String, str_eq, ltb, leb, Result, ok, err, retain, any, if◌then◌else◌,
}
use angavu_intelligence_back.Subscription.{
  Subscription, SubscriptionRow, SubscriptionTier, free, trial, active, days, into_subscription,
}
use angavu_intelligence_back.Subscription.Status
use angavu_intelligence_back.Subscription.Tier

pub data Error : Type 0 where
  already_subscribed nothing_to_cancel not_found_after_cancellation : Error
  nothing_to_reactivate not_found_after_reactivation no_subscription : Error
  unique_violation : Error

pub record CreateSubscriptionRequest : Type 0 where
  pub tier : SubscriptionTier
  pub mpesa_phone : Option String
  pub skip_trial : Option Bool
  pub coupon_code : Option String

-- The cached status of an organisation.
pub record CacheEntry : Type 0 where
  pub tier : String
  pub status : String
  pub period_end : ℕ

pub record Db : Type 0 where
  pub rows : List SubscriptionRow
  pub cache : List (String × CacheEntry)

-- `status NOT IN ('cancelled')`
abbrev pub is_open : SubscriptionRow → Bool
is_open r = not (str_eq r.status "cancelled")

abbrev pub open_for : String → SubscriptionRow → Bool
open_for org_id r = str_eq r.org_id org_id && is_open r

-- `idx_subscriptions_active_org`: at most one row of an organisation is not cancelled.
unfoldable pub unique_active : List SubscriptionRow → Bool
unique_active [] = true
unique_active (r ∷ rows) = not (is_open r && any (open_for r.org_id) rows) && unique_active rows

abbrev pub has_id : String → SubscriptionRow → Bool
has_id id r = str_eq r.id id

-- `INSERT INTO`, refused by the primary key and by the index.
unfoldable pub insert_row : SubscriptionRow → List SubscriptionRow → Option (List SubscriptionRow)
insert_row r rows =
    if any (has_id r.id) rows || not (unique_active (r ∷ rows)) then none else some (r ∷ rows)

-- `UPDATE … SET … WHERE …`
unfoldable pub update_where :
    (SubscriptionRow → Bool)
    → (SubscriptionRow → SubscriptionRow)
    → List SubscriptionRow
    → List SubscriptionRow
update_where p f = map (λ r. if p r then f r else r)

-- `ORDER BY created_at DESC LIMIT 1`
unfoldable pub latest : List SubscriptionRow → Option SubscriptionRow
latest [] = none
latest (r ∷ rows) = elim (latest rows) [
  | none ↦ some r
  | some s ↦ some (if leb s.created_at r.created_at then r else s)
]

unfoldable pub get_active_subscription : String → Db → Option Subscription
get_active_subscription org_id db = elim (latest (retain (open_for org_id) db.rows)) [
  | none ↦ none
  | some r ↦ some (into_subscription r)
]

pub cache_del : String → List (String × CacheEntry) → List (String × CacheEntry)
cache_del org_id = retain (λ e. not (str_eq e.0 org_id))

abbrev cache_set : String → CacheEntry → List (String × CacheEntry) → List (String × CacheEntry)
cache_set org_id e cache = (org_id, e) ∷ cache_del org_id cache

abbrev unwrap_or : Option Bool → Bool
unwrap_or none = false
unwrap_or (some b) = b

abbrev pub starts_paid : CreateSubscriptionRequest → Bool
starts_paid req = elim req.tier [ free ↦ true | _ ↦ unwrap_or req.skip_trial ]

-- The row that `create_subscription` inserts; `day` is the day of the month of `now`.
unfoldable pub new_row : ℕ → ℕ → String → String → CreateSubscriptionRequest → SubscriptionRow
new_row now day id org_id req =
    let paid = starts_paid req in
    record {
      id = id;
      org_id = org_id;
      tier = Tier.as_str req.tier;
      status = Status.as_str (if paid then active else trial);
      mpesa_phone = req.mpesa_phone;
      billing_cycle_day = min day 28;
      current_period_start = now;
      current_period_end = if paid then now + days 30 else now + days 14;
      trial_start = if paid then none else some now;
      trial_end = if paid then none else some (now + days 14);
      grace_period_end = none;
      cancelled_at = none;
      cancel_reason = none;
      last_payment_at = none;
      last_payment_receipt = none;
      failed_payment_count = 0;
      created_at = now;
      updated_at = now;
    }

-- The record that `create_subscription` returns, built beside the row.
unfoldable pub new_subscription : ℕ → ℕ → String → String → CreateSubscriptionRequest → Subscription
new_subscription now day id org_id req =
    let paid = starts_paid req in
    record {
      id = id;
      org_id = org_id;
      tier = req.tier;
      status = if paid then active else trial;
      mpesa_phone = req.mpesa_phone;
      billing_cycle_day = min day 28;
      current_period_start = now;
      current_period_end = if paid then now + days 30 else now + days 14;
      trial_start = if paid then none else some now;
      trial_end = if paid then none else some (now + days 14);
      grace_period_end = none;
      cancelled_at = none;
      cancel_reason = none;
      last_payment_at = none;
      last_payment_receipt = none;
      failed_payment_count = 0;
      created_at = now;
      updated_at = now;
    }

cache_entry : SubscriptionRow → CacheEntry
cache_entry r = record { tier = r.tier; status = r.status; period_end = r.current_period_end }

unfoldable pub create_subscription :
    ℕ → ℕ → String → String → CreateSubscriptionRequest → Db → Db × Result Error Subscription
unfolding insert_row new_row cache_entry cache_del
create_subscription now day id org_id req db =
    let row = new_row now day id org_id req in
    if any (open_for org_id) db.rows
    then (db, err already_subscribed)
    else elim (insert_row row db.rows) [
      | none ↦ (db, err unique_violation)
      | some rows ↦ (
        record { rows = rows; cache = cache_set org_id (cache_entry row) db.cache },
        ok (new_subscription now day id org_id req),
      )
    ]

unfoldable pub found : Error → Db → Option Subscription → Db × Result Error Subscription
found e db none = (db, err e)
found e db (some s) = (db, ok s)

abbrev pub cancel_row : ℕ → SubscriptionRow → SubscriptionRow
cancel_row now r = record r {
  status = "cancelled";
  cancelled_at = some now;
  cancel_reason = some "user_initiated";
  updated_at = now;
}

-- The `DEL` of the cache entry is sent to the database's own pool, so the cache stays as it is.
unfoldable pub cancel_subscription : ℕ → String → Db → Db × Result Error Subscription
unfolding found
cancel_subscription now org_id db =
    let db' = record db { rows = update_where (open_for org_id) (cancel_row now) db.rows } in
    if any (open_for org_id) db.rows
    then found not_found_after_cancellation db' (get_active_subscription org_id db')
    else (db, err nothing_to_cancel)

-- `cancelled_at > now - 30 days`, false where `cancelled_at` is NULL.
abbrev pub since : ℕ → Option ℕ → Bool
since now none = false
since now (some t) = ltb now (t + days 30)

abbrev pub recently_cancelled : ℕ → String → SubscriptionRow → Bool
recently_cancelled now org_id r =
    str_eq r.org_id org_id && (str_eq r.status "cancelled" && since now r.cancelled_at)

abbrev pub reactivate_row : ℕ → SubscriptionRow → SubscriptionRow
reactivate_row now r = record r {
  status = "active";
  cancelled_at = none;
  cancel_reason = none;
  updated_at = now;
}

unfoldable pub reactivate_subscription : ℕ → String → Db → Db × Result Error Subscription
unfolding found
reactivate_subscription now org_id db =
    let rows' = update_where (recently_cancelled now org_id) (reactivate_row now) db.rows in
    let db' = record db { rows = rows' } in
    if not (any (recently_cancelled now org_id) db.rows)
    then (db, err nothing_to_reactivate)
    else if not (unique_active rows')
    then (db, err unique_violation)
    else found not_found_after_reactivation db' (get_active_subscription org_id db')

abbrev pub pay_row : ℕ → String → SubscriptionRow → SubscriptionRow
pay_row now receipt r = record r {
  status = "active";
  last_payment_at = some now;
  last_payment_receipt = some receipt;
  current_period_start = now;
  current_period_end = now + days 30;
  failed_payment_count = 0;
  grace_period_end = none;
  trial_end = none;
  updated_at = now;
}

-- `(amount - expected).abs() > 1.0`, with the amount in cents. It is only logged.
abbrev pub mismatch : ℕ → ℕ → Bool
mismatch amount price =
    ltb 100 (if leb (price * 100) amount then amount - price * 100 else price * 100 - amount)

abbrev pub paid_rows : ℕ → String → String → Db → Db
paid_rows now org_id receipt db = record db {
  rows = update_where (open_for org_id) (pay_row now receipt) db.rows;
}

-- The result says whether the amount was logged as a mismatch.
unfoldable pub confirm_payment_tx : ℕ → String → String → ℕ → Db → Db × Result Error Bool
confirm_payment_tx now org_id receipt amount db = elim (get_active_subscription org_id db) [
  | none ↦ (db, err no_subscription)
  | some sub ↦
      (paid_rows now org_id receipt db, ok (mismatch amount (Tier.monthly_price_kes sub.tier)))
]

unfoldable pub confirm_payment : ℕ → String → String → ℕ → Db → Db × Result Error Bool
unfolding cache_del
confirm_payment now org_id receipt amount db = elim (get_active_subscription org_id db) [
  | none ↦ (db, err no_subscription)
  | some sub ↦ (
    record (paid_rows now org_id receipt db) { cache = cache_del org_id db.cache },
    ok (mismatch amount (Tier.monthly_price_kes sub.tier)),
  )
]
