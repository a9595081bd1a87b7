-- ===== src/Subscription.antt =====
-- rust-api/src/billing/subscription.rs: the types of a subscription, and the row that the database
-- keeps of one. Times are microseconds, as ℕ since the epoch.
use angavu_intelligence_back.Common.{ℕ, ◌*◌, ◌%◌, Option, String}
pub mod Status
pub mod Tier
pub mod Store
pub mod Tables
pub mod Renewal
pub mod Lifecycle
pub mod Keys
pub mod Refused
mod Tests
pub use Status.{SubscriptionStatus, trial, active, past_due, suspended, cancelled}
pub use Tier.{SubscriptionTier, free, starter, pro, enterprise}

abbrev pub days : ℕ → ℕ
days n = n * 86400000000

pub record Subscription : Type 0 where
  pub id : String
  pub org_id : String
  pub tier : SubscriptionTier
  pub status : SubscriptionStatus
  pub mpesa_phone : Option String
  pub billing_cycle_day : ℕ  -- u8
  pub current_period_start : ℕ
  pub current_period_end : ℕ
  pub trial_start : Option ℕ
  pub trial_end : Option ℕ
  pub grace_period_end : Option ℕ
  pub cancelled_at : Option ℕ
  pub cancel_reason : Option String
  pub last_payment_at : Option ℕ
  pub last_payment_receipt : Option String
  pub failed_payment_count : ℕ
  pub created_at : ℕ
  pub updated_at : ℕ

pub record SubscriptionRow : Type 0 where
  pub id : String
  pub org_id : String
  pub tier : String
  pub status : String
  pub mpesa_phone : Option String
  pub billing_cycle_day : ℕ
  pub current_period_start : ℕ
  pub current_period_end : ℕ
  pub trial_start : Option ℕ
  pub trial_end : Option ℕ
  pub grace_period_end : Option ℕ
  pub cancelled_at : Option ℕ
  pub cancel_reason : Option String
  pub last_payment_at : Option ℕ
  pub last_payment_receipt : Option String
  pub failed_payment_count : ℕ
  pub created_at : ℕ
  pub updated_at : ℕ

unfoldable pub into_subscription : SubscriptionRow → Subscription
into_subscription r = record {
  id = r.id;
  org_id = r.org_id;
  tier = Tier.from_str r.tier;
  status = Status.from_str r.status;
  mpesa_phone = r.mpesa_phone;
  billing_cycle_day = r.billing_cycle_day % 256;
  current_period_start = r.current_period_start;
  current_period_end = r.current_period_end;
  trial_start = r.trial_start;
  trial_end = r.trial_end;
  grace_period_end = r.grace_period_end;
  cancelled_at = r.cancelled_at;
  cancel_reason = r.cancel_reason;
  last_payment_at = r.last_payment_at;
  last_payment_receipt = r.last_payment_receipt;
  failed_payment_count = r.failed_payment_count;
  created_at = r.created_at;
  updated_at = r.updated_at;
}
