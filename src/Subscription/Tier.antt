-- ===== src/Subscription/Tier.antt =====
-- rust-api/src/billing/subscription.rs: `SubscriptionTier`, its names in the database and its prices.
-- A price is a whole number of KES, which an f64 holds exactly.
use angavu_intelligence_back.Common.{ℕ, String, str_eq, if◌then◌else◌}

pub data SubscriptionTier : Type 0 where
  free starter pro enterprise : SubscriptionTier

unfoldable pub as_str : SubscriptionTier → String
as_str free = "free"
as_str starter = "starter"
as_str pro = "pro"
as_str enterprise = "enterprise"

unfoldable pub from_str : String → SubscriptionTier
from_str s =
    if str_eq s "free"
    then free
    else if str_eq s "starter"
    then starter
    else if str_eq s "pro"
    then pro
    else if str_eq s "enterprise"
    then enterprise
    else free

unfoldable pub monthly_price_kes : SubscriptionTier → ℕ
monthly_price_kes free = 0
monthly_price_kes starter = 500
monthly_price_kes pro = 2000
monthly_price_kes enterprise = 10000
