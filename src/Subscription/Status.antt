-- ===== src/Subscription/Status.antt =====
-- rust-api/src/billing/subscription.rs: `SubscriptionStatus` and its names in the database.
use angavu_intelligence_back.Common.{String, str_eq, if◌then◌else◌}

pub data SubscriptionStatus : Type 0 where
  trial active past_due suspended cancelled : SubscriptionStatus

unfoldable pub as_str : SubscriptionStatus → String
as_str trial = "trial"
as_str active = "active"
as_str past_due = "past_due"
as_str suspended = "suspended"
as_str cancelled = "cancelled"

unfoldable pub from_str : String → SubscriptionStatus
from_str s =
    if str_eq s "trial"
    then trial
    else if str_eq s "active"
    then active
    else if str_eq s "past_due"
    then past_due
    else if str_eq s "suspended"
    then suspended
    else if str_eq s "cancelled"
    then cancelled
    else trial
