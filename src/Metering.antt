-- ===== src/Metering.antt =====
-- rust-api/src/billing/metering.rs: the limits of the tiers, the keys of the counters and the answers
-- of `usage_metering_middleware`. Of the JWT claims (rust-api/src/gateway/auth.rs) the two fields
-- that the middleware decides by are kept. A key's text determines its parts, since periods and dates
-- have no colon and differ in length.
use angavu_intelligence_back.Common.{ℕ, ◌-◌, ◌^◌, Bool, true, false, String, str_eq, ◌&&◌}
pub mod Counters
pub mod Middleware
pub mod Quota
pub mod Usage
mod Memory
mod Tests

pub data BuyerTier : Type 0 where
  free starter pro enterprise : BuyerTier

pub record Claims : Type 0 where
  pub org_id : String
  pub tier : BuyerTier

pub data Key : Type 0 where
  usage_key : String → String → Key
  daily_usage_key : String → String → Key

abbrev pub u64_max : ℕ
u64_max = 2 ^ 64 - 1

unfoldable pub monthly_limit : BuyerTier → ℕ
monthly_limit free = 100
monthly_limit starter = 5000
monthly_limit pro = 50000
monthly_limit enterprise = u64_max

unfoldable pub daily_limit : BuyerTier → ℕ
daily_limit free = 10
daily_limit starter = 250
daily_limit pro = 2500
daily_limit enterprise = u64_max

-- An answer: `passed` and `metered` run the request, `metered` with the limit and what remains of
-- it in the headers; the two refusals name the count and the limit.
pub data Answer : Type 0 where
  unauthorized passed : Answer
  metered usage_limit_exceeded daily_limit_exceeded : ℕ → ℕ → Answer

abbrev pub admitted : Answer → Bool
admitted passed = true
admitted (metered _ _) = true
admitted _ = false
