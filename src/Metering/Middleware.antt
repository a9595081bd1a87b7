-- ===== src/Metering/Middleware.antt =====
-- rust-api/src/billing/metering.rs: `usage_metering_middleware`. The period and the date that it
-- reads from the clock are handed in; the event for ClickHouse is left out.
use angavu_intelligence_back.Common.{
  ℕ, ◌-◌, Bool, true, false, Option, none, some, List, [], ◌∷◌, String, ltb, ◌==◌, if◌then◌else◌,
}
use angavu_intelligence_back.Metering.{
  BuyerTier, enterprise, Claims, Key, usage_key, daily_usage_key, monthly_limit, daily_limit,
  Answer, unauthorized, passed, metered, usage_limit_exceeded, daily_limit_exceeded,
}
use angavu_intelligence_back.Metering.Counters.{Counters}

abbrev pub is_enterprise : BuyerTier → Bool
is_enterprise enterprise = true
is_enterprise _ = false

module _ (redis : Counters) where
  -- EXPIRE, for a counter that was just made.
  abbrev pub expire_new : Key → ℕ → ℕ → redis.State → redis.State
  expire_new k ttl n s = if n == 1 then redis.expire k ttl s else s

  -- The checks of both limits, with the counts of the month and of the day.
  unfoldable pub check_limits : BuyerTier → ℕ → ℕ → Answer
  check_limits tier monthly_count daily_count =
      if ltb (monthly_limit tier) monthly_count
      then usage_limit_exceeded monthly_count (monthly_limit tier)
      else if ltb (daily_limit tier) daily_count
      then daily_limit_exceeded daily_count (daily_limit tier)
      else metered (monthly_limit tier) (monthly_limit tier - monthly_count)

  -- The second INCR; where it fails the count of the day is taken for 0.
  unfoldable pub count_day : Claims → String → ℕ → redis.State → redis.State × Answer
  unfolding check_limits
  count_day claims date n s =
      let key = daily_usage_key claims.org_id date in
      elim (redis.incr key s) [
        | none ↦ (s, check_limits claims.tier n 0)
        | some (s', m) ↦ (expire_new key 86400 m s', check_limits claims.tier n m)
      ]

  -- The first INCR; where it fails the request is run.
  unfoldable pub count_month : Claims → String → String → redis.State → redis.State × Answer
  unfolding count_day
  count_month claims period date s =
      let key = usage_key claims.org_id period in
      elim (redis.incr key s) [
        | none ↦ (s, passed)
        | some (s', n) ↦ count_day claims date n (expire_new key 5184000 n s')
      ]

  unfoldable pub usage_metering :
      Option Claims → String → String → redis.State → redis.State × Answer
  unfolding count_month
  usage_metering none period date s = (s, unauthorized)
  usage_metering (some claims) period date s =
      if is_enterprise claims.tier then (s, passed) else count_month claims period date s

  -- Requests with the same claims within one period, each on its own date.
  unfoldable pub serve_all : Claims → String → List String → redis.State → redis.State × List Answer
  serve_all claims period [] s = (s, [])
  serve_all claims period (date ∷ dates) s =
      let (s', a) = usage_metering (some claims) period date s in
      let (s'', as_) = serve_all claims period dates s' in (s'', a ∷ as_)
