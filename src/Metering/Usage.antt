-- ===== src/Metering/Usage.antt =====
-- rust-api/src/billing/metering.rs: `get_usage_summary`, `persist_monthly_usage`, `check_usage_alert`
-- and `maybe_emit_usage_alert`. The period and the days that remain of it are handed in; a share of the
-- limit is compared exactly, in place of an f64, and shown in thousandths of a percent. The GET of a
-- counter is that of the interface, so a read does not fail. Left out are the texts, and the SET NX,
-- whose future is never awaited. `usage_records` is a list of rows.
use angavu_intelligence_back.Common.{
  ℕ, ◌-◌, ◌*◌, ◌/◌, ◌≤◌, ◌≡◌, refl, min, max, Bool, false, not, ◌&&◌, ◌||◌, Option, none, some,
  List, ◌∷◌, map, length, retain, String, str_eq, ltb, leb, ◌==◌, any, if◌then◌else◌, arith,
}
use angavu_intelligence_back.Metering.{
  BuyerTier, free, starter, pro, enterprise, Claims, admitted, usage_key, u64_max, monthly_limit,
}
use angavu_intelligence_back.Metering.Counters.{Counters}
use angavu_intelligence_back.Metering.Middleware.{is_enterprise, serve_all}
use angavu_intelligence_back.Metering.Quota.{Reliable, serve_all-monthly_limit}

pub record UsageSummary : Type 0 where
  pub org_id : String
  pub tier : BuyerTier
  pub billing_period : String
  pub api_calls_used : ℕ
  pub api_calls_limit : ℕ
  pub api_calls_remaining : ℕ
  pub usage_pct : ℕ
  pub days_remaining_in_period : ℕ
  pub overage : Bool

-- Of a limit of 0, which no tier has, the share is 0.
unfoldable pub percent : ℕ → ℕ → ℕ
percent used limit =
    if ltb 0 limit && not (limit == u64_max) then min (used * 100000 / limit) 100000 else 0

unfoldable pub summary_of : String → BuyerTier → String → ℕ → ℕ → UsageSummary
summary_of org_id tier period days_remaining used =
    let limit = monthly_limit tier in
    let unlimited = limit == u64_max in
    record {
      org_id = org_id;
      tier = tier;
      billing_period = period;
      api_calls_used = used;
      api_calls_limit = if unlimited then 0 else limit;
      api_calls_remaining = if unlimited then 0 else limit - used;
      usage_pct = percent used limit;
      days_remaining_in_period = days_remaining;
      overage = ltb limit used && not unlimited;
    }

pub record UsageRecord : Type 0 where
  pub org_id : String
  pub billing_period : String
  pub api_calls : ℕ
  pub updated_at : ℕ

abbrev pub of_period : String → String → UsageRecord → Bool
of_period org_id period r = str_eq r.org_id org_id && str_eq r.billing_period period

-- `INSERT … ON CONFLICT … DO UPDATE SET api_calls = GREATEST(…)`
unfoldable pub upsert : ℕ → String → String → ℕ → List UsageRecord → List UsageRecord
upsert now org_id period count rows =
    if any (of_period org_id period) rows
    then map
        (λ r.
          if of_period org_id period r
          then record r { api_calls = max r.api_calls count; updated_at = now }
          else r)
        rows
    else record { org_id = org_id; billing_period = period; api_calls = count; updated_at = now }
      ∷ rows

module _ (redis : Counters) where
  unfoldable pub get_usage_summary : String → BuyerTier → String → ℕ → redis.State → UsageSummary
  get_usage_summary org_id tier period days_remaining s =
      summary_of org_id tier period days_remaining (redis.get (usage_key org_id period) s)

  unfoldable pub persist_monthly_usage :
      ℕ → String → String → redis.State → List UsageRecord → List UsageRecord × ℕ
  persist_monthly_usage now org_id period s rows =
      let count = redis.get (usage_key org_id period) s in
      (upsert now org_id period count rows, count)

pub data UsageAlertLevel : Type 0 where
  normal warning critical exceeded : UsageAlertLevel

-- The share of the limit, in percent, against 100, 95 and 80.
unfoldable pub alert_level : ℕ → ℕ → UsageAlertLevel
alert_level used limit =
    if leb (100 * limit) (used * 100)
    then exceeded
    else if leb (95 * limit) (used * 100)
    then critical
    else if leb (80 * limit) (used * 100)
    then warning
    else normal

pub record UsageAlert : Type 0 where
  pub org_id : String
  pub level : UsageAlertLevel
  pub usage_pct : ℕ
  pub api_calls_used : ℕ
  pub tier_limit : ℕ
  pub timestamp : ℕ

abbrev alert_of : ℕ → ℕ → ℕ → String → UsageAlertLevel → Option UsageAlert
alert_of now used limit org_id normal = none
alert_of now used limit org_id level = some (record {
  org_id = org_id;
  level = level;
  usage_pct = used * 100000 / limit;
  api_calls_used = used;
  tier_limit = limit;
  timestamp = now;
})

unfoldable pub check_usage_alert : ℕ → ℕ → ℕ → String → Option UsageAlert
check_usage_alert now used limit org_id =
    if limit == 0 || limit == u64_max
    then none
    else alert_of now used limit org_id (alert_level used limit)

unfoldable pub maybe_emit_usage_alert : ℕ → String → BuyerTier → ℕ → Option UsageAlert
maybe_emit_usage_alert now org_id tier current_usage =
    check_usage_alert now current_usage (monthly_limit tier) org_id

limited : (tier : BuyerTier) → is_enterprise tier ≡ false → (monthly_limit tier == u64_max) ≡ false
unfolding monthly_limit
limited free paid = refl
limited starter paid = refl
limited pro paid = refl
limited enterprise paid = absurd (ground (arith, paid))

module _ (redis : Counters) (reliable : Reliable redis) (claims : Claims) (period : String) where
  -- Where the counters of Redis do not fail, the calls that a summary shows as remaining bound the
  -- requests of the period that are still admitted, in whatever tier but enterprise.
  pub get_usage_summary-admitted :
      is_enterprise claims.tier ≡ false
      → (days_remaining : ℕ) (dates : List String) (s : redis.State)
      → length (retain admitted (serve_all redis claims period dates s).1)
        ≤ (get_usage_summary redis claims.org_id claims.tier period days_remaining
            s).api_calls_remaining
  unfolding get_usage_summary summary_of
  get_usage_summary-admitted paid days_remaining dates s =
      rw (limited claims.tier paid)
        (serve_all-monthly_limit redis reliable claims period paid dates s)
