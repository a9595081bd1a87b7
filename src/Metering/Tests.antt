-- ===== src/Metering/Tests.antt =====
-- Examples for metering: an organisation in the free tier, on two days of one month.
use mathlib.Core.Option
use angavu_intelligence_back.Common.{
  any, map, some, ◌≡◌, ◌-◌, ◌≤◌, refl, List, [], ◌∷◌, String, length, retain,
}
use angavu_intelligence_back.Metering.{free, Claims, monthly_limit, daily_limit, admitted}
use angavu_intelligence_back.Metering.Middleware.{serve_all}
use angavu_intelligence_back.Metering.Quota.{serve_all-daily_limit}
use angavu_intelligence_back.Metering.Usage.{
  get_usage_summary, summary_of, persist_monthly_usage, upsert, maybe_emit_usage_alert,
  check_usage_alert, alert_level, critical, get_usage_summary-admitted,
}
use angavu_intelligence_back.Metering.Memory.{Memory, memory, memory-Reliable}

abbrev claims : Claims
claims = record { org_id = "duka"; tier = free }

-- The month's counter and the day's stand at 98.
abbrev busy : Memory
busy k = 98

abbrev idle : Memory
idle k = 0

abbrev two_days : List String
two_days = "2026-08-01" ∷ "2026-08-02" ∷ []

abbrev one_day : List String
one_day = "2026-08-01" ∷ "2026-08-01" ∷ []

get_usage_summary-admitted_example :
    length (retain admitted (serve_all memory claims "2026-08" two_days busy).1)
    ≤ (get_usage_summary memory "duka" free "2026-08" 30 busy).api_calls_remaining
get_usage_summary-admitted_example =
    get_usage_summary-admitted memory memory-Reliable claims "2026-08" refl 30 two_days busy

remaining_busy : (get_usage_summary memory "duka" free "2026-08" 30 busy).api_calls_remaining ≡ 2
unfolding get_usage_summary summary_of monthly_limit
remaining_busy = refl

alerted : Option.map (λ a. a.level) (maybe_emit_usage_alert 0 "duka" free 96) ≡ some critical
unfolding maybe_emit_usage_alert check_usage_alert alert_level monthly_limit
alerted = refl

-- A count that is lower than the one recorded before is not written.
persisted :
    map
      (λ r. r.api_calls)
      (persist_monthly_usage memory 5 "duka" "2026-08" busy (upsert 1 "duka" "2026-08" 120 [])).0
    ≡ 120 ∷ []
unfolding persist_monthly_usage upsert any
persisted = refl

serve_all-daily_limit_example :
    length (retain admitted (serve_all memory claims "2026-08" one_day idle).1)
    ≤ daily_limit free - 0
serve_all-daily_limit_example =
    serve_all-daily_limit memory memory-Reliable claims "2026-08" refl "2026-08-01" one_day idle
      (refl, (refl, tt))
