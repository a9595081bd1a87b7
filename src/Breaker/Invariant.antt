-- ===== src/Breaker/Invariant.antt =====
-- What holds of a breaker between two calls, whatever the calls.
use angavu_intelligence_back.Common.{ℕ, ◌<◌, ◌^◌, ◌≡◌, Bool, Option, none, max, arith, String}
use angavu_intelligence_back.Breaker.{
  CircuitBreaker, CircuitBreakerConfig, FallbackStrategy, closed, half_open, new, check,
  should_allow, record_success, record_failure,
}

-- The thresholds are values of a u32, as the source's types say.
pub record Fits (c : CircuitBreakerConfig) : Type 0 where
  pub failure : c.failure_threshold < 2 ^ 32
  pub success : c.half_open_success_threshold < 2 ^ 32
  pub reopen : c.half_open_failure_threshold < 2 ^ 32

-- A counter stays under its threshold (under 1 where the threshold is 0), and the time of opening is
-- known exactly while the circuit is not closed.
pub record IsValid (cb : CircuitBreaker) : Type 0 where
  pub fits : Fits cb.config
  pub below_trip : cb.state ≡ closed → cb.failure_count < max 1 cb.config.failure_threshold
  pub below_close :
      cb.state ≡ half_open → cb.half_open_successes < max 1 cb.config.half_open_success_threshold
  pub below_reopen :
      cb.state ≡ half_open → cb.half_open_failures < max 1 cb.config.half_open_failure_threshold
  pub closed_unset : cb.state ≡ closed → cb.opened_at ≡ none
  pub opened_set : cb.opened_at ≡ none → cb.state ≡ closed

pub new-IsValid :
    (s : String) (c : CircuitBreakerConfig) (f : FallbackStrategy) → Fits c → IsValid (new s c f)
unfolding new
new-IsValid s c f h = ground arith

pub check-IsValid : (now : ℕ) (cb : CircuitBreaker) → IsValid cb → IsValid (check now cb).0
unfolding check
check-IsValid now cb h = ground arith

pub should_allow-IsValid :
    (now : ℕ) (cb : CircuitBreaker) → IsValid cb → IsValid (should_allow now cb).0
unfolding should_allow
should_allow-IsValid now cb h = ground arith

module _ (from_std : ℕ → Option ℕ) where
  pub record_success-IsValid :
      (now latency : ℕ) (cb : CircuitBreaker)
      → IsValid cb
      → IsValid (record_success from_std now latency cb)
  unfolding record_success
  record_success-IsValid now latency cb h = ground arith

  pub record_failure-IsValid :
      (now : ℕ) (sys : Bool) (cb : CircuitBreaker)
      → IsValid cb
      → IsValid (record_failure from_std now sys cb)
  unfolding record_failure
  record_failure-IsValid now sys cb h = ground arith
