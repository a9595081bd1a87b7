-- ===== src/Breaker.antt =====
-- rust-api/src/loops/circuit_breaker.rs: one circuit breaker, `CircuitBreaker`.
-- Times and durations are nanoseconds, as ℕ since the epoch; a method that takes `&mut self` is a
-- function to the new record, and its readings of `Utc::now()` are one argument `now`. Counters
-- wrap at their width. Log lines are left out. `chrono::Duration::from_std`, which refuses a
-- duration that chrono cannot hold, is the parameter `from_std`.
use angavu_intelligence_back.Common.{
  ℕ, ◌+◌, ◌-◌, ◌*◌, ◌%◌, ◌^◌, Bool, true, false, not, Option, none, some, List, [], ◌∷◌, ◌++◌,
  String, ltb, leb, if◌then◌else◌, retain,
}
pub mod Invariant
pub mod Machine
pub mod Window
pub mod Trip
pub mod ErrorText
pub mod Registry
mod Tests

pub data CircuitState : Type 0 where
  closed open_circuit half_open : CircuitState

pub record CircuitBreakerConfig : Type 0 where
  pub failure_threshold : ℕ  -- u32
  pub open_timeout : ℕ
  pub half_open_success_threshold : ℕ  -- u32
  pub half_open_failure_threshold : ℕ  -- u32
  pub rolling_window : ℕ
  pub half_open_max_concurrent : ℕ  -- u32

abbrev pub seconds : ℕ → ℕ
seconds n = n * 1000000000

abbrev pub default_config : CircuitBreakerConfig
default_config = record {
  failure_threshold = 5;
  open_timeout = seconds 60;
  half_open_success_threshold = 3;
  half_open_failure_threshold = 2;
  rolling_window = seconds 300;
  half_open_max_concurrent = 1;
}

pub data FallbackStrategy : Type 0 where
  cached_data : ℕ → FallbackStrategy
  degraded_response : String → FallbackStrategy
  queue_for_retry : ℕ → FallbackStrategy
  fail_fast : String → FallbackStrategy

pub record TimestampedOutcome : Type 0 where
  pub success : Bool
  pub timestamp : ℕ
  pub latency_ms : ℕ

pub record CircuitBreaker : Type 0 where
  pub config : CircuitBreakerConfig
  pub state : CircuitState
  pub failure_count : ℕ  -- u32
  pub half_open_successes : ℕ  -- u32
  pub half_open_failures : ℕ  -- u32
  pub opened_at : Option ℕ
  pub recent_outcomes : List TimestampedOutcome
  pub fallback : FallbackStrategy
  pub service_name : String
  pub total_rejected : ℕ  -- u64
  pub total_failures : ℕ  -- u64
  pub total_successes : ℕ  -- u64

abbrev pub u32 : ℕ → ℕ
u32 n = n % 2 ^ 32

abbrev pub u64 : ℕ → ℕ
u64 n = n % 2 ^ 64

unfoldable pub new : String → CircuitBreakerConfig → FallbackStrategy → CircuitBreaker
new service_name config fallback = record {
  config = config;
  state = closed;
  failure_count = 0;
  half_open_successes = 0;
  half_open_failures = 0;
  opened_at = none;
  recent_outcomes = [];
  fallback = fallback;
  service_name = service_name;
  total_rejected = 0;
  total_failures = 0;
  total_successes = 0;
}

unfoldable pub transition_to_open : ℕ → CircuitBreaker → CircuitBreaker
transition_to_open now cb = record cb {
  state = open_circuit;
  opened_at = some now;
  half_open_successes = 0;
  half_open_failures = 0;
}

unfoldable pub transition_to_half_open : CircuitBreaker → CircuitBreaker
transition_to_half_open cb = record cb {
  state = half_open;
  half_open_successes = 0;
  half_open_failures = 0;
}

unfoldable pub transition_to_closed : CircuitBreaker → CircuitBreaker
transition_to_closed cb = record cb { state = closed; failure_count = 0; opened_at = none }

-- `to_std` refuses a negative duration, and `unwrap_or` makes it 0: the truncated difference.
abbrev pub elapsed : ℕ → ℕ → ℕ
elapsed now opened = now - opened

on_open : ℕ → Option ℕ → CircuitBreaker → CircuitBreaker
unfolding transition_to_half_open
on_open now none cb = cb
on_open now (some opened) cb =
    if leb cb.config.open_timeout (elapsed now opened) then transition_to_half_open cb else cb

maybe : CircuitState → ℕ → CircuitBreaker → CircuitBreaker
unfolding on_open
maybe open_circuit now cb = on_open now cb.opened_at cb
maybe _ now cb = cb

unfoldable pub maybe_transition : ℕ → CircuitBreaker → CircuitBreaker
unfolding maybe
maybe_transition now cb = maybe cb.state now cb

pub data CheckResult : Type 0 where
  allowed : CheckResult
  rejected : FallbackStrategy → CheckResult

admit : CircuitState → CircuitBreaker → CircuitBreaker × CheckResult
admit closed cb = (cb, allowed)
admit open_circuit cb =
    (record cb { total_rejected = u64 (cb.total_rejected + 1) }, rejected cb.fallback)
admit half_open cb = (cb, allowed)

unfoldable pub check : ℕ → CircuitBreaker → CircuitBreaker × CheckResult
unfolding maybe_transition admit
check now cb = let cb' = maybe_transition now cb in admit cb'.state cb'

abbrev allows : CircuitState → Bool
allows open_circuit = false
allows _ = true

unfoldable pub should_allow : ℕ → CircuitBreaker → CircuitBreaker × Bool
unfolding maybe_transition
should_allow now cb = let cb' = maybe_transition now cb in (cb', allows cb'.state)

module _ (from_std : ℕ → Option ℕ) where
  -- `from_std(w).unwrap_or(minutes(5))`
  abbrev pub window : CircuitBreaker → ℕ
  window cb = elim (from_std cb.config.rolling_window) [ none ↦ seconds 300 | some w ↦ w ]

  -- `o.timestamp > now - window`, with the subtraction moved to the other side
  abbrev pub is_recent : ℕ → CircuitBreaker → TimestampedOutcome → Bool
  is_recent now cb o = ltb now (o.timestamp + window cb)

  unfoldable pub prune_old_outcomes : ℕ → CircuitBreaker → CircuitBreaker
  prune_old_outcomes now cb = record cb {
    recent_outcomes = retain (is_recent now cb) cb.recent_outcomes;
  }

  on_success : CircuitState → CircuitBreaker → CircuitBreaker
  unfolding transition_to_closed
  on_success closed cb = record cb { failure_count = 0 }
  on_success half_open cb =
      let n = u32 (cb.half_open_successes + 1) in
      let cb' = record cb { half_open_successes = n } in
      if leb cb.config.half_open_success_threshold n then transition_to_closed cb' else cb'
  on_success open_circuit cb = cb

  unfoldable pub record_success : ℕ → ℕ → CircuitBreaker → CircuitBreaker
  unfolding prune_old_outcomes on_success
  record_success now latency_ms cb =
      let outcome : TimestampedOutcome = record {
        success = true;
        timestamp = now;
        latency_ms = latency_ms;
      } in
      let cb' = prune_old_outcomes now (record cb {
        total_successes = u64 (cb.total_successes + 1);
        recent_outcomes = cb.recent_outcomes ++ outcome ∷ [];
      }) in
      on_success cb.state cb'

  on_failure : CircuitState → ℕ → CircuitBreaker → CircuitBreaker
  unfolding transition_to_open
  on_failure closed now cb =
      let n = u32 (cb.failure_count + 1) in
      let cb' = record cb { failure_count = n } in
      if leb cb.config.failure_threshold n then transition_to_open now cb' else cb'
  on_failure half_open now cb =
      let n = u32 (cb.half_open_failures + 1) in
      let cb' = record cb { half_open_failures = n } in
      if leb cb.config.half_open_failure_threshold n then transition_to_open now cb' else cb'
  on_failure open_circuit now cb = cb

  -- The text of the error is not used.
  unfoldable pub record_failure : ℕ → Bool → CircuitBreaker → CircuitBreaker
  unfolding prune_old_outcomes on_failure
  record_failure now is_system_error cb =
      let outcome : TimestampedOutcome = record {
        success = false;
        timestamp = now;
        latency_ms = 0;
      } in
      let cb' = prune_old_outcomes now (record cb {
        total_failures = u64 (cb.total_failures + 1);
        recent_outcomes = cb.recent_outcomes ++ outcome ∷ [];
      }) in
      if is_system_error then on_failure cb.state now cb' else cb'
