-- ===== src/Breaker/Window.antt =====
-- The rolling window of outcomes, and the figures that `health` reports from it. A rate is the
-- pair of its numerator and denominator, in place of the f64 quotient; 0.0 is the pair (0, 1).
use angavu_intelligence_back.Common.{
  ℕ, ◌+◌, ◌≤◌, ◌<◌, ◌≡◌, Bool, true, false, not, Option, List, [], ◌∷◌, String, length,
  length-append, ◌++◌, retain, All, length-retain-le, ltb, arith,
}
use angavu_intelligence_back.Breaker.{
  CircuitBreaker, CircuitState, TimestampedOutcome, window, record_success, record_failure, u64,
}

abbrev quotient : ℕ → List TimestampedOutcome → ℕ × ℕ
quotient n [] = (0, 1)
quotient n (o ∷ os) = (n, length (o ∷ os))

unfoldable pub failure_rate : CircuitBreaker → ℕ × ℕ
failure_rate cb =
    quotient (length (retain (λ o. not o.success) cb.recent_outcomes)) cb.recent_outcomes

abbrev sum_latency : List TimestampedOutcome → ℕ
sum_latency [] = 0
sum_latency (o ∷ os) = o.latency_ms + sum_latency os

unfoldable pub avg_latency_ms : CircuitBreaker → ℕ × ℕ
avg_latency_ms cb =
    let successes = retain (λ (o : TimestampedOutcome). o.success) cb.recent_outcomes in
    quotient (sum_latency successes) successes

pub record CircuitHealth : Type 0 where
  pub service : String
  pub state : CircuitState
  pub failure_rate : ℕ × ℕ
  pub avg_latency_ms : ℕ × ℕ
  pub total_requests : ℕ
  pub total_rejected : ℕ
  pub failure_count : ℕ
  pub opened_at : Option ℕ

unfoldable pub health : CircuitBreaker → CircuitHealth
unfolding failure_rate avg_latency_ms
health cb = record {
  service = cb.service_name;
  state = cb.state;
  failure_rate = failure_rate cb;
  avg_latency_ms = avg_latency_ms cb;
  total_requests = u64 (cb.total_successes + cb.total_failures);
  total_rejected = cb.total_rejected;
  failure_count = cb.failure_count;
  opened_at = cb.opened_at;
}

abbrev pub InWindow : ℕ → ℕ → List TimestampedOutcome → Type 0
InWindow now w = All (λ o. now < o.timestamp + w)

abbrev pub ProperFraction : ℕ × ℕ → Type 0
ProperFraction q = (q.0 ≤ q.1) × (0 < q.1)

module _ (from_std : ℕ → Option ℕ) where
  All-recent :
      (now w : ℕ) (os : List TimestampedOutcome)
      → InWindow now w (retain (λ o. ltb now (o.timestamp + w)) os)
  unfolding retain
  All-recent now w [] = tt
  All-recent now w (o ∷ os) = ground (arith, All-recent now w os)

  recorded_success :
      (now latency : ℕ) (cb : CircuitBreaker)
      → (record_success from_std now latency cb).recent_outcomes
        ≡ retain
            (λ o. ltb now (o.timestamp + window from_std cb))
            (cb.recent_outcomes
              ++ record { success = true; timestamp = now; latency_ms = latency } ∷ [])
  unfolding record_success
  recorded_success now latency cb = ground arith

  recorded_failure :
      (now : ℕ) (sys : Bool) (cb : CircuitBreaker)
      → (record_failure from_std now sys cb).recent_outcomes
        ≡ retain
            (λ o. ltb now (o.timestamp + window from_std cb))
            (cb.recent_outcomes ++ record { success = false; timestamp = now; latency_ms = 0 } ∷ [])
  unfolding record_failure
  recorded_failure now sys cb = ground arith

  -- After a success or a failure is recorded at `now`, every outcome that the breaker remembers is
  -- younger than the rolling window, and at most one more is remembered than before.
  pub recorded-InWindow :
      (now latency : ℕ) (sys : Bool) (cb : CircuitBreaker)
      → let s = record_success from_std now latency cb in
        let f = record_failure from_std now sys cb in
        InWindow now (window from_std cb) s.recent_outcomes
        × InWindow now (window from_std cb) f.recent_outcomes
        × (length s.recent_outcomes ≤ length cb.recent_outcomes + 1)
        × (length f.recent_outcomes ≤ length cb.recent_outcomes + 1)
  recorded-InWindow now latency sys cb =
      let old = cb.recent_outcomes in
      let p = λ (o : TimestampedOutcome). ltb now (o.timestamp + window from_std cb) in
      let s : TimestampedOutcome = record {
        success = true;
        timestamp = now;
        latency_ms = latency;
      } in
      let f : TimestampedOutcome = record { success = false; timestamp = now; latency_ms = 0 } in
      (
        rw (recorded_success now latency cb) (All-recent now _ _),
        rw (recorded_failure now sys cb) (All-recent now _ _),
        rw (recorded_success now latency cb)
            (omega (arith, length-retain-le p (old ++ s ∷ []), length-append old (s ∷ []))),
        rw (recorded_failure now sys cb)
            (omega (arith, length-retain-le p (old ++ f ∷ []), length-append old (f ∷ []))),
      )

quotient-ProperFraction :
    (n : ℕ) (os : List TimestampedOutcome) → n ≤ length os → ProperFraction (quotient n os)
quotient-ProperFraction n [] h = omega arith
quotient-ProperFraction n (o ∷ os) h = omega arith

-- The failure rate that `health` reports is a fraction between 0 and 1 with a positive denominator.
pub health-ProperFraction : (cb : CircuitBreaker) → ProperFraction (health cb).failure_rate
unfolding health
health-ProperFraction cb =
    quotient-ProperFraction _ cb.recent_outcomes
      (length-retain-le (λ (o : TimestampedOutcome). not o.success) cb.recent_outcomes)
