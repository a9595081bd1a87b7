-- ===== src/Breaker/Trip.antt =====
-- Runs of failures, of successes and of checks.
use angavu_intelligence_back.Common.{
  ℕ, suc, ◌+◌, ◌<◌, ◌≡◌, refl, Bool, true, false, Option, some, List, [], ◌∷◌, ltb, length, All,
  if◌then◌else◌, arith,
}
use angavu_intelligence_back.Breaker.{
  CircuitBreaker, elapsed, closed, open_circuit, half_open, CheckResult, allowed, rejected, check,
  record_success, record_failure, u64,
}
use angavu_intelligence_back.Breaker.Invariant.{
  IsValid, record_failure-IsValid, record_success-IsValid,
}

unfoldable pub fail_all : (ℕ → Option ℕ) → CircuitBreaker → List (ℕ × Bool) → CircuitBreaker
fail_all from_std cb [] = cb
fail_all from_std cb ((now, sys) ∷ fs) = fail_all from_std (record_failure from_std now sys cb) fs

abbrev pub system_failures : List (ℕ × Bool) → ℕ
system_failures [] = 0
system_failures ((_, true) ∷ fs) = suc (system_failures fs)
system_failures ((_, false) ∷ fs) = system_failures fs

unfoldable pub succeed_all : (ℕ → Option ℕ) → CircuitBreaker → List (ℕ × ℕ) → CircuitBreaker
succeed_all from_std cb [] = cb
succeed_all from_std cb ((now, latency) ∷ os) =
    succeed_all from_std (record_success from_std now latency cb) os

unfoldable pub check_all : CircuitBreaker → List ℕ → CircuitBreaker × List CheckResult
check_all cb [] = (cb, [])
check_all cb (now ∷ ts) =
    let (cb', r) = check now cb in let (cb'', rs) = check_all cb' ts in (cb'', r ∷ rs)

abbrev pub repeat {ℓ} : {A : Type ℓ} → A → List ℕ → List A
repeat a [] = []
repeat a (_ ∷ ts) = a ∷ repeat a ts

module _ (from_std : ℕ → Option ℕ) where
  stays_open :
      (cb : CircuitBreaker) (fs : List (ℕ × Bool))
      → cb.state ≡ open_circuit
      → (fail_all from_std cb fs).state ≡ open_circuit
  unfolding fail_all record_failure
  stays_open cb [] h = h
  stays_open cb ((now, sys) ∷ fs) h =
      stays_open (record_failure from_std now sys cb) fs (ground arith)

  business_step :
      (now : ℕ) (cb : CircuitBreaker)
      → let cb' = record_failure from_std now false cb in
        (cb'.state ≡ cb.state) × (cb'.failure_count ≡ cb.failure_count) × (cb'.config ≡ cb.config)
  unfolding record_failure
  business_step now cb = (refl, refl, refl)

  system_step :
      (now : ℕ) (cb : CircuitBreaker)
      → IsValid cb
      → cb.state ≡ closed
      → let cb' = record_failure from_std now true cb in
        (cb'.state ≡ (
          if ltb (suc cb.failure_count) cb.config.failure_threshold then closed else open_circuit))
        × (cb'.failure_count ≡ suc cb.failure_count)
        × (cb'.config ≡ cb.config)
  unfolding record_failure
  system_step now cb h c = ground arith

  -- In a valid breaker that is closed and has a positive threshold, a run of failures with no
  -- success between them opens the circuit exactly when the failures counted before and the system
  -- failures of the run together reach the threshold; business failures neither count nor reset the
  -- count.
  pub state-fail_all :
      (cb : CircuitBreaker) (fs : List (ℕ × Bool))
      → IsValid cb
      → cb.state ≡ closed
      → 0 < cb.config.failure_threshold
      → (fail_all from_std cb fs).state ≡ (
          if ltb (cb.failure_count + system_failures fs) cb.config.failure_threshold
          then closed
          else open_circuit)
  unfolding fail_all
  state-fail_all cb [] h c pos = ground arith
  state-fail_all cb ((now, false) ∷ fs) h c pos =
      let cb' = record_failure from_std now false cb in
      ground (
        arith,
        business_step now cb,
        state-fail_all cb' fs,
        record_failure-IsValid from_std now false cb h,
      )
  state-fail_all cb ((now, true) ∷ fs) h c pos =
      let cb' = record_failure from_std now true cb in
      ground (
        arith,
        system_step now cb h c,
        state-fail_all cb' fs,
        stays_open cb' fs,
        record_failure-IsValid from_std now true cb h,
      )

  success_step :
      (now latency : ℕ) (cb : CircuitBreaker)
      → IsValid cb
      → cb.state ≡ half_open
      → let cb' = record_success from_std now latency cb in
        (cb'.state ≡ (
          if ltb (suc cb.half_open_successes) cb.config.half_open_success_threshold
          then half_open
          else closed))
        × (cb'.half_open_successes ≡ suc cb.half_open_successes)
        × (cb'.config ≡ cb.config)
  unfolding record_success
  success_step now latency cb h c = ground arith

  stays_closed :
      (cb : CircuitBreaker) (os : List (ℕ × ℕ))
      → cb.state ≡ closed
      → (succeed_all from_std cb os).state ≡ closed
  unfolding succeed_all record_success
  stays_closed cb [] h = h
  stays_closed cb ((now, latency) ∷ os) h =
      stays_closed (record_success from_std now latency cb) os (ground arith)

  -- In a valid breaker on trial, with a positive threshold, a run of successes with no failure
  -- between them closes the circuit exactly when the successes before and those of the run together
  -- reach the threshold.
  pub state-succeed_all :
      (cb : CircuitBreaker) (os : List (ℕ × ℕ))
      → IsValid cb
      → cb.state ≡ half_open
      → 0 < cb.config.half_open_success_threshold
      → (succeed_all from_std cb os).state ≡ (
          if ltb (cb.half_open_successes + length os) cb.config.half_open_success_threshold
          then half_open
          else closed)
  unfolding succeed_all
  state-succeed_all cb [] h c pos = ground arith
  state-succeed_all cb ((now, latency) ∷ os) h c pos =
      let cb' = record_success from_std now latency cb in
      ground (
        arith,
        success_step now latency cb h c,
        state-succeed_all cb' os,
        stays_closed cb' os,
        record_success-IsValid from_std now latency cb h,
      )

rejected_step :
    (cb : CircuitBreaker) (t now : ℕ)
    → cb.state ≡ open_circuit
    → cb.opened_at ≡ some t
    → elapsed now t < cb.config.open_timeout
    → check now cb
      ≡ (record cb { total_rejected = u64 (cb.total_rejected + 1) }, rejected cb.fallback)
unfolding check
rejected_step cb t now s o h = ground arith

-- While the timeout since the opening has not passed, every check is rejected with the fallback, the
-- circuit stays open, and the rejections are counted (modulo 2^64).
pub check_all-rejected :
    (cb : CircuitBreaker) (t : ℕ) (ts : List ℕ)
    → cb.state ≡ open_circuit
    → cb.opened_at ≡ some t
    → All (λ now. elapsed now t < cb.config.open_timeout) ts
    → let (cb', rs) = check_all cb ts in
      (rs ≡ repeat (rejected cb.fallback) ts)
      × (cb'.state ≡ open_circuit)
      × (u64 cb'.total_rejected ≡ u64 (cb.total_rejected + length ts))
unfolding check_all
check_all-rejected cb t [] s o all = ground arith
check_all-rejected cb t (now ∷ ts) s o all =
    let cb' = record cb { total_rejected = u64 (cb.total_rejected + 1) } in
    rw (rejected_step cb t now s o all.0) (ground (arith, check_all-rejected cb' t ts s o all.1))

-- On trial every check is admitted and leaves the breaker as it is, however many there are: the
-- limit `half_open_max_concurrent` is not consulted.
pub check_all-half_open :
    (cb : CircuitBreaker) (ts : List ℕ)
    → cb.state ≡ half_open
    → check_all cb ts ≡ (cb, repeat allowed ts)
unfolding check_all check
check_all-half_open cb [] s = refl
check_all-half_open cb (now ∷ ts) s = ground (arith, check_all-half_open cb ts s)
