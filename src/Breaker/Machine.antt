-- ===== src/Breaker/Machine.antt =====
-- The contract of a breaker, as a machine of three phases with unbounded counters, and the proof that
-- `CircuitBreaker` implements it: calls seen as events, one function for a whole history.
use angavu_intelligence_back.Common.{
  ℕ, suc, ◌-◌, ◌∙◌, ap₂, ◌≡◌, refl, Bool, true, false, Option, none, some, List, [], ◌∷◌, leb,
  if◌then◌else◌, arith,
}
use angavu_intelligence_back.Breaker.{
  CircuitBreaker, CircuitBreakerConfig, CircuitState, closed, open_circuit, half_open, CheckResult,
  allowed, rejected, check, should_allow, record_success, record_failure,
}
use angavu_intelligence_back.Breaker.Invariant.{
  IsValid, check-IsValid, should_allow-IsValid, record_success-IsValid, record_failure-IsValid,
}

-- A call of a public method, with the time that it reads.
pub data Call : Type 0 where
  checked : ℕ → Call
  asked : ℕ → Call
  succeeded : ℕ → ℕ → Call
  failed : ℕ → Bool → Call

unfoldable pub perform : (ℕ → Option ℕ) → CircuitBreaker → Call → CircuitBreaker
perform from_std cb (checked now) = (check now cb).0
perform from_std cb (asked now) = (should_allow now cb).0
perform from_std cb (succeeded now latency) = record_success from_std now latency cb
perform from_std cb (failed now sys) = record_failure from_std now sys cb

unfoldable pub history : (ℕ → Option ℕ) → CircuitBreaker → List Call → CircuitBreaker
history from_std cb [] = cb
history from_std cb (c ∷ cs) = history from_std (perform from_std cb c) cs

-- `tripped t`: calls fail fast since time t. `probing s f`: s successes and f failures on trial.
pub data Phase : Type 0 where
  counting : ℕ → Phase
  tripped : ℕ → Phase
  probing : ℕ → ℕ → Phase

abbrev time : Option ℕ → ℕ
time none = 0
time (some t) = t

abbrev pub phase_of : CircuitState → CircuitBreaker → Phase
phase_of closed cb = counting cb.failure_count
phase_of open_circuit cb = tripped (time cb.opened_at)
phase_of half_open cb = probing cb.half_open_successes cb.half_open_failures

abbrev pub phase : CircuitBreaker → Phase
phase cb = phase_of cb.state cb

abbrev pub wait : CircuitBreakerConfig → ℕ → Phase → Phase
wait c now (tripped t) = if leb c.open_timeout (now - t) then probing 0 0 else tripped t
wait c now p = p

-- What a call does to the phase.
abbrev pub next : CircuitBreakerConfig → Phase → Call → Phase
next c p (checked now) = wait c now p
next c p (asked now) = wait c now p
next c (counting n) (succeeded _ _) = counting 0
next c (tripped t) (succeeded _ _) = tripped t
next c (probing s f) (succeeded _ _) =
    if leb c.half_open_success_threshold (suc s) then counting 0 else probing (suc s) f
next c p (failed now false) = p
next c (counting n) (failed now true) =
    if leb c.failure_threshold (suc n) then tripped now else counting (suc n)
next c (tripped t) (failed now true) = tripped t
next c (probing s f) (failed now true) =
    if leb c.half_open_failure_threshold (suc f) then tripped now else probing s (suc f)

pub phases : CircuitBreakerConfig → Phase → List Call → Phase
phases c p [] = p
phases c p (e ∷ es) = phases c (next c p e) es

abbrev pub answer : CircuitBreaker → Phase → CheckResult
answer cb (tripped t) = rejected cb.fallback
answer cb _ = allowed

module _ (from_std : ℕ → Option ℕ) where
  pub perform-IsValid :
      (cb : CircuitBreaker) (c : Call) → IsValid cb → IsValid (perform from_std cb c)
  unfolding perform
  perform-IsValid cb (checked now) h = check-IsValid now cb h
  perform-IsValid cb (asked now) h = should_allow-IsValid now cb h
  perform-IsValid cb (succeeded now latency) h = record_success-IsValid from_std now latency cb h
  perform-IsValid cb (failed now sys) h = record_failure-IsValid from_std now sys cb h

  config-perform : (cb : CircuitBreaker) (c : Call) → (perform from_std cb c).config ≡ cb.config
  unfolding perform check should_allow record_success record_failure
  config-perform cb (checked now) = ground arith
  config-perform cb (asked now) = ground arith
  config-perform cb (succeeded now latency) = ground arith
  config-perform cb (failed now sys) = ground arith

  phase-perform :
      (cb : CircuitBreaker) (c : Call)
      → IsValid cb
      → phase (perform from_std cb c) ≡ next cb.config (phase cb) c
  unfolding perform check should_allow record_success record_failure
  phase-perform cb (checked now) h = ground arith
  phase-perform cb (asked now) h = ground arith
  phase-perform cb (succeeded now latency) h = ground arith
  phase-perform cb (failed now sys) h = ground arith

  -- Whatever is called in whatever order, a valid breaker stays valid: every counter stays below its
  -- threshold (below 1 where the threshold is 0), and the time of opening is set exactly while the
  -- circuit is not closed.
  pub history-IsValid :
      (cb : CircuitBreaker) (cs : List Call) → IsValid cb → IsValid (history from_std cb cs)
  unfolding history
  history-IsValid cb [] h = h
  history-IsValid cb (c ∷ cs) h =
      history-IsValid (perform from_std cb c) cs (perform-IsValid cb c h)

  -- After any history of calls a valid breaker is in the phase that the contract machine reaches, so
  -- the wrapping u32 counters and the separate fields are an implementation of that machine.
  pub phase-history :
      (cb : CircuitBreaker) (cs : List Call)
      → IsValid cb
      → phase (history from_std cb cs) ≡ phases cb.config (phase cb) cs
  unfolding history phases
  phase-history cb [] h = refl
  phase-history cb (c ∷ cs) h =
      let cb' = perform from_std cb c in
      phase-history cb' cs (perform-IsValid cb c h)
      ∙ ap₂ (λ k p. phases k p cs) (config-perform cb c) (phase-perform cb c h)

-- `check` admits a call exactly in the phases other than `tripped`.
pub check-answer :
    (now : ℕ) (cb : CircuitBreaker)
    → IsValid cb
    → (check now cb).1 ≡ answer cb (wait cb.config now (phase cb))
unfolding check
check-answer now cb h = ground arith
