-- ===== src/Breaker/Registry/Laws.antt =====
-- What a call does to the breaker of its own service, and to those of the others.
use angavu_intelligence_back.Common.{
  find, insert, find-insert_self, find-insert_ne, ℕ, ◌≡◌, ◌≢◌, Option, some, String, arith,
}
use angavu_intelligence_back.Breaker
use angavu_intelligence_back.Breaker.{
  CircuitBreaker, FallbackStrategy, CheckResult, allowed, rejected,
}
use angavu_intelligence_back.Breaker.ErrorText.{is_system_error}
use angavu_intelligence_back.Breaker.Registry.{
  Breakers, call, CallResult, response, service_error, circuit_open, Reply, answered, refused,
}

-- The breaker of a service after it answered.
abbrev after {ℓ} : {A : Type ℓ} → (ℕ → Option ℕ) → ℕ → ℕ → Reply A → CircuitBreaker → CircuitBreaker
after from_std later latency (answered _) cb = Breaker.record_success from_std later latency cb
after from_std later latency (refused e) cb =
    Breaker.record_failure from_std later (is_system_error e) cb

abbrev passed {ℓ} : {A : Type ℓ} → Reply A → CallResult A
passed (answered a) = response a
passed (refused e) = service_error e

-- The breaker and the result that a call leaves, from the answer of the breaker's own check.
abbrev pub outcome {ℓ} :
    {A : Type ℓ}
    → (ℕ → Option ℕ)
    → ℕ
    → ℕ
    → Reply A
    → CircuitBreaker × CheckResult
    → CircuitBreaker × CallResult A
outcome from_std later latency execute (cb, rejected f) = (cb, circuit_open f)
outcome from_std later latency execute (cb, allowed) =
    (after from_std later latency execute cb, passed execute)

module _ {ℓ} {A : Type ℓ} (from_std : ℕ → Option ℕ) where
  -- A protected call to a registered service, with no other call between its check and its answer,
  -- runs the service's own breaker: rejected, it returns the fallback and records nothing of the
  -- reply; admitted, it returns the reply and records it as a success or as a failure.
  pub call_registered :
      (now later latency : ℕ) (name : String) (execute : Reply A) (m : Breakers)
      (cb : CircuitBreaker)
      → find name m ≡ some cb
      → let (m', r) = call from_std (λ x. x) now later latency name execute m in
        let (cb', r') = outcome from_std later latency execute (Breaker.check now cb) in
        (find name m' ≡ some cb') × (r ≡ r')
  unfolding call
  call_registered now later latency name (answered a) m cb h =
      let cb' = (Breaker.check now cb).0 in
      ground (
        arith,
        find-insert_self name cb' m,
        find-insert_self name (Breaker.record_success from_std later latency cb')
            (insert name cb' m),
      )
  call_registered now later latency name (refused e) m cb h =
      let cb' = (Breaker.check now cb).0 in
      ground (
        arith,
        find-insert_self name cb' m,
        find-insert_self name (Breaker.record_failure from_std later (is_system_error e) cb')
            (insert name cb' m),
      )

  -- A protected call to one service, with no other call between its check and its answer, leaves
  -- the breaker of every other service as it is.
  pub call-find_ne :
      (now later latency : ℕ) (name j : String) (execute : Reply A) (m : Breakers)
      → j ≢ name
      → find j (call from_std (λ x. x) now later latency name execute m).0 ≡ find j m
  unfolding call
  call-find_ne now later latency name j execute m h = grind (arith, find-insert_ne)
