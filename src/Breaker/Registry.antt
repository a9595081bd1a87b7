-- ===== src/Breaker/Registry.antt =====
-- rust-api/src/loops/circuit_breaker.rs: `CircuitBreakerRegistry` and the protected `call`
-- of `CircuitBreakerProtected`. The map of services is an association list in which a name stands once; each
-- operation holds its locks for its whole length, so it is one step.
use angavu_intelligence_back.Common.{
  find, insert, ℕ, Bool, Option, none, some, List, [], ◌∷◌, String, str_eq, if◌then◌else◌,
}
use angavu_intelligence_back.Breaker
use angavu_intelligence_back.Breaker.{
  CircuitBreaker, CircuitBreakerConfig, FallbackStrategy, CheckResult, allowed, rejected,
  default_config, seconds, queue_for_retry, degraded_response, cached_data,
}
use angavu_intelligence_back.Breaker.ErrorText.{is_system_error}
pub mod Laws
mod Tests

abbrev pub Breakers : Type 0
Breakers = List (String × CircuitBreaker)

unfoldable pub register : String → CircuitBreakerConfig → FallbackStrategy → Breakers → Breakers
register service_name config fallback m =
    insert service_name (Breaker.new service_name config fallback) m

checked : String → Breakers → CircuitBreaker × CheckResult → Breakers × CheckResult
checked k m (cb, r) = (insert k cb m, r)

unfoldable pub check : ℕ → String → Breakers → Breakers × CheckResult
unfolding checked
check now service_name m = elim (find service_name m) [
  | none ↦ (m, allowed)
  | some cb ↦ checked service_name m (Breaker.check now cb)
]

abbrev update : (CircuitBreaker → CircuitBreaker) → String → Breakers → Breakers
update f service_name m = elim (find service_name m) [
  | none ↦ m
  | some cb ↦ insert service_name (f cb) m
]

unfoldable pub record_success : (ℕ → Option ℕ) → ℕ → String → ℕ → Breakers → Breakers
record_success from_std now service_name latency_ms =
    update (Breaker.record_success from_std now latency_ms) service_name

unfoldable pub record_failure : (ℕ → Option ℕ) → ℕ → String → Bool → Breakers → Breakers
record_failure from_std now service_name is_system =
    update (Breaker.record_failure from_std now is_system) service_name

unfoldable pub register_defaults : Breakers → Breakers
register_defaults m =
    let set : ℕ → ℕ → CircuitBreakerConfig =
      λ n s. record default_config { failure_threshold = n; open_timeout = seconds s } in
    register "sms_gateway" (set 5 60) (queue_for_retry 300) (
      register "fmcg_partner" (set 5 60) (cached_data 7200) (
        register "deepseek" (set 5 120) (cached_data 3600) (
          register "mpesa" (set 3 30)
            (degraded_response
              "Payment processing temporarily unavailable. Please try again shortly.")
            (register "whatsapp" (set 5 60) (queue_for_retry 120) m))))

-- What the service answers, or `circuit_open` where the request is not sent.
pub data CallResult {ℓ} (A : Type ℓ) : Type ℓ where
  response : A → CallResult A
  service_error : List ℕ → CallResult A
  circuit_open : FallbackStrategy → CallResult A

pub data Reply {ℓ} (A : Type ℓ) : Type ℓ where
  answered : A → Reply A
  refused : List ℕ → Reply A

-- The request is sent at `now` and answered at `later`, with the latency given. `execute` is the
-- service's answer; the state of the breakers may have moved between, by `others`.
module _ {ℓ} {A : Type ℓ} (from_std : ℕ → Option ℕ) (others : Breakers → Breakers) where
  settle : ℕ → ℕ → String → Reply A → Breakers → Breakers × CallResult A
  settle later latency_ms name (answered a) m =
      (record_success from_std later name latency_ms m, response a)
  settle later latency_ms name (refused e) m =
      (record_failure from_std later name (is_system_error e) m, service_error e)

  guarded : ℕ → ℕ → String → Reply A → Breakers × CheckResult → Breakers × CallResult A
  guarded later latency_ms name execute (m, rejected fallback) = (m, circuit_open fallback)
  guarded later latency_ms name execute (m, allowed) =
      settle later latency_ms name execute (others m)

  unfoldable pub call : ℕ → ℕ → ℕ → String → Reply A → Breakers → Breakers × CallResult A
  unfolding guarded settle check record_success record_failure is_system_error
  call now later latency_ms name execute m =
      guarded later latency_ms name execute (check now name m)
