-- ===== src/Breaker/Tests.antt =====
-- Examples for one circuit breaker: a breaker for the payment service, closed, open and on trial.
use angavu_intelligence_back.Common.{
  ℕ, ◌+◌, ◌≡◌, ◌↔◌, refl, Bool, true, false, Option, none, some, List, [], ◌∷◌, codes, to_lowercase,
  ltb, if◌then◌else◌, arith,
}
use angavu_intelligence_back.Breaker.{
  CircuitBreaker, CircuitBreakerConfig, default_config, seconds, fail_fast, closed, open_circuit,
  half_open,
}
use angavu_intelligence_back.Breaker.Invariant.{Fits, IsValid}
use angavu_intelligence_back.Breaker.Machine.{
  Call, checked, asked, succeeded, failed, history, phase, phases, phase-history, history-IsValid,
}
use angavu_intelligence_back.Breaker.Trip.{fail_all, system_failures, state-fail_all}
use angavu_intelligence_back.Breaker.ErrorText.{
  contains, is_system_error, OneOccurs, markers, is_system_error-OneOccurs,
}

abbrev from_std : ℕ → Option ℕ
from_std n = some n

abbrev payments : CircuitBreakerConfig
payments = record default_config { failure_threshold = 3; open_timeout = seconds 30 }

abbrev fresh : CircuitBreaker
fresh = record {
  config = payments;
  state = closed;
  failure_count = 1;
  half_open_successes = 0;
  half_open_failures = 0;
  opened_at = none;
  recent_outcomes = [];
  fallback = fail_fast "mpesa is down";
  service_name = "mpesa";
  total_rejected = 0;
  total_failures = 1;
  total_successes = 0;
}

abbrev opened : CircuitBreaker
opened = record fresh { state = open_circuit; failure_count = 3; opened_at = some 100 }

abbrev trial : CircuitBreaker
trial = record opened { state = half_open; half_open_successes = 1; half_open_failures = 1 }

payments-Fits : Fits payments
payments-Fits = record { failure = omega arith; success = omega arith; reopen = omega arith }

fresh-IsValid : IsValid fresh
fresh-IsValid = record {
  fits = payments-Fits;
  below_trip = λ _. omega arith;
  below_close = λ _. omega arith;
  below_reopen = λ _. omega arith;
  closed_unset = λ _. refl;
  opened_set = λ _. refl;
}

trial-IsValid : IsValid trial
trial-IsValid = record {
  fits = payments-Fits;
  below_trip = λ h. absurd (ground (arith, h));
  below_close = λ _. omega arith;
  below_reopen = λ _. omega arith;
  closed_unset = λ h. absurd (ground (arith, h));
  opened_set = λ h. absurd (ground (arith, h));
}

abbrev outage : List Call
outage =
    checked 1
    ∷ failed 2 true
    ∷ failed 3 false
    ∷ failed 4 true
    ∷ checked 5
    ∷ checked 40000000000
    ∷ succeeded 40000000001 12
    ∷ failed 40000000002 true
    ∷ succeeded 40000000003 9
    ∷ succeeded 40000000004 8
    ∷ asked 40000000005
    ∷ []

phase-history_example :
    phase (history from_std fresh outage) ≡ phases fresh.config (phase fresh) outage
phase-history_example = phase-history from_std fresh outage fresh-IsValid

history-IsValid_example : IsValid (history from_std fresh outage)
history-IsValid_example = history-IsValid from_std fresh outage fresh-IsValid

abbrev failures : List (ℕ × Bool)
failures = (2, true) ∷ (3, false) ∷ (4, true) ∷ []

state-fail_all_example : (fail_all from_std fresh failures).state ≡ (
    if ltb (fresh.failure_count + system_failures failures) fresh.config.failure_threshold
    then closed
    else open_circuit)
state-fail_all_example = state-fail_all from_std fresh failures fresh-IsValid refl (omega arith)

abbrev answers : List (ℕ × ℕ)
answers = (201, 11) ∷ (202, 12) ∷ []

abbrev checks : List ℕ
checks = 101 ∷ 102 ∷ []

is_system_error-OneOccurs_example :
    (is_system_error (codes "HTTP 503 from upstream") ≡ true)
    ↔ OneOccurs (to_lowercase (codes "HTTP 503 from upstream")) markers
is_system_error-OneOccurs_example = is_system_error-OneOccurs (codes "HTTP 503 from upstream")

-- "networ", and the Kelvin sign.
kelvin_network : is_system_error (110 ∷ 101 ∷ 116 ∷ 119 ∷ 111 ∷ 114 ∷ 8490 ∷ []) ≡ true
unfolding is_system_error contains to_lowercase
kelvin_network = refl
