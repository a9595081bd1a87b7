-- ===== src/Breaker/Registry/Tests.antt =====
-- Examples for the registry: a refused payment, seen by the breakers of two services.
use angavu_intelligence_back.Common.{
  find, ℕ, ◌≡◌, ◌≢◌, refl, Option, some, [], ◌∷◌, String, codes, str_eq_iff, arith,
}
use angavu_intelligence_back.Breaker
use angavu_intelligence_back.Breaker.{CircuitBreaker, default_config, fail_fast, queue_for_retry}
use angavu_intelligence_back.Breaker.Registry.{Breakers, Reply, refused}

abbrev from_std : ℕ → Option ℕ
from_std n = some n

abbrev mpesa : CircuitBreaker
mpesa = Breaker.new "mpesa" default_config (fail_fast "mpesa is down")

abbrev whatsapp : CircuitBreaker
whatsapp = Breaker.new "whatsapp" default_config (queue_for_retry 120)

abbrev services : Breakers
services = ("whatsapp", whatsapp) ∷ ("mpesa", mpesa) ∷ []

abbrev reply : Reply ℕ
reply = refused (codes "connection refused")

mpesa_registered : find "mpesa" services ≡ some mpesa
unfolding find
mpesa_registered = refl

abbrev other : String
other = "whatsapp"

other_service : other ≢ "mpesa"
other_service = λ e. ground (arith, (str_eq_iff other "mpesa").1 e)
