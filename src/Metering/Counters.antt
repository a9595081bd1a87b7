-- ===== src/Metering/Counters.antt =====
-- What the middleware relies on in Redis, a service that is not part of the repository: GET, INCR
-- and EXPIRE with their documented behaviour, while no key that was set has expired.
use angavu_intelligence_back.Common.{ℕ, suc, ◌≡◌, ◌≢◌, Option, some}
use angavu_intelligence_back.Metering.{Key}

pub record Counters : Type 1 where
  pub State : Type 0
  -- The number under a key, 0 where there is none.
  pub get : Key → State → ℕ
  -- `none` where the command fails.
  pub incr : Key → State → Option (State × ℕ)
  pub expire : Key → ℕ → State → State
  pub incr-get :
      (k : Key) (s s' : State) (n : ℕ)
      → incr k s ≡ some (s', n)
      → (n ≡ suc (get k s)) × (get k s' ≡ suc (get k s))
  pub incr-get_ne :
      (k j : Key) (s s' : State) (n : ℕ) → incr k s ≡ some (s', n) → j ≢ k → get j s' ≡ get j s
  pub get-expire : (k j : Key) (ttl : ℕ) (s : State) → get j (expire k ttl s) ≡ get j s
