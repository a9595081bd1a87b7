-- ===== src/Approval/Redis.antt =====
-- What the approval handlers rely on in Redis, a service that is not part of the repository: GET,
-- SET with EX, DEL and SCAN with their documented behaviour, on a connection that does not fail. The times
-- are those of its own clock, in milliseconds; a time to live is in seconds.
use angavu_intelligence_back.Common.{
  ℕ, ◌+◌, ◌*◌, ◌≤◌, ◌<◌, ◌≡◌, ◌≢◌, Option, none, some, List, String,
}
use angavu_intelligence_back.Approval.{PendingApproval}

-- A stored text is the JSON of an approval, or no such JSON.
pub data Stored : Type 0 where
  json : PendingApproval → Stored
  corrupt : Stored

pub record Redis : Type 1 where
  pub State : Type 0
  pub get : ℕ → String → State → Option Stored
  pub set_ex : ℕ → String → Stored → ℕ → State → State
  pub del : String → State → State
  -- The keys that the rounds of a SCAN return together.
  pub scan : ℕ → State → List String
  pub get-set_live :
      (now later ttl : ℕ) (k : String) (v : Stored) (s : State)
      → later < now + 1000 * ttl
      → get later k (set_ex now k v ttl s) ≡ some v
  pub get-set_over :
      (now later ttl : ℕ) (k : String) (v : Stored) (s : State)
      → now + 1000 * ttl ≤ later
      → get later k (set_ex now k v ttl s) ≡ none
  pub get-set_ne :
      (now later ttl : ℕ) (k j : String) (v : Stored) (s : State)
      → j ≢ k
      → get later j (set_ex now k v ttl s) ≡ get later j s
  pub get-del : (now : ℕ) (k : String) (s : State) → get now k (del k s) ≡ none
  pub get-del_ne : (now : ℕ) (k j : String) (s : State) → j ≢ k → get now j (del k s) ≡ get now j s
