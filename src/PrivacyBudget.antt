-- ===== src/PrivacyBudget.antt =====
-- rust-api/src/credit/privacy_budget.rs: the budgets of the kinds of query, and the tracker. An ε is an
-- f64, whose numbers and operations are handed in with no law, so sums may round in any way; times are
-- microseconds, and a window has no negative length. The map of budgets is an association list. Left out
-- are the conversion to (ε, δ), which takes a logarithm, and the text of a refusal.
use angavu_intelligence_back.Common.{
  ℕ, suc, ◌+◌, ◌-◌, ◌*◌, ◌%◌, ◌^◌, Bool, true, false, not, Option, none, some, List, [], ◌∷◌, ◌++◌,
  String, length, drop, leb, ltb, ◌==◌, map, if◌then◌else◌,
}
pub mod Ledger
pub mod History
mod Tests

pub data QueryType : Type 0 where
  credit_score market_analysis demand_forecast economic_indicators : QueryType
  distribution_gaps fmcg_report federated_learning general : QueryType

-- Equality of the derived `Eq`, by the position of a constructor.
unfoldable pub index : QueryType → ℕ
index credit_score = 0
index market_analysis = 1
index demand_forecast = 2
index economic_indicators = 3
index distribution_gaps = 4
index fmcg_report = 5
index federated_learning = 6
index general = 7

-- The f64 of the machine: `le` is `<=` and `same` is `==`.
pub record F64 : Type 1 where
  pub Float : Type 0
  pub zero : Float
  pub add : Float → Float → Float
  pub sub : Float → Float → Float
  pub max : Float → Float → Float
  pub le : Float → Float → Bool
  pub same : Float → Float → Bool

-- `if self.recent_queries.len() > 100 { self.recent_queries.drain(0..50); }`
unfoldable pub bounded {ℓ} : {A : Type ℓ} → List A → List A
bounded log = if ltb 100 (length log) then drop 50 log else log

unfoldable pub find {ℓ} : {A : Type ℓ} → QueryType → List (QueryType × A) → Option A
find k [] = none
find k ((j, b) ∷ m) = if index j == index k then some b else find k m

unfoldable pub insert {ℓ} :
    {A : Type ℓ} → QueryType → A → List (QueryType × A) → List (QueryType × A)
insert k v [] = (k, v) ∷ []
insert k v ((j, b) ∷ m) = if index j == index k then (k, v) ∷ m else (j, b) ∷ insert k v m

module _ (f64 : F64) where
  pub record RdpParameters : Type 0 where
    pub alpha : f64.Float
    pub epsilon_rdp : f64.Float

  pub record QueryRecord : Type 0 where
    pub query_type : QueryType
    pub rdp : RdpParameters
    pub timestamp : ℕ
    pub endpoint : String
    pub cohort_key : Option String

  pub record QueryTypeBudget : Type 0 where
    pub query_type : QueryType
    pub budget_epsilon : f64.Float
    pub consumed_epsilon_rdp : f64.Float
    pub query_count : ℕ  -- u64
    pub window_start : ℕ
    pub window_end : ℕ
    pub recent_queries : List QueryRecord

  unfoldable pub new : QueryType → f64.Float → ℕ → ℕ → QueryTypeBudget
  new query_type budget window_start window_end = record {
    query_type = query_type;
    budget_epsilon = budget;
    consumed_epsilon_rdp = f64.zero;
    query_count = 0;
    window_start = window_start;
    window_end = window_end;
    recent_queries = [];
  }

  unfoldable pub compose_rdp : QueryTypeBudget → RdpParameters → f64.Float
  compose_rdp b new_rdp =
      if f64.same b.consumed_epsilon_rdp f64.zero
      then new_rdp.epsilon_rdp
      else f64.add b.consumed_epsilon_rdp new_rdp.epsilon_rdp

  unfoldable pub can_afford : QueryTypeBudget → RdpParameters → Bool
  can_afford b rdp_cost = f64.le (compose_rdp b rdp_cost) b.budget_epsilon

  unfoldable pub record_query :
      ℕ → RdpParameters → String → Option String → QueryTypeBudget → QueryTypeBudget
  record_query now rdp endpoint cohort_key b = record b {
    consumed_epsilon_rdp = compose_rdp b rdp;
    query_count = suc b.query_count % 2 ^ 64;
    recent_queries = bounded (
        b.recent_queries
        ++ record {
          query_type = b.query_type;
          rdp = rdp;
          timestamp = now;
          endpoint = endpoint;
          cohort_key = cohort_key;
        }
          ∷ []);
  }

  unfoldable pub maybe_reset : ℕ → QueryTypeBudget → QueryTypeBudget
  maybe_reset now b =
      if leb b.window_end now
      then record b {
        consumed_epsilon_rdp = f64.zero;
        query_count = 0;
        recent_queries = [];
        window_start = now;
        window_end = now + (b.window_end - b.window_start);
      }
      else b

  pub record PrivacyBudgetTracker : Type 0 where
    pub budgets : List (QueryType × QueryTypeBudget)
    pub default_epsilon : f64.Float
    pub window_duration : ℕ

  pub record BudgetCheckResult : Type 0 where
    pub allowed : Bool
    pub query_type : QueryType
    pub remaining_rdp_epsilon : f64.Float
    pub budget_limit : f64.Float
    pub query_count : ℕ
    pub window_reset_at : ℕ

  -- An hour has 3600000000 microseconds.
  unfoldable pub with_config : f64.Float → ℕ → PrivacyBudgetTracker
  with_config default_epsilon window_hours = record {
    budgets = [];
    default_epsilon = default_epsilon;
    window_duration = window_hours * 3600000000;
  }

  -- `entry(query_type).or_insert_with(…)`
  unfoldable pub entry : ℕ → QueryType → PrivacyBudgetTracker → QueryTypeBudget
  entry now query_type t = elim (find query_type t.budgets) [
    | none ↦ new query_type t.default_epsilon now (now + t.window_duration)
    | some b ↦ b
  ]

  abbrev remaining : QueryTypeBudget → f64.Float
  remaining b = f64.sub b.budget_epsilon b.consumed_epsilon_rdp

  abbrev result : Bool → f64.Float → QueryTypeBudget → QueryType → BudgetCheckResult
  result allowed rest b query_type = record {
    allowed = allowed;
    query_type = query_type;
    remaining_rdp_epsilon = rest;
    budget_limit = b.budget_epsilon;
    query_count = b.query_count;
    window_reset_at = b.window_end;
  }

  unfoldable pub check_and_record :
      ℕ
      → QueryType
      → RdpParameters
      → String
      → Option String
      → PrivacyBudgetTracker
      → PrivacyBudgetTracker × BudgetCheckResult
  check_and_record now query_type rdp endpoint cohort_key t =
      let budget = maybe_reset now (entry now query_type t) in
      let recorded = record_query now rdp endpoint cohort_key budget in
      if not (can_afford budget rdp)
      then (
        record t { budgets = insert query_type budget t.budgets },
        result false (f64.max (remaining budget) f64.zero) budget query_type,
      )
      else (
        record t { budgets = insert query_type recorded t.budgets },
        result true (remaining recorded) recorded query_type,
      )

  pub record BudgetStatus : Type 0 where
    pub query_type : QueryType
    pub budget_epsilon : f64.Float
    pub consumed_rdp_epsilon : f64.Float
    pub remaining_rdp_epsilon : f64.Float
    pub query_count : ℕ
    pub window_start : ℕ
    pub window_end : ℕ
    pub window_active : Bool

  unfoldable pub budget_status : ℕ → QueryTypeBudget → BudgetStatus
  budget_status now b = record {
    query_type = b.query_type;
    budget_epsilon = b.budget_epsilon;
    consumed_rdp_epsilon = b.consumed_epsilon_rdp;
    remaining_rdp_epsilon = f64.max (remaining b) f64.zero;
    query_count = b.query_count;
    window_start = b.window_start;
    window_end = b.window_end;
    window_active = ltb now b.window_end;
  }

  unfoldable pub status : ℕ → PrivacyBudgetTracker → List BudgetStatus
  status now t = map (λ e. budget_status now e.1) t.budgets

  unfoldable pub reset_all : PrivacyBudgetTracker → PrivacyBudgetTracker
  reset_all t = record t { budgets = [] }
