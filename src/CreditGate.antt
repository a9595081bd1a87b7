-- ===== src/CreditGate.antt =====
-- rust-api/src/credit/approval_gate.rs: the decisions on credit, the configuration and the gate.
-- A confidence or a rate is in millionths and an amount in cents, in place of an f64, so negative
-- values and NaN are left out; times are seconds. An identifier `cd_{worker}_{time}` is the pair of its parts, which the text determines.
-- The map behind the lock is an association list, and each method is one step.
use angavu_intelligence_back.Common.{
  ℕ, Bool, Option, none, some, List, [], ◌∷◌, String, str_eq, ◌==◌, ◌&&◌, if◌then◌else◌,
}
pub mod Gate
pub mod Submit
pub mod Confirm
pub mod Stale
mod Tests

pub data CreditDecisionType : Type 0 where
  loan_eligibility loan_application credit_limit_change : CreditDecisionType
  debt_restructuring group_credit : CreditDecisionType

pub data ApprovalStatus : Type 0 where
  pending approved rejected expired auto_approved : ApprovalStatus

pub record DecisionId : Type 0 where
  pub worker : String
  pub time : ℕ

-- The text `details` of an entry, or the values that it is formatted from.
pub data Details : Type 0 where
  submitted : CreditDecisionType → ℕ → ℕ → Bool → Details
  text : String → Details

pub record AuditEntry : Type 0 where
  pub timestamp : ℕ
  pub action : String
  pub actor : String
  pub details : Details

pub record CreditDecision : Type 0 where
  pub decision_id : DecisionId
  pub decision_type : CreditDecisionType
  pub worker_id : String
  pub alama_score : ℕ  -- u16
  pub confidence : ℕ
  pub recommended_amount : ℕ
  pub lender : String
  pub product_name : String
  pub effective_apr : ℕ
  pub description : String
  pub description_swahili : String
  pub created_at : ℕ
  pub expires_at : ℕ
  pub status : ApprovalStatus
  pub user_response : Option String
  pub audit_trail : List AuditEntry

pub record ApprovalGateConfig : Type 0 where
  pub auto_approve_threshold : ℕ
  pub auto_approve_max_amount : ℕ
  pub timeout_seconds : ℕ
  pub require_voice_above : ℕ

abbrev pub default_config : ApprovalGateConfig
default_config = record {
  auto_approve_threshold = 950000;
  auto_approve_max_amount = 100000;
  timeout_seconds = 30;
  require_voice_above = 500000;
}

pub record ApprovalRequest : Type 0 where
  pub decision_id : DecisionId
  pub status : ApprovalStatus
  pub confirmation_prompt : String
  pub requires_voice : Bool
  pub timeout_seconds : ℕ

abbrev pub Decisions : Type 0
Decisions = List (DecisionId × CreditDecision)

pub record CreditApprovalGate : Type 0 where
  pub config : ApprovalGateConfig
  pub pending_decisions : Decisions

abbrev pub same_id : DecisionId → DecisionId → Bool
same_id a b = str_eq a.worker b.worker && a.time == b.time

unfoldable pub find : DecisionId → Decisions → Option CreditDecision
find id [] = none
find id ((j, d) ∷ ds) = if same_id j id then some d else find id ds

unfoldable pub insert : DecisionId → CreditDecision → Decisions → Decisions
insert id d [] = (id, d) ∷ []
insert id d ((j, e) ∷ ds) = if same_id j id then (id, d) ∷ ds else (j, e) ∷ insert id d ds
