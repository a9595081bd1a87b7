-- ===== src/Approval.antt =====
-- rust-api/src/gateway/human_approval.rs: the requests, the stored approvals and the answers.
-- Times are seconds. An amount is in cents, metadata is its JSON text. Of the JWT claims
-- (rust-api/src/gateway/auth.rs) the two fields that the handlers read are kept.
use angavu_intelligence_back.Common.{
  ℕ, Bool, Option, none, some, List, String, codes, to_lowercase, same_text, if◌then◌else◌,
}
pub mod Redis
pub mod Prompt
pub mod Handlers
pub mod Ownership
pub mod OneTime
mod Memory
mod Tests

pub record Claims : Type 0 where
  pub org_id : String
  pub permissions : List String

pub record CreateApprovalRequest : Type 0 where
  pub action_type : List ℕ
  pub amount : Option ℕ
  pub description : String
  pub user_id : String
  pub metadata : Option String

pub record ResolveApprovalRequest : Type 0 where
  pub confirmation_id : String
  pub approved : Bool
  pub user_comment : Option String
  pub corrected_content : Option String

pub data ApprovalActionType : Type 0 where
  transaction loan_application credit_decision tax_filing : ApprovalActionType
  chama_withdrawal group_contribution large_expense report_delivery : ApprovalActionType

unfoldable pub from_str : List ℕ → Option ApprovalActionType
unfolding to_lowercase same_text
from_str s =
    let l = to_lowercase s in
    if same_text l (codes "transaction")
    then some transaction
    else if same_text l (codes "loan_application")
    then some loan_application
    else if same_text l (codes "credit_decision")
    then some credit_decision
    else if same_text l (codes "tax_filing")
    then some tax_filing
    else if same_text l (codes "chama_withdrawal")
    then some chama_withdrawal
    else if same_text l (codes "group_contribution")
    then some group_contribution
    else if same_text l (codes "large_expense")
    then some large_expense
    else if same_text l (codes "report_delivery")
    then some report_delivery
    else none

unfoldable pub timeout_seconds : ApprovalActionType → ℕ
timeout_seconds transaction = 30
timeout_seconds large_expense = 30
timeout_seconds loan_application = 60
timeout_seconds credit_decision = 60
timeout_seconds tax_filing = 120
timeout_seconds chama_withdrawal = 172800
timeout_seconds group_contribution = 172800
timeout_seconds report_delivery = 60

pub record PendingApproval : Type 0 where
  pub confirmation_id : String
  pub action_type : List ℕ
  pub amount : Option ℕ
  pub description : String
  pub user_id : String
  pub prompt : String
  pub created_at : ℕ
  pub expires_at : ℕ
  pub metadata : Option String

pub data Resolution : Type 0 where
  approved rejected : Resolution

-- The answers, by their status codes.
pub data Response : Type 0 where
  created : String → String → ℕ → Response
  resolved : String → Resolution → Response
  listed : List PendingApproval → Response
  unauthorized forbidden bad_request : Response
  not_found expired : String → Response

-- The text that the field `query_hash` is made of.
pub data Query : Type 0 where
  created_query : List ℕ → String → Query
  resolved_query : String → Bool → Query

-- The fields of an entry that differ between the entries of this file.
pub record AuditLogEntry : Type 0 where
  pub org_id : String
  pub endpoint : String
  pub method : String
  pub status_code : ℕ
  pub ip_address : Option String
  pub query_hash : Option Query
