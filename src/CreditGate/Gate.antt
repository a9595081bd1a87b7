-- ===== src/CreditGate/Gate.antt =====
-- rust-api/src/credit/approval_gate.rs: the methods of `CreditApprovalGate`. The texts that
-- `build_description` and `build_confirmation_prompt` make for the user are handed in.
use angavu_intelligence_back.Common.{
  ℕ, suc, ◌+◌, Bool, true, false, not, ◌&&◌, Option, none, some, List, [], ◌∷◌, ◌++◌, String,
  str_eq, leb, ltb, Result, ok, err, if◌then◌else◌,
}
use angavu_intelligence_back.CreditGate.{
  CreditDecisionType, loan_application, ApprovalStatus, pending, approved, rejected, expired,
  auto_approved, DecisionId, submitted, text, AuditEntry, CreditDecision, ApprovalGateConfig,
  ApprovalRequest, Decisions, CreditApprovalGate, find, insert,
}

unfoldable pub new : ApprovalGateConfig → CreditApprovalGate
new config = record { config = config; pending_decisions = [] }

-- The arguments of `submit_decision`.
pub record Submission : Type 0 where
  pub decision_type : CreditDecisionType
  pub worker_id : String
  pub alama_score : ℕ  -- u16
  pub confidence : ℕ
  pub recommended_amount : ℕ
  pub lender : String
  pub product_name : String
  pub effective_apr : ℕ

-- `description`, `description_swahili` and `confirmation_prompt`.
pub record Texts : Type 0 where
  pub english : String
  pub swahili : String
  pub prompt : String

abbrev pub is_application : CreditDecisionType → Bool
is_application loan_application = true
is_application _ = false

abbrev pub can_auto_approve : ApprovalGateConfig → Submission → Bool
can_auto_approve config s =
    leb config.auto_approve_threshold s.confidence
    && (leb s.recommended_amount config.auto_approve_max_amount
        && not (is_application s.decision_type))

abbrev pub first_status : Bool → ApprovalStatus
first_status true = auto_approved
first_status false = pending

unfoldable pub decision_of : ApprovalGateConfig → ℕ → Texts → Submission → CreditDecision
decision_of config now texts s = record {
  decision_id = record { worker = s.worker_id; time = now };
  decision_type = s.decision_type;
  worker_id = s.worker_id;
  alama_score = s.alama_score;
  confidence = s.confidence;
  recommended_amount = s.recommended_amount;
  lender = s.lender;
  product_name = s.product_name;
  effective_apr = s.effective_apr;
  description = texts.english;
  description_swahili = texts.swahili;
  created_at = now;
  expires_at = now + config.timeout_seconds;
  status = first_status (can_auto_approve config s);
  user_response = none;
  audit_trail =
      record {
        timestamp = now;
        action = "decision_submitted";
        actor = "system";
        details =
            submitted s.decision_type s.recommended_amount s.confidence (can_auto_approve config s);
      }
      ∷ [];
}

unfoldable pub submit_decision :
    ℕ → Texts → Submission → CreditApprovalGate → CreditApprovalGate × ApprovalRequest
unfolding decision_of
submit_decision now texts s gate =
    let decision = decision_of gate.config now texts s in
    (
      record gate {
        pending_decisions = insert decision.decision_id decision gate.pending_decisions;
      },
      record {
        decision_id = decision.decision_id;
        status = decision.status;
        confirmation_prompt = texts.prompt;
        requires_voice = leb gate.config.require_voice_above s.recommended_amount;
        timeout_seconds = gate.config.timeout_seconds;
      },
    )

abbrev pub verdict : Bool → ApprovalStatus
verdict true = approved
verdict false = rejected

abbrev action_of : Bool → String
action_of true = "decision_approved"
action_of false = "decision_rejected"

abbrev comment_text : Option String → String
comment_text none = ""
comment_text (some c) = c

-- What `confirm_decision` does to the decision that it finds.
unfoldable pub respond : ℕ → Bool → Option String → CreditDecision → CreditDecision
respond now answer comment d =
    if ltb d.expires_at now
    then record d {
      status = expired;
      audit_trail =
          d.audit_trail
          ++ record {
            timestamp = now;
            action = "decision_expired";
            actor = "system";
            details = text "No response within timeout";
          }
            ∷ [];
    }
    else record d {
      status = verdict answer;
      user_response = comment;
      audit_trail =
          d.audit_trail
          ++ record {
            timestamp = now;
            action = action_of answer;
            actor = "user";
            details = text (comment_text comment);
          }
            ∷ [];
    }

pub data GateError : Type 0 where
  decision_not_found : GateError

unfoldable pub confirm_decision :
    ℕ
    → DecisionId
    → Bool
    → Option String
    → CreditApprovalGate
    → CreditApprovalGate × Result GateError ApprovalStatus
unfolding respond
confirm_decision now id answer comment gate = elim (find id gate.pending_decisions) [
  | none ↦ (gate, err decision_not_found)
  | some d ↦
      let d' = respond now answer comment d in
      (record gate { pending_decisions = insert id d' gate.pending_decisions }, ok d'.status)
]

unfoldable pub get_decision : DecisionId → CreditApprovalGate → Option CreditDecision
get_decision id gate = find id gate.pending_decisions

abbrev pub is_pending : ApprovalStatus → Bool
is_pending pending = true
is_pending _ = false

unfoldable pub get_pending_for_worker : String → Decisions → List CreditDecision
get_pending_for_worker worker [] = []
get_pending_for_worker worker ((_, d) ∷ ds) =
    let rest = get_pending_for_worker worker ds in
    if str_eq d.worker_id worker && is_pending d.status then d ∷ rest else rest

abbrev pub is_stale : ℕ → CreditDecision → Bool
is_stale now d = is_pending d.status && ltb d.expires_at now

abbrev pub expire : ℕ → CreditDecision → CreditDecision
expire now d = record d {
  status = expired;
  audit_trail =
      d.audit_trail
      ++ record {
        timestamp = now;
        action = "auto_expired";
        actor = "system";
        details = text "Stale decision auto-expired";
      }
        ∷ [];
}

-- The loop of `expire_stale`, with the count of what it expired.
unfoldable pub expire_all : ℕ → Decisions → Decisions × ℕ
expire_all now [] = ([], 0)
expire_all now ((id, d) ∷ ds) =
    let (rest, n) = expire_all now ds in
    if is_stale now d then ((id, expire now d) ∷ rest, suc n) else ((id, d) ∷ rest, n)

unfoldable pub expire_stale : ℕ → CreditApprovalGate → CreditApprovalGate × ℕ
unfolding expire_all
expire_stale now gate =
    let (ds, n) = expire_all now gate.pending_decisions in
    (record gate { pending_decisions = ds }, n)

unfoldable pub get_audit_trail : DecisionId → CreditApprovalGate → Option (List AuditEntry)
unfolding get_decision
get_audit_trail id gate = elim (get_decision id gate) [ none ↦ none | some d ↦ some d.audit_trail ]
