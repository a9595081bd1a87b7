-- ===== src/CreditGate/Tests.antt =====
-- Examples for the gate: a worker's loan, submitted, answered and swept.
use angavu_intelligence_back.Common.{
  ◌+◌, ◌≡◌, refl, true, false, none, some, List, [], ◌∷◌, length, arith,
}
use angavu_intelligence_back.CreditGate.{
  pending, loan_eligibility, loan_application, DecisionId, CreditDecision, default_config,
  CreditApprovalGate, find,
}
use angavu_intelligence_back.CreditGate.Gate.{Submission, Texts, get_decision, verdict}
use angavu_intelligence_back.CreditGate.Confirm.{
  Answer, confirm_all, last_answer, confirm_all-last_answer,
}

abbrev texts : Texts
texts = record { english = "loan"; swahili = "mkopo"; prompt = "Unakubali?" }

abbrev small : Submission
small = record {
  decision_type = loan_eligibility;
  worker_id = "worker_1";
  alama_score = 650;
  confidence = 960000;
  recommended_amount = 50000;
  lender = "M-Shwari";
  product_name = "Quick Loan";
  effective_apr = 75000;
}

abbrev large : Submission
large = record small { decision_type = loan_application; recommended_amount = 700000 }

abbrev id : DecisionId
id = record { worker = "worker_1"; time = 100 }

abbrev decision : CreditDecision
decision = record {
  decision_id = id;
  decision_type = loan_application;
  worker_id = "worker_1";
  alama_score = 650;
  confidence = 960000;
  recommended_amount = 700000;
  lender = "M-Shwari";
  product_name = "Quick Loan";
  effective_apr = 75000;
  description = "loan";
  description_swahili = "mkopo";
  created_at = 100;
  expires_at = 130;
  status = pending;
  user_response = none;
  audit_trail = [];
}

abbrev waiting : CreditApprovalGate
waiting = record { config = default_config; pending_decisions = (id, decision) ∷ [] }

found_decision : get_decision id waiting ≡ some decision
unfolding get_decision find
found_decision = refl

abbrev second_thoughts : List Answer
second_thoughts = (120, true, some "ndio") ∷ []

confirm_all-last_answer_example :
    (d' : CreditDecision) × (get_decision id
        (confirm_all id ((110, false, none) ∷ second_thoughts) waiting)
      ≡ some d')
    × (d'.status ≡ verdict (last_answer false second_thoughts))
    × (length d'.audit_trail ≡ length decision.audit_trail + length second_thoughts + 1)
confirm_all-last_answer_example =
    confirm_all-last_answer id 110 false none second_thoughts waiting decision found_decision
      (omega arith) (omega arith, tt)
