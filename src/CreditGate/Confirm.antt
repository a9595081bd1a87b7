-- ===== src/CreditGate/Confirm.antt =====
-- A run of answers to one decision.
use angavu_intelligence_back.Common.{
  ℕ, ◌+◌, ◌≤◌, ◌≡◌, refl, Bool, false, Option, some, List, [], ◌∷◌, String, length, length-append,
  ltb, All, arith,
}
use angavu_intelligence_back.CreditGate.{DecisionId, CreditDecision, CreditApprovalGate}
use angavu_intelligence_back.CreditGate.Gate.{verdict, respond, confirm_decision, get_decision}
use angavu_intelligence_back.CreditGate.Submit.{find-insert_self}

-- An answer: its time, whether it approves, and the comment.
abbrev pub Answer : Type 0
Answer = ℕ × Bool × Option String

unfoldable pub confirm_all : DecisionId → List Answer → CreditApprovalGate → CreditApprovalGate
confirm_all id [] gate = gate
confirm_all id ((now, answer, comment) ∷ as_) gate =
    confirm_all id as_ (confirm_decision now id answer comment gate).0

abbrev pub last_answer : Bool → List Answer → Bool
last_answer b [] = b
last_answer b ((_, answer, _) ∷ as_) = last_answer answer as_

confirmed :
    (now : ℕ) (id : DecisionId) (answer : Bool) (comment : Option String)
    (gate : CreditApprovalGate) (d : CreditDecision)
    → get_decision id gate ≡ some d
    → get_decision id (confirm_decision now id answer comment gate).0
      ≡ some (respond now answer comment d)
unfolding confirm_decision get_decision
confirmed now id answer comment gate d h =
    rw (h, confirm_decision)
      (find-insert_self id (respond now answer comment d) gate.pending_decisions)

responded :
    (now : ℕ) (answer : Bool) (comment : Option String) (d : CreditDecision)
    → now ≤ d.expires_at
    → let d' = respond now answer comment d in
      (d'.status ≡ verdict answer)
      × (d'.expires_at ≡ d.expires_at)
      × (length d'.audit_trail ≡ length d.audit_trail + 1)
unfolding respond
responded now answer comment d h =
    let in_time : ltb d.expires_at now ≡ false = ground arith in
    rw (in_time, respond) (refl, refl, length-append d.audit_trail _)

-- As long as a decision has not timed out, the last of the answers to it holds, whatever its status
-- was before: one that was rejected or approved can be answered again. Each answer leaves one entry
-- in the audit trail.
pub confirm_all-last_answer :
    (id : DecisionId) (now : ℕ) (answer : Bool) (comment : Option String) (as_ : List Answer)
    (gate : CreditApprovalGate) (d : CreditDecision)
    → get_decision id gate ≡ some d
    → now ≤ d.expires_at
    → All (λ a. a.0 ≤ d.expires_at) as_
    → (d' : CreditDecision) × (get_decision id (confirm_all id ((now, answer, comment) ∷ as_) gate)
        ≡ some d')
      × (d'.status ≡ verdict (last_answer answer as_))
      × (length d'.audit_trail ≡ length d.audit_trail + length as_ + 1)
unfolding confirm_all
confirm_all-last_answer id now answer comment [] gate d h t all =
    let (s, e, n) = responded now answer comment d t in
    (respond now answer comment d, confirmed now id answer comment gate d h, s, omega (arith, n))
confirm_all-last_answer id now answer comment ((now', answer', comment') ∷ as_) gate d h t all =
    let answered = respond now answer comment d in
    let (s, e, n) = responded now answer comment d t in
    let (d', found, status, entries) =
      confirm_all-last_answer id now' answer' comment' as_
        (confirm_decision now id answer comment gate).0 answered
        (confirmed now id answer comment gate d h) (rw e all.0) (rw e all.1) in
    (d', found, status, omega (arith, n, entries))
