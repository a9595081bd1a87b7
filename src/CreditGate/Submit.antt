-- ===== src/CreditGate/Submit.antt =====
-- What a submission leaves to be read, and which decisions are approved without a person.
use angavu_intelligence_back.Common.{
  ℕ, ◌≤◌, ◌≡◌, ◌↔◌, refl, true, false, some, [], ◌∷◌, str_eq_iff, str_eq_refl, length, Bool-cases,
  inl, inr, if◌then◌else◌, arith,
}
use angavu_intelligence_back.CreditGate.{
  auto_approved, DecisionId, CreditDecision, ApprovalGateConfig, Decisions, CreditApprovalGate,
  same_id, find, insert,
}
use angavu_intelligence_back.CreditGate.Gate.{
  Submission, Texts, is_application, can_auto_approve, first_status, decision_of, submit_decision,
  get_decision,
}

same_id_refl : (a : DecisionId) → same_id a a ≡ true
same_id_refl a = ground (arith, str_eq_refl a.worker)

same_id_trans : (i k j : DecisionId) → same_id i k ≡ true → same_id i j ≡ same_id k j
same_id_trans i k j h = ground (
  arith,
  str_eq_iff i.worker k.worker,
  str_eq_iff i.worker j.worker,
  str_eq_iff k.worker j.worker,
)

pub find-insert :
    (k j : DecisionId) (v : CreditDecision) (ds : Decisions)
    → find j (insert k v ds) ≡ (if same_id k j then some v else find j ds)
unfolding find insert
find-insert k j v [] = refl
find-insert k j v ((i, w) ∷ ds) = elim (Bool-cases (same_id i k)) [
  | inl e ↦
      rw (e, same_id_trans i k j e)
        (elim (Bool-cases (same_id k j)) [ inl b ↦ rw b refl | inr b ↦ rw b refl ])
  | inr e ↦ ground (
    arith,
    e,
    find-insert k j v ds,
    str_eq_iff i.worker k.worker,
    str_eq_iff i.worker j.worker,
    str_eq_iff k.worker j.worker,
  )
]

pub find-insert_self :
    (k : DecisionId) (v : CreditDecision) (ds : Decisions) → find k (insert k v ds) ≡ some v
find-insert_self k v ds = rw (find-insert k k v ds, same_id_refl k) refl

length-insert :
    (k : DecisionId) (v w : CreditDecision) (ds : Decisions)
    → find k ds ≡ some w
    → length (insert k v ds) ≡ length ds
unfolding find insert
length-insert k v w [] h = absurd (ground arith)
length-insert k v w ((i, x) ∷ ds) h = elim (Bool-cases (same_id i k)) [
  | inl e ↦ rw e refl
  | inr e ↦ rw e (omega (arith, length-insert k v w ds (rw e at h)))
]

auto_approved_iff :
    (c : ApprovalGateConfig) (s : Submission)
    → (first_status (can_auto_approve c s) ≡ auto_approved) ↔ (
        (c.auto_approve_threshold ≤ s.confidence)
        × (s.recommended_amount ≤ c.auto_approve_max_amount)
        × (is_application s.decision_type ≡ false))
auto_approved_iff c s = ground arith

-- A decision is approved without a person exactly where the confidence reaches the threshold, the
-- amount is within the limit, and it is no application for a loan. The decision is then found under
-- its identifier as it was submitted, and every decision with another identifier is found as before.
pub submit_decision_lem :
    (now : ℕ) (texts : Texts) (s : Submission) (gate : CreditApprovalGate) (j : DecisionId)
    → let (gate', r) = submit_decision now texts s gate in
      ((r.status ≡ auto_approved) ↔ (
        (gate.config.auto_approve_threshold ≤ s.confidence)
        × (s.recommended_amount ≤ gate.config.auto_approve_max_amount)
        × (is_application s.decision_type ≡ false)))
      × (get_decision j gate' ≡ (
          if same_id r.decision_id j
          then some (decision_of gate.config now texts s)
          else get_decision j gate))
unfolding submit_decision decision_of get_decision
submit_decision_lem now texts s gate j =
    (auto_approved_iff gate.config s, find-insert _ j _ gate.pending_decisions)

-- Two submissions for one worker within one second have one identifier: the second replaces the
-- first, and the gate holds no more decisions than after the first.
pub submit_decision_twice :
    (now : ℕ) (texts texts' : Texts) (s s' : Submission) (gate : CreditApprovalGate)
    → s'.worker_id ≡ s.worker_id
    → let (gate', r) = submit_decision now texts s gate in
      let gate'' = (submit_decision now texts' s' gate').0 in
      (get_decision r.decision_id gate'' ≡ some (decision_of gate.config now texts' s'))
      × (length gate''.pending_decisions ≡ length gate'.pending_decisions)
unfolding submit_decision decision_of get_decision
submit_decision_twice now texts texts' s s' gate same =
    let id : DecisionId = record { worker = s.worker_id; time = now } in
    rw same (
      find-insert_self id _ _,
      length-insert id _ _ _ (find-insert_self id _ gate.pending_decisions),
    )
