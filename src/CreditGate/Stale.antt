-- ===== src/CreditGate/Stale.antt =====
-- What `expire_stale` leaves.
use angavu_intelligence_back.Common.{ℕ, ◌≡◌, refl, false, [], ◌∷◌, length, retain, All, arith}
use angavu_intelligence_back.CreditGate.{Decisions, CreditApprovalGate}
use angavu_intelligence_back.CreditGate.Gate.{is_stale, expire_all, expire_stale}

expire_all_lem :
    (now : ℕ) (ds : Decisions)
    → let (ds', n) = expire_all now ds in
      All (λ e. is_stale now e.1 ≡ false) ds'
      × (n ≡ length (retain (λ e. is_stale now e.1) ds))
      × (length ds' ≡ length ds)
unfolding expire_all retain
expire_all_lem now [] = (tt, refl, refl)
expire_all_lem now ((id, d) ∷ ds) = ground (arith, expire_all_lem now ds)

-- After a sweep no decision is pending past its time; the sweep counts those that were, and drops no
-- decision.
pub expire_stale_lem :
    (now : ℕ) (gate : CreditApprovalGate)
    → let (gate', n) = expire_stale now gate in
      All (λ e. is_stale now e.1 ≡ false) gate'.pending_decisions
      × (n ≡ length (retain (λ e. is_stale now e.1) gate.pending_decisions))
      × (length gate'.pending_decisions ≡ length gate.pending_decisions)
unfolding expire_stale
expire_stale_lem now gate = expire_all_lem now gate.pending_decisions
