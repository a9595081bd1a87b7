-- ===== src/PrivacyBudget/History.antt =====
-- Any series of queries: what they consume in one window, and what stays bounded.
use angavu_intelligence_back.Common.{
  ℕ, ◌<◌, ◌≡◌, refl, sym, ◌∙◌, true, Option, some, List, [], ◌∷◌, String, ◌==◌, ◌&&◌, if◌then◌else◌,
  All, Bool-cases, inl, inr, arith,
}
use angavu_intelligence_back.PrivacyBudget.{
  F64, QueryType, maybe_reset, entry, can_afford, compose_rdp, index, RdpParameters,
  QueryTypeBudget, PrivacyBudgetTracker, find, record_query, check_and_record, BudgetCheckResult,
}
use angavu_intelligence_back.PrivacyBudget.Ledger.{
  IsValid, check_and_record_lem, check_and_record-IsValid, current-open,
}

module _ (f64 : F64) where
  -- The arguments of `check_and_record`, with the time of the call.
  pub record Query : Type 0 where
    pub now : ℕ
    pub query_type : QueryType
    pub rdp : RdpParameters f64
    pub endpoint : String
    pub cohort_key : Option String

  abbrev pub ask :
      Query → PrivacyBudgetTracker f64 → PrivacyBudgetTracker f64 × BudgetCheckResult f64
  ask c = check_and_record f64 c.now c.query_type c.rdp c.endpoint c.cohort_key

  unfoldable pub run_queries : List Query → PrivacyBudgetTracker f64 → PrivacyBudgetTracker f64
  run_queries [] t = t
  run_queries (c ∷ cs) t = run_queries cs (ask c t).0

  -- A cost added to a sum by the addition of f64; where the sum is zero, the cost.
  abbrev pub plus : f64.Float → f64.Float → f64.Float
  plus sum cost = if f64.same sum f64.zero then cost else f64.add sum cost

  -- A sum, and the costs of the queries of one kind that were allowed, added one after the other.
  unfoldable pub spent : QueryType → List Query → PrivacyBudgetTracker f64 → f64.Float → f64.Float
  spent q [] t sum = sum
  spent q (c ∷ cs) t sum =
      let (t', r) = ask c t in
      spent q cs t'
        (if r.allowed && index c.query_type == index q then plus sum c.rdp.epsilon_rdp else sum)

  keeps_default :
      (c : Query) (t : PrivacyBudgetTracker f64) → (ask c t).0.default_epsilon ≡ t.default_epsilon
  unfolding check_and_record
  keeps_default c t =
      let current = maybe_reset f64 c.now (entry f64 c.now c.query_type t) in
      elim (Bool-cases (can_afford f64 current c.rdp)) [ inl e ↦ rw e refl | inr e ↦ rw e refl ]

  -- Where the default budget is not negative: whatever is asked in whatever order, no kind consumes more
  -- than its budget, no window ends before it starts, and at most 100 queries are remembered of a kind,
  -- where this holds before.
  pub run_queries-IsValid :
      (cs : List Query) (t : PrivacyBudgetTracker f64)
      → f64.le f64.zero t.default_epsilon ≡ true
      → ((j : QueryType) (b : QueryTypeBudget f64) → find j t.budgets ≡ some b → IsValid f64 b)
      → (j : QueryType) (b : QueryTypeBudget f64) → find j (run_queries cs t).budgets ≡ some b
      → IsValid f64 b
  unfolding run_queries
  run_queries-IsValid [] t funded valid = valid
  run_queries-IsValid (c ∷ cs) t funded valid =
      run_queries-IsValid cs (ask c t).0 (rw (keeps_default c t) funded) (
        check_and_record-IsValid f64 c.now c.query_type c.rdp c.endpoint c.cohort_key t funded
          valid)

  -- While the window of a kind is open, its budget stands in the map with exactly the sum, rounded as
  -- f64 rounds it, of what it had consumed and of the costs that are allowed for it since, and that sum
  -- is not above the budget, where what it had consumed is not: all the queries of the series, of
  -- whatever kinds, come before the window's end.
  pub spent-le :
      (q : QueryType) (cs : List Query) (t : PrivacyBudgetTracker f64) (b : QueryTypeBudget f64)
      → find q t.budgets ≡ some b
      → f64.le b.consumed_epsilon_rdp b.budget_epsilon ≡ true
      → All (λ c. c.now < b.window_end) cs
      → (after : QueryTypeBudget f64) × (find q (run_queries cs t).budgets ≡ some after)
        × (after.consumed_epsilon_rdp ≡ spent q cs t b.consumed_epsilon_rdp)
        × (after.budget_epsilon ≡ b.budget_epsilon)
        × (f64.le (spent q cs t b.consumed_epsilon_rdp) b.budget_epsilon ≡ true)
  unfolding run_queries spent record_query can_afford compose_rdp
  spent-le q [] t b h le early = (b, h, refl, refl, le)
  spent-le q (c ∷ cs) t b h le (first, early) =
      let t' = (ask c t).0 in
      let (answer, kept) =
        check_and_record_lem f64 c.now c.query_type c.rdp c.endpoint c.cohort_key t q in
      elim (Bool-cases (index c.query_type == index q)) [
        | inr other ↦ rw other (elim (Bool-cases (ask c t).1.allowed) [
          | inl e ↦ rw e (spent-le q cs t' b (rw other at kept ∙ h) le early)
          | inr e ↦ rw e (spent-le q cs t' b (rw other at kept ∙ h) le early)
        ])
        | inl own ↦
            let cur =
              current-open f64 c.now c.query_type c.rdp c.endpoint c.cohort_key t q b (ground arith)
                h first in
            elim (Bool-cases (ask c t).1.allowed) [
              | inl e ↦
                  let b' = record_query f64 c.now c.rdp c.endpoint c.cohort_key b in
                  let fits : can_afford f64 b c.rdp ≡ true = sym (rw cur at answer) ∙ e in
                  rw (e, own) (spent-le q cs t' b' (rw (own, e, cur) at kept) fits early)
              | inr e ↦ rw e (spent-le q cs t' b (rw (own, e, cur) at kept) le early)
            ]
      ]
