-- ===== src/PrivacyBudget/Ledger.antt =====
-- What one query does to the budget of its own kind, and to those of the others.
use mathlib.Core.Option
use angavu_intelligence_back.Common.{
  ℕ, ◌≤◌, ◌<◌, ◌≡◌, refl, sym, subst, ◌∙◌, true, false, Option, some, List, [], ◌∷◌, String, length,
  leb, ◌==◌, if◌then◌else◌, length-append, length-drop, Bool-cases, Option-cases, inl, inr, arith,
}
use angavu_intelligence_back.PrivacyBudget.{
  F64, QueryType, index, RdpParameters, QueryTypeBudget, new, can_afford, bounded, record_query,
  maybe_reset, PrivacyBudgetTracker, find, insert, entry, check_and_record,
}

pub find-insert {ℓ} :
    {A : Type ℓ} (k j : QueryType) (v : A) (m : List (QueryType × A))
    → find j (insert k v m) ≡ (if index k == index j then some v else find j m)
unfolding find insert
find-insert k j v [] = refl
find-insert k j v ((i, w) ∷ m) = ground (arith, find-insert k j v m)

find-index {ℓ} :
    {A : Type ℓ} (k j : QueryType) (m : List (QueryType × A))
    → index k ≡ index j
    → find k m ≡ find j m
unfolding find
find-index k j [] e = refl
find-index k j ((i, w) ∷ m) e = ground (arith, find-index k j m e, e)

length-bounded {ℓ} : {A : Type ℓ} (log : List A) → length log ≤ 101 → length (bounded log) ≤ 100
unfolding bounded
length-bounded log h = ground (arith, length-drop 50 log)

-- No more is consumed than the budget, which is not negative, the window does not end before it starts,
-- and the log is short.
pub record IsValid (f64 : F64) (b : QueryTypeBudget f64) : Type 0 where
  pub funded : f64.le f64.zero b.budget_epsilon ≡ true
  pub within : f64.le b.consumed_epsilon_rdp b.budget_epsilon ≡ true
  pub ordered : b.window_start ≤ b.window_end
  pub short : length b.recent_queries ≤ 100

module _ (f64 : F64) where
  maybe_reset-IsValid :
      (now : ℕ) (b : QueryTypeBudget f64) → IsValid f64 b → IsValid f64 (maybe_reset f64 now b)
  unfolding maybe_reset
  maybe_reset-IsValid now b h = elim (Bool-cases (leb b.window_end now)) [
    | inl e ↦
        rw (e, maybe_reset)
          (record {
            funded = h.funded;
            within = h.funded;
            ordered = omega arith;
            short = omega arith;
          })
    | inr e ↦ rw (e, maybe_reset) h
  ]

  entry-IsValid :
      (now : ℕ) (q : QueryType) (t : PrivacyBudgetTracker f64)
      → f64.le f64.zero t.default_epsilon ≡ true
      → ((j : QueryType) (b : QueryTypeBudget f64) → find j t.budgets ≡ some b → IsValid f64 b)
      → IsValid f64 (entry f64 now q t)
  unfolding entry new
  entry-IsValid now q t funded h = elim (Option-cases (find q t.budgets)) [
    | inl e ↦
        rw (e, entry)
          (record { funded = funded; within = funded; ordered = omega arith; short = omega arith })
    | inr (b, e) ↦ rw (e, entry) (h q b e)
  ]

  record_query-IsValid :
      (now : ℕ) (rdp : RdpParameters f64) (endpoint : String) (cohort_key : Option String)
      (b : QueryTypeBudget f64)
      → can_afford f64 b rdp ≡ true
      → IsValid f64 b
      → IsValid f64 (record_query f64 now rdp endpoint cohort_key b)
  unfolding record_query can_afford
  record_query-IsValid now rdp endpoint cohort_key b ok h = record {
    funded = h.funded;
    within = ok;
    ordered = h.ordered;
    short = length-bounded _ (omega (arith, h.short, length-append b.recent_queries (_ ∷ [])));
  }

  find-insert-IsValid :
      (k j : QueryType) (b : QueryTypeBudget f64) (m : List (QueryType × QueryTypeBudget f64))
      → (find j m ≡ some b → IsValid f64 b)
      → (v : QueryTypeBudget f64) → IsValid f64 v
      → find j (insert k v m) ≡ some b
      → IsValid f64 b
  find-insert-IsValid k j b m old v fits h = elim (Bool-cases (index k == index j)) [
    | inl e ↦
        let found : some v ≡ some b = sym (rw e at (find-insert k j v m)) ∙ h in
        subst (IsValid f64) (Option.some_inj.0 found) fits
    | inr e ↦ old (sym (rw e at (find-insert k j v m)) ∙ h)
  ]

  module _ (now : ℕ) (q : QueryType) (rdp : RdpParameters f64) (endpoint : String)
      (cohort_key : Option String) (t : PrivacyBudgetTracker f64) where
    -- The budget that a query is checked against.
    abbrev pub current : QueryTypeBudget f64
    current = maybe_reset f64 now (entry f64 now q t)

    -- In a window that is open the budget is the one that stands in the map.
    pub current-open :
        (k : QueryType) (b : QueryTypeBudget f64)
        → index q ≡ index k
        → find k t.budgets ≡ some b
        → now < b.window_end
        → current ≡ b
    unfolding maybe_reset entry
    current-open k b same h open_still =
        rw (find-index q k t.budgets same ∙ h, entry)
          (let e : leb b.window_end now ≡ false = ground arith in rw (e, maybe_reset) refl)

    -- A query is allowed exactly where its cost, composed with what its kind has consumed in the window
    -- that is current, fits the budget. Then it is recorded; a query that is not allowed consumes nothing.
    -- The budgets of the other kinds stay as they are.
    pub check_and_record_lem :
        (j : QueryType)
        → let (t', r) = check_and_record f64 now q rdp endpoint cohort_key t in
          (r.allowed ≡ can_afford f64 current rdp)
          × (find j t'.budgets ≡ (
              if index q == index j
              then some (
                  if r.allowed
                  then record_query f64 now rdp endpoint cohort_key current
                  else current)
              else find j t.budgets))
    unfolding check_and_record
    check_and_record_lem j = elim (Bool-cases (can_afford f64 current rdp)) [
      | inl e ↦ rw (e, check_and_record) (refl, find-insert q j _ t.budgets)
      | inr e ↦ rw (e, check_and_record) (refl, find-insert q j _ t.budgets)
    ]

    pub check_and_record-IsValid :
        f64.le f64.zero t.default_epsilon ≡ true
        → ((j : QueryType) (b : QueryTypeBudget f64) → find j t.budgets ≡ some b → IsValid f64 b)
        → (j : QueryType) (b : QueryTypeBudget f64)
        → find j (check_and_record f64 now q rdp endpoint cohort_key t).0.budgets ≡ some b
        → IsValid f64 b
    unfolding check_and_record
    check_and_record-IsValid funded valid j b h =
        let base =
          maybe_reset-IsValid now (entry f64 now q t) (entry-IsValid now q t funded valid) in
        let kept = find-insert-IsValid q j b t.budgets (valid j b) in
        elim (Bool-cases (can_afford f64 current rdp)) [
          | inl e ↦
              kept (record_query f64 now rdp endpoint cohort_key current)
                (record_query-IsValid now rdp endpoint cohort_key current e base)
                (rw (check_and_record, e) at h)
          | inr e ↦ kept current base (rw (check_and_record, e) at h)
        ]
